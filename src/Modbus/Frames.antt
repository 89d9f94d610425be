-- ===== src/Modbus/Frames.antt =====
-- What the poll task sends, and how long it waits for an answer.
use opensx_serial_server.Prelude.{
  ℕ, ◌+◌, ◌*◌, ◌/◌, ◌%◌, ◌^◌, ◌≤◌, ◌<◌, ◌≡◌, Bool, false, ◌||◌, Option, none, some, ◌==◌, subst,
  List, [], ◌∷◌, ◌++◌, if◌then◌else◌, All, Bool-cases, inl, inr, arith,
}
use opensx_serial_server.Prelude.Int.{ℤ, pos, negsuc, below, above, to_nat}
use opensx_serial_server.Prelude.Text.{atoi}
use opensx_serial_server.Modbus.Crc.{calculate_crc}
use opensx_serial_server.Modbus.Crc.Laws.{crc_residue, calculate_crc-lt}
use opensx_serial_server.Modbus.Poll.{
  Item, Env, Call, tx_tasks, wait_response, delay_with_wdt, request, serial_invalid,
  request_invalid, interval_of, timeout_of, item_request, command, commands,
}

-- What a device reads in a frame of eight bytes whose checksum fits: its address, the function, the
-- first register and the number of registers.
pub decode : List ℕ → Option (ℕ × ℕ × ℕ × ℕ)
decode (a ∷ f ∷ rh ∷ rl ∷ nh ∷ nl ∷ cl ∷ ch ∷ []) =
    if calculate_crc (a ∷ f ∷ rh ∷ rl ∷ nh ∷ nl ∷ []) == ch * 256 + cl
    then some (a, f, rh * 256 + rl, nh * 256 + nl)
    else none
decode _ = none

-- A request reads back as the fields that it was built from.
pub decode-request :
    (slave_addr function_code reg_addr reg_num : ℕ)
    → slave_addr < 256
    → function_code < 256
    → reg_addr < 65536
    → reg_num < 65536
    → decode (request slave_addr function_code reg_addr reg_num)
      ≡ some (slave_addr, function_code, reg_addr, reg_num)
unfolding decode request
decode-request a f r n ha hf hr hn =
    let bytes : List ℕ =
      a % 256 ∷ f % 256 ∷ r / 256 % 256 ∷ r % 256 ∷ n / 256 % 256 ∷ n % 256 ∷ [] in
    let small : calculate_crc bytes < 2 ^ 16 = calculate_crc-lt bytes (omega arith) in
    let e : calculate_crc bytes
        ≡ calculate_crc bytes / 256 % 256 * 256 + calculate_crc bytes % 256 =
      omega arith in
    ground (arith, e)

-- The frame is whole, its fields are in the ranges of the checks, and its checksum has no residue.
pub record IsRequest (frame : List ℕ) : Type 0 where
  pub slave_addr : ℕ
  pub function_code : ℕ
  pub reg_addr : ℕ
  pub reg_num : ℕ
  pub reads : decode frame ≡ some (slave_addr, function_code, reg_addr, reg_num)
  pub bytes : All (λ b. b < 256) frame
  pub residue : calculate_crc frame ≡ 0
  pub addressed : (1 ≤ slave_addr) × (slave_addr ≤ 247)
  pub known : (1 ≤ function_code) × (function_code ≤ 6)
  pub counted : (1 ≤ reg_num) × (reg_num ≤ 125)

residue-request : (a f r n : ℕ) → calculate_crc (request a f r n) ≡ 0
unfolding request
residue-request a f r n =
    let bytes : List ℕ =
      a % 256 ∷ f % 256 ∷ r / 256 % 256 ∷ r % 256 ∷ n / 256 % 256 ∷ n % 256 ∷ [] in
    let small : calculate_crc bytes < 2 ^ 16 = calculate_crc-lt bytes (omega arith) in
    let e : calculate_crc bytes / 256 ≡ calculate_crc bytes / 256 % 256 = omega arith in
    subst (λ high. calculate_crc (bytes ++ calculate_crc bytes % 256 ∷ high ∷ []) ≡ 0) e
      (crc_residue bytes (omega arith))

request-bytes : (a f r n : ℕ) → All (λ b. b < 256) (request a f r n)
unfolding request
request-bytes a f r n = omega arith

-- The ranges of the checks.
record InRange (item : Item) : Type 0 where
  address : (1 ≤ to_nat (atoi item.slave_addr)) × (to_nat (atoi item.slave_addr) ≤ 247)
  code : (1 ≤ to_nat (atoi item.function_code)) × (to_nat (atoi item.function_code) ≤ 6)
  first : to_nat (atoi item.register_addr) ≤ 65535
  count : (1 ≤ to_nat (atoi item.register_num)) × (to_nat (atoi item.register_num) ≤ 125)

valid_range :
    (lo hi : ℕ) (z : ℤ) → (below z lo || above hi z) ≡ false → (lo ≤ to_nat z) × (to_nat z ≤ hi)
valid_range lo hi (pos a) h = ground arith
valid_range lo hi (negsuc a) h = ground arith

request_invalid-InRange : (item : Item) → request_invalid item ≡ false → InRange item
unfolding request_invalid
request_invalid-InRange item h = record {
  address = valid_range 1 247 (atoi item.slave_addr) (ground arith);
  code = valid_range 1 6 (atoi item.function_code) (ground arith);
  first = (valid_range 0 65535 (atoi item.register_addr) (ground arith)).1;
  count = valid_range 1 125 (atoi item.register_num) (ground arith);
}

item_request-IsRequest : (item : Item) → InRange item → IsRequest (item_request item)
unfolding item_request
item_request-IsRequest item v = record {
  slave_addr = to_nat (atoi item.slave_addr);
  function_code = to_nat (atoi item.function_code);
  reg_addr = to_nat (atoi item.register_addr);
  reg_num = to_nat (atoi item.register_num);
  reads =
      decode-request (to_nat (atoi item.slave_addr)) (to_nat (atoi item.function_code))
        (to_nat (atoi item.register_addr)) (to_nat (atoi item.register_num))
        (omega (arith, v.address)) (omega (arith, v.code)) (omega (arith, v.first))
        (omega (arith, v.count));
  bytes =
      request-bytes (to_nat (atoi item.slave_addr)) (to_nat (atoi item.function_code))
        (to_nat (atoi item.register_addr)) (to_nat (atoi item.register_num));
  residue =
      residue-request (to_nat (atoi item.slave_addr)) (to_nat (atoi item.function_code))
        (to_nat (atoi item.register_addr)) (to_nat (atoi item.register_num));
  addressed = v.address;
  known = v.code;
  counted = v.count;
}

-- A call that keeps the protocol: a frame sent is a request, a wait for its response is asked for with a
-- limit of 100 ms to 10 s, and the pause behind it with at least a millisecond.
abbrev pub IsFair : Call → Type 0
IsFair (tx_tasks frame) = IsRequest frame
IsFair (wait_response ms) = (100 ≤ ms) × (ms ≤ 10000)
IsFair (delay_with_wdt ms) = 1 ≤ ms
IsFair _ = Unit

timeout_of-range : (item : Item) → (100 ≤ timeout_of item) × (timeout_of item ≤ 10000)
unfolding timeout_of
timeout_of-range item =
    elim (Bool-cases (below (atoi item.timeout) 100 || above 10000 (atoi item.timeout))) [
      | inl out ↦ rw out (omega arith)
      | inr within ↦ rw within (valid_range 100 10000 (atoi item.timeout) within)
    ]

interval_of-positive : (item : Item) → 1 ≤ interval_of item
unfolding interval_of
interval_of-positive item = positive (atoi item.interval_time)
  where
    positive : (z : ℤ) → 1 ≤ (if above 0 z then to_nat z else 100)
    positive (pos a) = ground arith
    positive (negsuc a) = omega arith

command-IsFair : (env : Env) (i : ℕ) (item : Item) → All IsFair (command env i item)
unfolding command
command-IsFair env i item = elim (Bool-cases item.enabled) [
  | inr off ↦ rw off tt
  | inl on ↦ elim (Bool-cases (serial_invalid env item)) [
    | inl bad ↦ simp (bad, on) (tt, tt)
    | inr good ↦ elim (Bool-cases (request_invalid item)) [
      | inl wrong ↦ simp (good, wrong, on) (tt, (tt, (tt, tt)))
      | inr right ↦
          simp (good, right, on)
            (
              tt,
              (
                tt,
                (
                  tt,
                  (
                    tt,
                    (
                      item_request-IsRequest item (request_invalid-InRange item right),
                      (timeout_of-range item, (interval_of-positive item, tt)),
                    ),
                  ),
                ),
              ),
            )
    ]
  ]
]

All-append : {A : Type 0} (P : A → Type 0) (xs ys : List A) → All P xs → All P ys → All P (xs ++ ys)
All-append P [] ys a b = b
All-append P (x ∷ xs) ys (p, a) b = (p, All-append P xs ys a b)

-- Whatever the items hold and whenever a stop is asked for: every frame that a pass over the items
-- sends is a whole request with fields in range and a checksum without residue; every wait for a
-- response is asked for with a limit of 100 ms to 10 s, and every pause behind a response with a length
-- of at least a millisecond. A response or a stop ends the wait sooner, and a stop the pause.
pub commands-IsFair :
    (env : Env) (stop : ℕ → Bool) (i : ℕ) (items : List Item)
    → All IsFair (commands env stop i items)
unfolding commands
commands-IsFair env stop i [] = tt
commands-IsFair env stop i (item ∷ items) = elim (Bool-cases (stop i)) [
  | inl told ↦ rw told tt
  | inr on ↦ rw on (
      All-append IsFair (command env i item) (commands env stop (i + 1) items)
        (command-IsFair env i item) (commands-IsFair env stop (i + 1) items))
]
