-- ===== src/DnsServer.antt =====
-- main/network/sx_dns_server.c: the DNS server of the access point, which answers every name with the
-- address of the device. A read outside the array of the reply is the outcome `overrun`. A `char` is
-- unsigned, as the compilers for ESP32 have it; words of the packet are two bytes, the higher first,
-- and in the memory of the device the lower first.
pub mod Names
pub mod Bounds
pub mod Answer
pub mod Life
mod Tests
use opensx_serial_server.Prelude.{
  ℕ, zero, suc, ◌+◌, ◌-◌, ◌*◌, ◌/◌, ◌%◌, ◌^◌, Bool, Option, none, some, List, [], ◌∷◌, ◌++◌, length,
  take, drop, get_elem?, replicate, ltb, not, ◌==◌, if◌then◌else◌,
}

pub data Parsed : Type 0 where
  -- the name, and the index of the first byte behind it
  name : List ℕ → ℕ → Parsed
  too_long overrun no_fuel : Parsed

-- a label of `n` bytes at `label`, the name so far being `out`
abbrev pub add_label : List ℕ → ℕ → ℕ → List ℕ → List ℕ
add_label reply label n out = out ++ (take n (drop (label + 1) reply) ++ b'.' ∷ [])

-- what follows the label: `next` is its length byte, `rest` the next round
abbrev pub after_label : Option ℕ → Parsed → List ℕ → ℕ → Parsed
after_label none rest out next_label = overrun
after_label (some zero) rest out next_label = name (take (length out - 1) out) (next_label + 1)
after_label (some (suc n)) rest out next_label = rest

-- a round of the loop, with the length byte that it reads
abbrev pub label_round : ℕ → List ℕ → ℕ → List ℕ → Option ℕ → (ℕ → List ℕ → Parsed) → Parsed
label_round max_len reply label out none rest = overrun
label_round max_len reply label out (some n) rest =
    if ltb max_len (length out + n + 1)
    then too_long
    else if ltb (length reply) (label + 1 + n)
    then overrun
    else after_label (get_elem? reply (label + n + 1))
        (rest (label + n + 1) (add_label reply label n out)) (add_label reply label n out)
        (label + n + 1)

-- the loop of `parse_dns_name`; the name so far is as long as `name_len`
unfoldable pub parse_from : ℕ → ℕ → List ℕ → ℕ → List ℕ → Parsed
parse_from zero max_len reply label out = no_fuel
parse_from (suc fuel) max_len reply label out =
    label_round max_len reply label out (get_elem? reply label) (parse_from fuel max_len reply)

-- `parse_dns_name`, at an index of the reply; a round adds a byte at least to the name
unfoldable pub parse_dns_name : ℕ → List ℕ → ℕ → Parsed
parse_dns_name max_len reply at = parse_from (max_len + 1) max_len reply at []

abbrev pub byte : List ℕ → ℕ → ℕ
byte [] i = 0
byte (b ∷ bs) zero = b
byte (b ∷ bs) (suc i) = byte bs i

-- ntohs of the two bytes at an index
abbrev pub net_word : List ℕ → ℕ → ℕ
net_word bs i = byte bs i * 256 + byte bs (i + 1)

-- bytes copied into the array
unfoldable pub put : ℕ → List ℕ → List ℕ → List ℕ
put at src bs = take at bs ++ (src ++ drop (at + length src) bs)

-- `header->flags & OPCODE_MASK`, the flags read in the order of the device
unfoldable pub masked_opcode : List ℕ → ℕ
masked_opcode reply = ((byte reply 2 + byte reply 3 * 256) / 2 ^ 11) % 2 ^ 4

-- the answer of 16 bytes: a pointer to the name at 12, the type, the class, 300 seconds, the address
unfoldable pub dns_answer : List ℕ → List ℕ → ℕ → List ℕ
dns_answer ip reply question =
    0xc0
    ∷ 12
    ∷ byte reply question
    ∷ byte reply (question + 1)
    ∷ byte reply (question + 2)
    ∷ byte reply (question + 3)
    ∷ 0
    ∷ 0
    ∷ 1
    ∷ 44
    ∷ 0
    ∷ 4
    ∷ ip

pub data Outcome : Type 0 where
  -- -1, 0, a read outside the array, the loop of a name on too little fuel
  failed ignored outside unfinished : Outcome
  -- the array and how much of it is sent
  reply : List ℕ → ℕ → Outcome

-- a question: its name has been read, `rest` goes on with the other questions
abbrev pub on_question : List ℕ → ℕ → List ℕ → Parsed → (List ℕ → Outcome) → Outcome
on_question ip req_len bs (name n question) rest =
    if ltb (length bs) (question + 4)
    then outside
    else rest (if net_word bs question == 1 then put req_len (dns_answer ip bs question) bs else bs)
on_question ip req_len bs too_long rest = failed
on_question ip req_len bs overrun rest = outside
on_question ip req_len bs no_fuel rest = unfinished

-- the loop over the questions; neither pointer moves on
unfoldable pub answer_questions : ℕ → List ℕ → ℕ → ℕ → List ℕ → Outcome
answer_questions zero ip req_len reply_len bs = reply bs reply_len
answer_questions (suc i) ip req_len reply_len bs =
    on_question ip req_len bs (parse_dns_name 128 bs 12) (answer_questions i ip req_len reply_len)

-- the flag of an answer, and as many answers as questions
unfoldable pub response_header : List ℕ → List ℕ
response_header bs =
    put 2 ((if ltb (byte bs 2) 128 then byte bs 2 + 128 else byte bs 2) ∷ [])
      (put 6 (byte bs 4 ∷ byte bs 5 ∷ []) bs)

-- `parse_dns_request`, into an array of 256 bytes
unfoldable pub parse_dns_request : List ℕ → List ℕ → Outcome
parse_dns_request ip req =
    let bs = req ++ replicate (256 - length req) 0 in
    let count = net_word bs 4 in
    let reply_len = count * 16 + length req in
    if ltb 256 (length req)
    then failed
    else if not (masked_opcode bs == 0)
    then ignored
    else if ltb 256 reply_len
    then failed
    else answer_questions count ip (length req) reply_len (response_header bs)
