-- ===== src/WebSocket/Shown.antt =====
-- main/web/sx_web_server.c: what the page sees of the bytes of the serial port.
use mathlib.Core.List.{flatten}
use opensx_serial_server.Prelude.{
  ℕ, zero, suc, ◌+◌, ◌-◌, ◌*◌, ◌^◌, ◌≡◌, ◌≤◌, ◌<◌, refl, sym, subst, ap, ap₂, ◌∙◌, Bool, true,
  false, some, List, [], ◌∷◌, ◌++◌, map, append-nil, ltb, leb, if◌then◌else◌, length, take, drop,
  take_all, length-drop, take-append-drop, length-take, All, Bool-cases, inl, inr, arith,
}
use opensx_serial_server.WebSocket.Payload.{decode_instruction_payload, hex_str, decode-hex_str}
use opensx_serial_server.WebSocket.Outgoing.{
  UartData, Env, max_msg_len, total_chunks, offset_of, length_of, piece, message, queue_chunk,
  chunks_from, send_uart_to_websocket,
}

-- The bytes that a message shows, by the decoding of the page's own instructions.
abbrev pub shown : UartData → List ℕ
shown m = (decode_instruction_payload (λ n. true) true (some m.hex)).1

abbrev pub IsBytes : List ℕ → Type 0
IsBytes bytes = All (λ b. b < 256) bytes

take-IsBytes : (n : ℕ) (l : List ℕ) → IsBytes l → IsBytes (take n l)
take-IsBytes zero l a = tt
take-IsBytes (suc n) [] a = tt
take-IsBytes (suc n) (b ∷ l) a = (a.0, take-IsBytes n l a.1)

drop-IsBytes : (n : ℕ) (l : List ℕ) → IsBytes l → IsBytes (drop n l)
drop-IsBytes zero l a = a
drop-IsBytes (suc n) [] a = tt
drop-IsBytes (suc n) (b ∷ l) a = drop-IsBytes n l a.1

abbrev no_bytes : List ℕ
no_bytes = []

drop-nil : (n : ℕ) → drop n no_bytes ≡ []
drop-nil zero = refl
drop-nil (suc n) = refl

drop-drop : (m n : ℕ) (l : List ℕ) → drop m (drop n l) ≡ drop (n + m) l
drop-drop m zero l = ap (λ k. drop k l) (omega arith)
drop-drop m (suc n) [] = drop-nil m ∙ sym (drop-nil (suc n + m))
drop-drop m (suc n) (b ∷ l) =
    let e : suc (n + m) ≡ suc n + m = omega arith in drop-drop m n l ∙ ap (λ k. drop k (b ∷ l)) e

drop_all : (n : ℕ) (l : List ℕ) → length l ≤ n → drop n l ≡ []
drop_all zero [] h = refl
drop_all zero (b ∷ l) h = absurd (omega arith)
drop_all (suc n) [] h = refl
drop_all (suc n) (b ∷ l) h = drop_all n l (omega arith)

decoded :
    (bytes : List ℕ)
    → IsBytes bytes
    → length bytes ≤ 128
    → (decode_instruction_payload (λ n. true) true (some (hex_str 0 bytes))).1 ≡ bytes
unfolding decode_instruction_payload hex_str
decoded [] a h = refl
decoded (b ∷ bytes) a h = ap (λ x. x.1) (decode-hex_str (λ n. true) b bytes (λ n. refl) a h)

-- The offset and the length of a chunk that begins inside the data.
module _ (len i : ℕ) (inside : i * 128 < len) (fits : len + 127 < 2 ^ 32) where
  offset : offset_of len i ≡ i * 128
  unfolding offset_of
  offset = ground arith

  long : length_of len i ≡ (if ltb len (i * 128 + 128) then len - i * 128 else 128)
  unfolding length_of offset_of
  long = ground (arith, offset)

-- A list from an offset on is a chunk of it and what is behind the chunk.
cut :
    (l : List ℕ) (off : ℕ)
    → take (if ltb (length l) (off + 128) then length l - off else 128) (drop off l)
        ++ drop (off + 128) l
      ≡ drop off l
cut l off = elim (Bool-cases (ltb (length l) (off + 128))) [
  | inl e ↦
      rw
        (
          e,
          take_all (length l - off) (drop off l) (omega (arith, length-drop off l)),
          drop_all (off + 128) l (ground arith),
        )
        (append-nil (drop off l))
  | inr e ↦ rw (e, sym (drop-drop 128 off l)) (take-append-drop 128 (drop off l))
]

at_most :
    (l : List ℕ) (off : ℕ)
    → length (take (if ltb (length l) (off + 128) then length l - off else 128) (drop off l)) ≤ 128
at_most l off = elim (Bool-cases (ltb (length l) (off + 128))) [
  | inl e ↦ rw e (ground (arith, length-take (length l - off) (drop off l), length-drop off l))
  | inr e ↦ rw e (omega (arith, length-take 128 (drop off l)))
]

module _ (l : List ℕ) (i : ℕ) (inside : i * 128 < length l) (fits : length l + 127 < 2 ^ 32) where
  this_piece :
      piece l i
      ≡ take (if ltb (length l) (i * 128 + 128) then length l - i * 128 else 128) (drop (i * 128) l)
  unfolding piece
  this_piece =
      ap₂ (λ n off. take n (drop off l)) (long (length l) i inside fits)
        (offset (length l) i inside fits)

  piece_cut : piece l i ++ drop ((i + 1) * 128) l ≡ drop (i * 128) l
  piece_cut =
      let e : (i + 1) * 128 ≡ i * 128 + 128 = omega arith in rw (this_piece, e) (cut l (i * 128))

  length-piece : length (piece l i) ≤ 128
  length-piece = rw this_piece (at_most l (i * 128))

piece-IsBytes : (l : List ℕ) (i : ℕ) → IsBytes l → IsBytes (piece l i)
unfolding piece
piece-IsBytes l i a =
    take-IsBytes (length_of (length l) i) (drop (offset_of (length l) i) l)
      (drop-IsBytes (offset_of (length l) i) l a)

-- The numbers from `i` on, `n` of them.
abbrev pub counted : ℕ → ℕ → List ℕ
counted i zero = []
counted i (suc n) = i ∷ counted (i + 1) n

-- There is a queue with room, and memory for texts that fit a message.
pub record Shows (env : Env) : Type 0 where
  pub has_queue : env.has_queue ≡ true
  pub json : (i : ℕ) → (n : ℕ) × (env.json i ≡ some n) × (n < max_msg_len)
  pub memory : (i : ℕ) → env.memory i ≡ true
  pub queued : (i : ℕ) → env.queued i ≡ true

goes :
    (env : Env) (i : ℕ) (m : UartData) (rest : List UartData)
    → Shows env
    → queue_chunk env i (env.json i) m rest ≡ m ∷ rest
goes env i m rest s =
    let (n, e, h) = s.json i in
    let short : leb max_msg_len n ≡ false = ground arith in
    simp (e, short, s.memory i, s.queued i) refl

-- The messages of the last chunks show what is left, are as many, and say the number of all and their
-- own.
from_chunk :
    (env : Env) (l : List ℕ) (is_tx : Bool) (id n i : ℕ)
    → Shows env
    → IsBytes l
    → length l + 127 < 2 ^ 32
    → length l ≤ (i + n) * 128
    → (i + n) * 128 < length l + 128
    → let ms = chunks_from env l is_tx id n i in
      (flatten (map shown ms) ≡ drop (i * 128) l)
      × (length ms ≡ n)
      × All (λ m. m.chunk_total ≡ total_chunks (length l)) ms
      × (map (λ m. m.chunk_index) ms ≡ counted i n)
unfolding chunks_from flatten
from_chunk env l is_tx id zero i s a f x y =
    (sym (drop_all (i * 128) l (omega arith)), refl, tt, refl)
from_chunk env l is_tx id (suc n) i s a f x y =
    let inside : i * 128 < length l = omega arith in
    let (p, q, t, k) = from_chunk env l is_tx id n (i + 1) s a f (omega arith) (omega arith) in
    rw (goes env i (message l is_tx id i) (chunks_from env l is_tx id n (i + 1)) s) (
      ap₂ (λ x y. x ++ y) (decoded (piece l i) (piece-IsBytes l i a) (length-piece l i inside f)) p
          ∙ piece_cut l i inside f,
      ap suc q,
      (refl, t),
      ap (◌∷◌ i) k,
    )

total_bounds :
    (l : List ℕ)
    → 0 < length l
    → length l + 127 < 2 ^ 32
    → (length l ≤ total_chunks (length l) * 128) × (total_chunks (length l) * 128 < length l + 128)
unfolding total_chunks
total_bounds l h f = (ground arith, ground arith)

sends :
    (env : Env) (l : List ℕ) (is_tx : Bool) (id : ℕ)
    → Shows env
    → send_uart_to_websocket env l is_tx id ≡ chunks_from env l is_tx id (total_chunks (length l)) 0
unfolding send_uart_to_websocket
sends env l is_tx id s = rw s.has_queue refl

no_bytes_shown :
    (env : Env) (is_tx : Bool) (id : ℕ)
    → Shows env
    → let ms = chunks_from env [] is_tx id 1 0 in
      (flatten (map shown ms) ≡ [])
      × (length ms ≡ 1)
      × All (λ m. m.chunk_total ≡ length ms) ms
      × (map (λ m. m.chunk_index) ms ≡ counted 0 (length ms))
unfolding chunks_from flatten piece hex_str decode_instruction_payload total_chunks
no_bytes_shown env is_tx id s =
    rw (goes env 0 (message [] is_tx id 0) [] s) (refl, refl, (refl, tt), refl)

-- While there is memory and room in the queue and the JSON texts fit a message, for up to 2 ^ 32 - 128
-- bytes of the port: the page is sent as many messages as are due to that many
-- bytes and as each of them says; they say that they are the first, the second and so on; and what they
-- show, put together, is the bytes of the port: in order, none twice and none left out.
pub send_uart-shown :
    (env : Env) (l : List ℕ) (is_tx : Bool) (frame_id : ℕ)
    → Shows env
    → IsBytes l
    → length l + 127 < 2 ^ 32
    → let ms = send_uart_to_websocket env l is_tx frame_id in
      (flatten (map shown ms) ≡ l)
      × (length ms ≡ total_chunks (length l))
      × All (λ m. m.chunk_total ≡ length ms) ms
      × (map (λ m. m.chunk_index) ms ≡ counted 0 (length ms))
unfolding total_chunks
send_uart-shown env [] is_tx frame_id s a f =
    rw (sends env [] is_tx frame_id s) (no_bytes_shown env is_tx frame_id s)
send_uart-shown env (b ∷ l) is_tx frame_id s a f =
    let n = total_chunks (length (b ∷ l)) in
    let (x, y) = total_bounds (b ∷ l) (omega arith) f in
    let (p, q, t, k) =
      from_chunk env (b ∷ l) is_tx frame_id n 0 s a f (omega (arith, x)) (omega (arith, y)) in
    rw (sends env (b ∷ l) is_tx frame_id s) (
      p,
      q,
      subst (λ k. All (λ m. m.chunk_total ≡ k) (chunks_from env (b ∷ l) is_tx frame_id n 0)) (sym q)
          t,
      k ∙ ap (counted 0) (sym q),
    )
