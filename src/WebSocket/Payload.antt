-- ===== src/WebSocket/Payload.antt =====
-- main/web/sx_web_server.c: the text of an instruction for the serial port, and the text that shows bytes
-- of the port.
use opensx_serial_server.Prelude.{
  ℕ, ◌+◌, ◌-◌, ◌*◌, ◌/◌, ◌%◌, ◌≡◌, ◌≤◌, ◌<◌, refl, ap, ◌∙◌, Bool, true, false, not, Option, none,
  some, List, [], ◌∷◌, ltb, ◌==◌, if◌then◌else◌, length, All, arith,
}
use opensx_serial_server.Prelude.Text.{CString, is_space, skip_spaces}
use opensx_serial_server.Prelude.Err.{EspErr, esp_ok, err_no_mem, err_invalid_arg}
use opensx_serial_server.TcpServer.Hex.{hex_digit, upper, hex_digit-upper}

-- strtol(text, NULL, 16), cut to a byte, for texts of two characters: a prefix 0x would need a third
abbrev digit_then : Option ℕ → ℕ → (ℕ → ℕ) → ℕ
digit_then none acc next = acc
digit_then (some d) acc next = next (acc * 16 + d)

unfoldable pub digits16 : CString → ℕ → ℕ
digits16 [] acc = acc
digits16 (c ∷ cs) acc = digit_then (hex_digit c) acc (digits16 cs)

abbrev signed_byte : CString → ℕ
signed_byte [] = 0
signed_byte (c ∷ cs) =
    if c == b'-'
    then (256 - digits16 cs 0 % 256) % 256
    else if c == b'+'
    then digits16 cs 0 % 256
    else digits16 (c ∷ cs) 0 % 256

unfoldable pub strtol_byte : CString → ℕ
strtol_byte text = signed_byte (skip_spaces text)

-- `clean_str`
unfoldable pub clean_str : CString → CString
clean_str [] = []
clean_str (c ∷ cs) = let rest = clean_str cs in if c == b' ' then rest else c ∷ rest

-- the loop over the pairs
unfoldable pub pair_bytes : CString → List ℕ
pair_bytes [] = []
pair_bytes (c ∷ []) = []
pair_bytes (high ∷ low ∷ rest) = strtol_byte (high ∷ low ∷ []) ∷ pair_bytes rest

-- The bytes, or the error.
abbrev pub Decoded : Type 0
Decoded = EspErr × List ℕ

-- `decode_instruction_payload`; `memory` says which sizes are allocated
unfoldable pub decode_instruction_payload : (ℕ → Bool) → Bool → Option CString → Decoded
decode_instruction_payload memory is_hex_mode none = (err_invalid_arg, [])
decode_instruction_payload memory is_hex_mode (some []) = (err_invalid_arg, [])
decode_instruction_payload memory false (some (c ∷ cs)) =
    if memory (length (c ∷ cs)) then (esp_ok, c ∷ cs) else (err_no_mem, [])
decode_instruction_payload memory true (some (c ∷ cs)) =
    let digits = clean_str (c ∷ cs) in
    if not (memory (length (c ∷ cs) + 1))
    then (err_no_mem, [])
    else if not (length digits % 2 == 0)
    then (err_invalid_arg, [])
    else if not (memory (length digits / 2))
    then (err_no_mem, [])
    else (esp_ok, pair_bytes digits)

-- `hex_str` from `hex_pos` on: two digits and a space for each byte, while there is room
unfoldable pub hex_str : ℕ → List ℕ → CString
hex_str hex_pos [] = []
hex_str hex_pos (b ∷ bytes) =
    let rest = hex_str (hex_pos + 3) bytes in
    if ltb hex_pos (128 * 3 + 16 - 4) then upper (b / 16) ∷ upper (b % 16) ∷ b' ' ∷ rest else []

-- The characters that the other branches of `strtol` look for are no digits.
no_sign :
    (d : ℕ)
    → d < 16
    → (is_space (upper d) ≡ false)
      × ((upper d == b'-') ≡ false)
      × ((upper d == b'+') ≡ false)
      × ((upper d == b' ') ≡ false)
unfolding is_space
no_sign d h = (ground arith, ground arith, ground arith, ground arith)

two_digits :
    (a b h l : ℕ)
    → hex_digit a ≡ some h
    → hex_digit b ≡ some l
    → digits16 (a ∷ b ∷ []) 0 ≡ h * 16 + l
unfolding digits16
two_digits a b h l p q = rw (p, q) (omega arith)

skip_spaces-digit : (c : ℕ) (cs : CString) → is_space c ≡ false → skip_spaces (c ∷ cs) ≡ c ∷ cs
unfolding skip_spaces
skip_spaces-digit c cs s = rw s refl

signed :
    (a n : ℕ) (cs : CString)
    → (a == b'-') ≡ false
    → (a == b'+') ≡ false
    → digits16 (a ∷ cs) 0 ≡ n
    → n < 256
    → signed_byte (a ∷ cs) ≡ n
signed a n cs m p d h = rw (m, p, d) (omega arith)

strtol_digits :
    (a b n : ℕ)
    → is_space a ≡ false
    → (a == b'-') ≡ false
    → (a == b'+') ≡ false
    → digits16 (a ∷ b ∷ []) 0 ≡ n
    → n < 256
    → strtol_byte (a ∷ b ∷ []) ≡ n
unfolding strtol_byte
strtol_digits a b n s m p d h =
    ap signed_byte (skip_spaces-digit a (b ∷ []) s) ∙ signed a n (b ∷ []) m p d h

strtol-upper : (h l : ℕ) → h < 16 → l < 16 → strtol_byte (upper h ∷ upper l ∷ []) ≡ h * 16 + l
strtol-upper h l a b =
    let (s, m, p, _) = no_sign h a in
    strtol_digits (upper h) (upper l) (h * 16 + l) s m p
      (two_digits (upper h) (upper l) h l (hex_digit-upper h a) (hex_digit-upper l b)) (omega arith)

-- The text of bytes without its spaces.
unfoldable plain : List ℕ → CString
plain [] = []
plain (b ∷ bytes) = upper (b / 16) ∷ upper (b % 16) ∷ plain bytes

clean-hex_str :
    (bytes : List ℕ) (pos : ℕ)
    → All (λ b. b < 256) bytes
    → pos + 3 * length bytes ≤ 398
    → clean_str (hex_str pos bytes) ≡ plain bytes
unfolding clean_str hex_str plain
clean-hex_str [] pos a h = refl
clean-hex_str (b ∷ bytes) pos a h =
    let (_, _, _, x) = no_sign (b / 16) (omega (arith, a.0)) in
    let (_, _, _, y) = no_sign (b % 16) (omega arith) in
    let room : ltb pos 396 ≡ true = ground arith in
    rw room (rw (x, y, clean-hex_str bytes (pos + 3) a.1 (omega arith)) refl)

pairs-plain : (bytes : List ℕ) → All (λ b. b < 256) bytes → pair_bytes (plain bytes) ≡ bytes
unfolding pair_bytes plain
pairs-plain [] a = refl
pairs-plain (b ∷ bytes) a =
    rw (strtol-upper (b / 16) (b % 16) (omega (arith, a.0)) (omega arith), pairs-plain bytes a.1)
      (ap (λ n. n ∷ bytes) (omega arith))

length-plain : (bytes : List ℕ) → length (plain bytes) % 2 ≡ 0
unfolding plain
length-plain [] = omega arith
length-plain (b ∷ bytes) = omega (arith, length-plain bytes)

decoded :
    (memory : ℕ → Bool) (c : ℕ) (cs digits : CString) (bytes : List ℕ)
    → ((n : ℕ) → memory n ≡ true)
    → clean_str (c ∷ cs) ≡ digits
    → (length digits % 2 == 0) ≡ true
    → pair_bytes digits ≡ bytes
    → decode_instruction_payload memory true (some (c ∷ cs)) ≡ (esp_ok, bytes)
unfolding decode_instruction_payload
decoded memory c cs digits bytes m e l p = simp (m, e, l, p) refl

is_even : (n : ℕ) → n % 2 ≡ 0 → (n % 2 == 0) ≡ true
is_even n h = ground arith

-- The text that shows one to 128 bytes of the port, sent as an instruction in hexadecimal while there is
-- memory, is decoded to those bytes.
pub decode-hex_str :
    (memory : ℕ → Bool) (b : ℕ) (bytes : List ℕ)
    → ((n : ℕ) → memory n ≡ true)
    → All (λ x. x < 256) (b ∷ bytes)
    → length (b ∷ bytes) ≤ 128
    → decode_instruction_payload memory true (some (hex_str 0 (b ∷ bytes))) ≡ (esp_ok, b ∷ bytes)
unfolding hex_str
decode-hex_str memory b bytes m a h =
    decoded memory (upper (b / 16)) (upper (b % 16) ∷ b' ' ∷ hex_str 3 bytes) (plain (b ∷ bytes))
      (b ∷ bytes) m (clean-hex_str (b ∷ bytes) 0 a (omega (arith, h)))
      (is_even (length (plain (b ∷ bytes))) (length-plain (b ∷ bytes))) (pairs-plain (b ∷ bytes) a)
