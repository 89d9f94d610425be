-- ===== src/TcpServer/Hex.antt =====
-- main/protocols/sx_tcp_server.c: `hex_to_bin`, for heartbeats given in hexadecimal.
use opensx_serial_server.Prelude.{
  ℕ, suc, ◌+◌, ◌-◌, ◌*◌, ◌/◌, ◌%◌, ◌≤◌, ◌<◌, ◌≡◌, refl, ap, not, ◌&&◌, ◌||◌, Option, none, some,
  List, [], ◌∷◌, ltb, leb, ◌==◌, if◌then◌else◌, length, All, arith,
}
use opensx_serial_server.Prelude.Text.{CString}

-- the value of a digit
unfoldable pub hex_digit : ℕ → Option ℕ
hex_digit c =
    if leb b'0' c && leb c b'9'
    then some (c - b'0')
    else if leb b'A' c && leb c b'F'
    then some (c - b'A' + 10)
    else if leb b'a' c && leb c b'f'
    then some (c - b'a' + 10)
    else none

-- the text behind a prefix 0x or 0X
unfoldable pub skip_prefix : CString → CString
skip_prefix (c ∷ x ∷ rest) =
    if (c == b'0') && ((x == b'x') || (x == b'X')) then rest else c ∷ x ∷ rest
skip_prefix text = text

abbrev pub with_byte : Option ℕ → Option ℕ → Option (List ℕ) → Option (List ℕ)
with_byte (some high) (some low) (some bytes) = some ((high * 16 + low) ∷ bytes)
with_byte _ _ _ = none

-- the loop over the pairs of digits; `none` is an invalid character
unfoldable pub hex_pairs : CString → Option (List ℕ)
hex_pairs [] = some []
hex_pairs (c ∷ []) = some []
hex_pairs (high ∷ low ∷ rest) = with_byte (hex_digit high) (hex_digit low) (hex_pairs rest)

abbrev pub or_nothing : Option (List ℕ) → List ℕ
or_nothing none = []
or_nothing (some bytes) = bytes

-- `hex_to_bin`: the first `bin_len` bytes of `bin_data`; none where the answer is 0
unfoldable pub hex_to_bin : CString → ℕ → List ℕ
unfolding hex_pairs
hex_to_bin hex_str max_len =
    let digits = skip_prefix hex_str in
    if not (length digits % 2 == 0)
    then []
    else if ltb max_len (length digits / 2)
    then []
    else or_nothing (hex_pairs digits)

-- The two digits of a byte, in upper case.
abbrev pub upper : ℕ → ℕ
upper d = if ltb d 10 then b'0' + d else b'A' + (d - 10)

unfoldable pub hex_text : List ℕ → CString
hex_text [] = []
hex_text (b ∷ bytes) = upper (b / 16) ∷ upper (b % 16) ∷ hex_text bytes

pub hex_digit-upper : (d : ℕ) → d < 16 → hex_digit (upper d) ≡ some d
unfolding hex_digit
hex_digit-upper d h = ground arith

hex_pairs-text :
    (bytes : List ℕ) → All (λ b. b < 256) bytes → hex_pairs (hex_text bytes) ≡ some bytes
unfolding hex_pairs hex_text
hex_pairs-text [] a = refl
hex_pairs-text (b ∷ bytes) a =
    rw
      (
        hex_digit-upper (b / 16) (omega arith),
        hex_digit-upper (b % 16) (omega arith),
        hex_pairs-text bytes a.1,
      )
      (ap (λ n. some (n ∷ bytes)) (omega arith))

length-hex_text : (bytes : List ℕ) → length (hex_text bytes) ≡ 2 * length bytes
unfolding hex_text
length-hex_text [] = omega arith
length-hex_text (b ∷ bytes) = omega (arith, length-hex_text bytes)

skip_none : (bytes : List ℕ) → skip_prefix (hex_text bytes) ≡ hex_text bytes
unfolding skip_prefix hex_text
skip_none [] = refl
skip_none (b ∷ bytes) = ground arith

skip_prefix-0x : (text : CString) → skip_prefix (b'0' ∷ b'x' ∷ text) ≡ text
unfolding skip_prefix
skip_prefix-0x text = refl

converted :
    (bytes : List ℕ) (max_len : ℕ)
    → All (λ b. b < 256) bytes
    → length bytes ≤ max_len
    → (text : CString) → skip_prefix text ≡ hex_text bytes
    → hex_to_bin text max_len ≡ bytes
unfolding hex_to_bin
converted bytes max_len a h text e = rw e (
    chosen (length (hex_text bytes)) (hex_pairs (hex_text bytes)) (length-hex_text bytes)
      (hex_pairs-text bytes a))
  where
    chosen :
        (n : ℕ) (pairs : Option (List ℕ))
        → n ≡ 2 * length bytes
        → pairs ≡ some bytes
        → (if not (n % 2 == 0) then [] else if ltb max_len (n / 2) then [] else or_nothing pairs)
          ≡ bytes
    chosen n pairs l p = ground arith

-- The hexadecimal text of at most `max_len` bytes, with or without 0x before it, is converted to
-- those bytes.
pub hex_to_bin-text :
    (bytes : List ℕ) (max_len : ℕ)
    → All (λ b. b < 256) bytes
    → length bytes ≤ max_len
    → (hex_to_bin (hex_text bytes) max_len ≡ bytes)
      × (hex_to_bin (b'0' ∷ b'x' ∷ hex_text bytes) max_len ≡ bytes)
hex_to_bin-text bytes max_len a h = (
  converted bytes max_len a h (hex_text bytes) (skip_none bytes),
  converted bytes max_len a h (b'0' ∷ b'x' ∷ hex_text bytes) (skip_prefix-0x (hex_text bytes)),
)

length-hex_pairs : (text : CString) → length (or_nothing (hex_pairs text)) ≤ length text / 2
unfolding hex_pairs
length-hex_pairs [] = omega arith
length-hex_pairs (c ∷ []) = omega arith
length-hex_pairs (c ∷ d ∷ text) =
    longer (hex_digit c) (hex_digit d) (hex_pairs text) (length-hex_pairs text)
  where
    longer :
        (high low : Option ℕ) (bytes : Option (List ℕ))
        → length (or_nothing bytes) ≤ length text / 2
        → length (or_nothing (with_byte high low bytes)) ≤ suc (suc (length text)) / 2
    longer none low bytes h = omega arith
    longer (some x) none bytes h = omega arith
    longer (some x) (some y) none h = omega arith
    longer (some x) (some y) (some bytes) h = omega (arith, h)

-- Whatever the text, no more than `max_len` bytes are written.
pub hex_to_bin-bounded : (text : CString) (max_len : ℕ) → length (hex_to_bin text max_len) ≤ max_len
unfolding hex_to_bin
hex_to_bin-bounded text max_len =
    bounded (skip_prefix text) (or_nothing (hex_pairs (skip_prefix text)))
      (length-hex_pairs (skip_prefix text))
  where
    bounded :
        (digits : CString) (bytes : List ℕ)
        → length bytes ≤ length digits / 2
        → length (
            if not (length digits % 2 == 0)
            then []
            else if ltb max_len (length digits / 2)
            then []
            else bytes)
          ≤ max_len
    bounded digits bytes h = ground arith
