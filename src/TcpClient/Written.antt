-- ===== src/TcpClient/Written.antt =====
-- main/protocols/sx_tcp_client.c: `hex_to_bin` reads a hexadecimal text in either case, with separators.
use opensx_serial_server.Prelude.{
  ℕ, ◌+◌, ◌*◌, ◌/◌, ◌%◌, ◌≤◌, ◌<◌, ◌≡◌, ◌≢◌, refl, ap, not, ◌||◌, true, false, Option, some, List,
  [], ◌∷◌, length, All, arith, ltb, ◌==◌, if◌then◌else◌,
}
use opensx_serial_server.Prelude.Text.{CString}
use opensx_serial_server.TcpClient.Hex.{
  is_hex, clean, parse_str, nibble, bin_data, bytes_or_none, hex_to_bin,
}

-- A character is the hexadecimal digit of that value.
pub data IsDigit (c d : ℕ) : Type 0 where
  decimal : d < 10 → c ≡ b'0' + d → IsDigit c d
  upper_case : 10 ≤ d → d < 16 → c + 10 ≡ b'A' + d → IsDigit c d
  lower_case : 10 ≤ d → d < 16 → c + 10 ≡ b'a' + d → IsDigit c d

-- A character is none of 0 to 9, A to F and a to f, and no x.
pub record IsSeparator (c : ℕ) : Type 0 where
  pub no_decimal : ¬ ((48 ≤ c) × (c ≤ 57))
  pub no_upper : ¬ ((65 ≤ c) × (c ≤ 70))
  pub no_lower : ¬ ((97 ≤ c) × (c ≤ 102))
  pub no_x : c ≢ b'x'
  pub no_big_x : c ≢ b'X'

-- A text with digits of those values, and separators anywhere: before, between and behind them.
pub data HasDigits : CString → List ℕ → Type 0 where
  over : HasDigits [] []
  separator :
      {text : CString} {ds : List ℕ} (c : ℕ)
      → IsSeparator c
      → HasDigits text ds
      → HasDigits (c ∷ text) ds
  digit :
      {text : CString} {ds : List ℕ} (c d : ℕ)
      → IsDigit c d
      → HasDigits text ds
      → HasDigits (c ∷ text) (d ∷ ds)

-- The same, or with 0x or 0X before it.
pub data IsHexText : CString → List ℕ → Type 0 where
  plain : {text : CString} {ds : List ℕ} → HasDigits text ds → IsHexText text ds
  with_0x : {text : CString} {ds : List ℕ} → HasDigits text ds → IsHexText (b'0' ∷ b'x' ∷ text) ds
  with_0X : {text : CString} {ds : List ℕ} → HasDigits text ds → IsHexText (b'0' ∷ b'X' ∷ text) ds

-- The two digits of each byte.
abbrev pub nibbles_of : List ℕ → List ℕ
nibbles_of [] = []
nibbles_of (b ∷ bytes) = b / 16 ∷ b % 16 ∷ nibbles_of bytes

-- Digits of those values and nothing else.
abbrev AreDigits : CString → List ℕ → Type 0
AreDigits [] [] = Unit
AreDigits (c ∷ cs) (d ∷ ds) = IsDigit c d × AreDigits cs ds
AreDigits _ _ = ⊥

digit_kept : (c d : ℕ) → IsDigit c d → is_hex c ≡ true
unfolding is_hex
digit_kept c d (decimal h e) = ground arith
digit_kept c d (upper_case l h e) = ground arith
digit_kept c d (lower_case l h e) = ground arith

separator_dropped : (c : ℕ) → IsSeparator c → is_hex c ≡ false
unfolding is_hex
separator_dropped c s = ground (arith, s.no_decimal, s.no_upper, s.no_lower)

digit-nibble : (c d : ℕ) → IsDigit c d → nibble c ≡ some d
unfolding nibble
digit-nibble c d (decimal h e) = ground arith
digit-nibble c d (upper_case l h e) = ground arith
digit-nibble c d (lower_case l h e) = ground arith

clean-AreDigits : (text : CString) (ds : List ℕ) → HasDigits text ds → AreDigits (clean text) ds
unfolding clean
clean-AreDigits [] [] over = tt
clean-AreDigits [] (d ∷ ds) t = elim t [ ]
clean-AreDigits (_ ∷ text) ds (separator c s t) =
    rw (separator_dropped c s) (clean-AreDigits text ds t)
clean-AreDigits (_ ∷ text) (_ ∷ ds) (digit c d e t) =
    rw (digit_kept c d e) (e, clean-AreDigits text ds t)

skipped :
    (text : CString)
    → (parse_str (b'0' ∷ b'x' ∷ text) ≡ text) × (parse_str (b'0' ∷ b'X' ∷ text) ≡ text)
unfolding parse_str
skipped text = (refl, refl)

-- No text of digits and separators begins with 0x.
is_no_x :
    (c : ℕ) (text : CString) (ds : List ℕ)
    → HasDigits (c ∷ text) ds
    → ((c == b'x') || (c == b'X')) ≡ false
is_no_x _ text ds (separator c s t) = ground (arith, s.no_x, s.no_big_x)
is_no_x _ text (_ ∷ ds) (digit c d (decimal h e) t) = ground arith
is_no_x _ text (_ ∷ ds) (digit c d (upper_case l h e) t) = ground arith
is_no_x _ text (_ ∷ ds) (digit c d (lower_case l h e) t) = ground arith

behind-HasDigits :
    (c : ℕ) (text : CString) (ds : List ℕ)
    → HasDigits (c ∷ text) ds
    → (ds' : List ℕ) × HasDigits text ds'
behind-HasDigits _ text ds (separator c s t) = (ds, t)
behind-HasDigits _ text (_ ∷ ds) (digit c d e t) = (ds, t)

parse_str-none : (text : CString) (ds : List ℕ) → HasDigits text ds → parse_str text ≡ text
unfolding parse_str
parse_str-none [] ds t = refl
parse_str-none (c ∷ []) ds t = refl
parse_str-none (c ∷ x ∷ text) ds t =
    let (ds', t') = behind-HasDigits c (x ∷ text) ds t in ground (arith, is_no_x x text ds' t')

bin_data-bytes :
    (text : CString) (bytes : List ℕ)
    → All (λ b. b < 256) bytes
    → AreDigits text (nibbles_of bytes)
    → (bin_data text ≡ some bytes) × (length text ≡ 2 * length bytes)
unfolding bin_data
bin_data-bytes [] [] h t = (refl, omega arith)
bin_data-bytes [] (b ∷ bytes) h t = absurd t
bin_data-bytes (c ∷ text) [] h t = absurd t
bin_data-bytes (c ∷ []) (b ∷ bytes) h t = absurd t.1
bin_data-bytes (high ∷ low ∷ text) (b ∷ bytes) h t =
    let (p, l) = bin_data-bytes text bytes h.1 t.1.1 in
    (
      rw (digit-nibble high (b / 16) t.0, digit-nibble low (b % 16) t.1.0, p)
          (ap (λ n. some (n ∷ bytes)) (omega arith)),
      omega (arith, l),
    )

parsed_bytes :
    (text parsed : CString) (bytes : List ℕ) (max_len : ℕ)
    → parse_str text ≡ parsed
    → HasDigits parsed (nibbles_of bytes)
    → All (λ b. b < 256) bytes
    → length bytes ≤ max_len
    → hex_to_bin text max_len ≡ bytes
unfolding hex_to_bin
parsed_bytes text parsed bytes max_len e t a h =
    let (p, l) =
      bin_data-bytes (clean parsed) bytes a (clean-AreDigits parsed (nibbles_of bytes) t) in
    rw e (chosen (length (clean parsed)) (bin_data (clean parsed)) l p)
  where
    chosen :
        (n : ℕ) (pairs : Option (List ℕ))
        → n ≡ 2 * length bytes
        → pairs ≡ some bytes
        → (if not (n % 2 == 0) then [] else if ltb max_len (n / 2) then [] else bytes_or_none pairs)
          ≡ bytes
    chosen n pairs l p = ground arith

-- At most `max_len` bytes, written with the two digits of each in either case, with separators anywhere,
-- and with or without 0x or 0X before it all, are converted to those bytes.
pub hex_to_bin-written :
    (text : CString) (bytes : List ℕ) (max_len : ℕ)
    → IsHexText text (nibbles_of bytes)
    → All (λ b. b < 256) bytes
    → length bytes ≤ max_len
    → hex_to_bin text max_len ≡ bytes
hex_to_bin-written text bytes max_len (plain t) a h =
    parsed_bytes text text bytes max_len (parse_str-none text (nibbles_of bytes) t) t a h
hex_to_bin-written (_ ∷ _ ∷ text) bytes max_len (with_0x t) a h =
    parsed_bytes (b'0' ∷ b'x' ∷ text) text bytes max_len (skipped text).0 t a h
hex_to_bin-written (_ ∷ _ ∷ text) bytes max_len (with_0X t) a h =
    parsed_bytes (b'0' ∷ b'X' ∷ text) text bytes max_len (skipped text).1 t a h
