-- ===== src/TcpClient/Hex.antt =====
-- main/protocols/sx_tcp_client.c: `hex_to_bin`, which leaves out what is no digit; with memory for a copy.
use opensx_serial_server.Prelude.{
  ℕ, ◌+◌, ◌-◌, ◌*◌, ◌/◌, ◌%◌, ◌≡◌, Bool, true, not, ◌&&◌, ◌||◌, Option, none, some, List, [], ◌∷◌,
  ltb, leb, ◌==◌, if◌then◌else◌, length, All,
}
use opensx_serial_server.Prelude.Text.{CString}
use opensx_serial_server.TcpServer.Hex

-- the test of a character that is kept
unfoldable pub is_hex : ℕ → Bool
is_hex c = (leb b'0' c && leb c b'9') || (leb b'A' c && leb c b'F') || (leb b'a' c && leb c b'f')

-- `clean_hex`
unfoldable pub clean : CString → CString
clean [] = []
clean (c ∷ cs) = let rest = clean cs in if is_hex c then c ∷ rest else rest

-- the text behind a prefix 0x or 0X
unfoldable pub parse_str : CString → CString
parse_str (c ∷ x ∷ rest) =
    if (c == b'0') && ((x == b'x') || (x == b'X')) then rest else c ∷ x ∷ rest
parse_str text = text

-- the value of a digit
unfoldable pub nibble : ℕ → Option ℕ
nibble c =
    if leb b'0' c && leb c b'9'
    then some (c - b'0')
    else if leb b'A' c && leb c b'F'
    then some (c - b'A' + 10)
    else if leb b'a' c && leb c b'f'
    then some (c - b'a' + 10)
    else none

abbrev with_nibbles : Option ℕ → Option ℕ → Option (List ℕ) → Option (List ℕ)
with_nibbles (some high) (some low) (some bytes) = some ((high * 16 + low) ∷ bytes)
with_nibbles _ _ _ = none

-- the loop over the pairs
unfoldable pub bin_data : CString → Option (List ℕ)
bin_data [] = some []
bin_data (c ∷ []) = some []
bin_data (high ∷ low ∷ rest) = with_nibbles (nibble high) (nibble low) (bin_data rest)

abbrev pub bytes_or_none : Option (List ℕ) → List ℕ
bytes_or_none none = []
bytes_or_none (some bytes) = bytes

-- `hex_to_bin`: the bytes of `bin_data`; none where the answer is 0
unfoldable pub hex_to_bin : CString → ℕ → List ℕ
hex_to_bin hex_str max_len =
    let digits = clean (parse_str hex_str) in
    if not (length digits % 2 == 0)
    then []
    else if ltb max_len (length digits / 2)
    then []
    else bytes_or_none (bin_data digits)

-- The digits of a text, by what the server's conversion takes for one.
unfoldable pub digits_of : CString → CString
digits_of [] = []
digits_of (c ∷ cs) = elim (Hex.hex_digit c) [ none ↦ digits_of cs | some d ↦ c ∷ digits_of cs ]

-- Only digits are left, so there is no prefix any more.
abbrev pub IsClean : CString → Type 0
IsClean cs = All (λ c. is_hex c ≡ true) cs
