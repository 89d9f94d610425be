-- ===== src/UrlDecode.antt =====
-- main/system/sx_utils.c: `urlDecode`, for the fields of a form. The loop runs on fuel; a text that it
-- does not come to the end of has no result.
pub mod Ends
pub mod Encoded
mod Tests
use opensx_serial_server.Prelude.{
  ℕ, zero, suc, ◌+◌, ◌-◌, ◌*◌, ◌%◌, Bool, true, false, ◌&&◌, Option, none, some, List, [], ◌∷◌, leb,
  ◌==◌, if◌then◌else◌,
}
use opensx_serial_server.Prelude.Text.{CString}

-- `hexCharToInt`
unfoldable pub hex_char_to_int : ℕ → ℕ
hex_char_to_int c =
    if leb b'0' c && leb c b'9'
    then c - b'0'
    else if leb b'A' c && leb c b'F'
    then c - b'A' + 10
    else if leb b'a' c && leb c b'f'
    then c - b'a' + 10
    else 0

abbrev pub with_char : ℕ → Option CString → Option CString
with_char c none = none
with_char c (some cs) = some (c ∷ cs)

-- a round at a character other than a %
abbrev pub plain_char : ℕ → ℕ
plain_char c = if c == b'+' then b' ' else c

-- the character of two digits, cut to a byte
abbrev pub escaped : ℕ → ℕ → ℕ
escaped a b = (hex_char_to_int a * 16 + hex_char_to_int b) % 256

-- `urlDecode`; at a % with less than two characters behind it, a round changes nothing
unfoldable pub url_decode : ℕ → CString → Option CString
unfolding hex_char_to_int
url_decode zero src = none
url_decode (suc n) [] = some []
url_decode (suc n) (c ∷ []) =
    let again = url_decode n (c ∷ []) in
    let rest = with_char (plain_char c) (url_decode n []) in if c == b'%' then again else rest
url_decode (suc n) (c ∷ a ∷ []) =
    let again = url_decode n (c ∷ a ∷ []) in
    let rest = with_char (plain_char c) (url_decode n (a ∷ [])) in if c == b'%' then again else rest
url_decode (suc n) (c ∷ a ∷ b ∷ src) =
    let behind = with_char (escaped a b) (url_decode n src) in
    let rest = with_char (plain_char c) (url_decode n (a ∷ b ∷ src)) in
    if c == b'%' then behind else rest
