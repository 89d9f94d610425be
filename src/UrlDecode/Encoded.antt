-- ===== src/UrlDecode/Encoded.antt =====
-- main/system/sx_utils.c: `urlDecode` reads what a browser encodes.
use opensx_serial_server.Prelude.{
  ℕ, zero, suc, ◌/◌, ◌%◌, ◌≡◌, ◌<◌, refl, ap, ◌∙◌, Bool, true, false, some, [], ◌∷◌, ◌==◌,
  if◌then◌else◌, length, All, Bool-cases, inl, inr, arith,
}
use opensx_serial_server.Prelude.Text.{CString}
use opensx_serial_server.TcpServer.Hex.{upper}
use opensx_serial_server.UrlDecode.{hex_char_to_int, with_char, plain_char, escaped, url_decode}

-- The encoding of a form: bytes that `safe` lets stand, a plus for a space, and the digits of the others.
unfoldable pub encode : (ℕ → Bool) → CString → CString
encode safe [] = []
encode safe (c ∷ cs) =
    let rest = encode safe cs in
    if safe c
    then c ∷ rest
    else if c == b' '
    then b'+' ∷ rest
    else b'%' ∷ upper (c / 16) ∷ upper (c % 16) ∷ rest

-- Neither a % nor a plus may stand.
abbrev pub IsSafe : (ℕ → Bool) → Type 0
IsSafe safe = (safe b'%' ≡ false) × (safe b'+' ≡ false)

at_end : (n : ℕ) → url_decode (suc n) [] ≡ some []
unfolding url_decode
at_end n = refl

plain :
    (n c : ℕ) (src : CString)
    → (c == b'%') ≡ false
    → url_decode (suc n) (c ∷ src) ≡ with_char (plain_char c) (url_decode n src)
unfolding url_decode
plain n c [] e = rw e refl
plain n c (a ∷ []) e = rw e refl
plain n c (a ∷ b ∷ src) e = rw e refl

digit : (d : ℕ) → d < 16 → hex_char_to_int (upper d) ≡ d
unfolding hex_char_to_int
digit d h = ground arith

escape :
    (n c : ℕ) (src : CString)
    → c < 256
    → url_decode (suc n) (b'%' ∷ upper (c / 16) ∷ upper (c % 16) ∷ src)
      ≡ with_char c (url_decode n src)
unfolding url_decode
escape n c src h =
    let e : escaped (upper (c / 16)) (upper (c % 16)) ≡ c =
      rw (digit (c / 16) (omega arith), digit (c % 16) (omega arith)) (omega arith) in
    ap (λ x. with_char x (url_decode n src)) e

not_special :
    (safe : ℕ → Bool) (c : ℕ)
    → IsSafe safe
    → safe c ≡ true
    → ((c == b'%') ≡ false) × ((c == b'+') ≡ false)
not_special safe c s h = (grind (arith, s.0), grind (arith, s.1))

stands : (c : ℕ) → (c == b'+') ≡ false → plain_char c ≡ c
stands c h = rw h refl

-- What a form encodes, with any choice of the characters that stand for themselves, a % and a plus not
-- among them, is decoded to the bytes that were encoded.
pub url_decode-encode :
    (safe : ℕ → Bool) (cs : CString) (n : ℕ)
    → IsSafe safe
    → All (λ c. c < 256) cs
    → length cs < n
    → url_decode n (encode safe cs) ≡ some cs
unfolding encode
url_decode-encode safe cs zero s a h = absurd (omega arith)
url_decode-encode safe [] (suc n) s a h = at_end n
url_decode-encode safe (c ∷ cs) (suc n) s a h =
    let ih = ap (with_char c) (url_decode-encode safe cs n s a.1 (omega arith)) in
    elim (Bool-cases (safe c)) [
      | inl e ↦
          (let (p, q) = not_special safe c s e in
            rw e (
              plain n c (encode safe cs) p
              ∙ ap (λ x. with_char x (url_decode n (encode safe cs))) (stands c q)
              ∙ ih))
      | inr e ↦ elim (Bool-cases (c == b' ')) [
        | inl f ↦
            (let g : b' ' ≡ c = ground (arith, f) in
              rw (e, f)
                (plain n b'+' (encode safe cs) refl
                  ∙ ap (λ x. with_char x (url_decode n (encode safe cs))) g
                  ∙ ih))
        | inr f ↦ rw (e, f) (escape n c (encode safe cs) a.0 ∙ ih)
      ]
    ]
