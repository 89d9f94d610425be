-- ===== src/UrlDecode/Ends.antt =====
-- main/system/sx_utils.c: the texts that the loop of `urlDecode` comes to the end of.
use opensx_serial_server.Prelude.{
  ℕ, zero, suc, ◌≡◌, ◌<◌, refl, Bool, true, false, not, ap, Option, none, some, [], ◌∷◌, ◌==◌,
  if◌then◌else◌, length, Bool-cases, inl, inr, arith,
}
use opensx_serial_server.Prelude.Text.{CString}
use opensx_serial_server.UrlDecode.{with_char, plain_char, escaped, url_decode}

-- A % with less than two characters behind it, where the loop looks for one.
unfoldable pub has_stray : CString → Bool
has_stray [] = false
has_stray (c ∷ []) = c == b'%'
has_stray (c ∷ a ∷ []) = let rest = has_stray (a ∷ []) in if c == b'%' then true else rest
has_stray (c ∷ a ∷ b ∷ src) =
    let behind = has_stray src in
    let rest = has_stray (a ∷ b ∷ src) in if c == b'%' then behind else rest

abbrev pub is_some : Option CString → Bool
is_some none = false
is_some (some cs) = true

some-with : (c : ℕ) (o : Option CString) → is_some o ≡ true → is_some (with_char c o) ≡ true
some-with c none h = h
some-with c (some cs) h = refl

none-with : (c : ℕ) (o : Option CString) → o ≡ none → with_char c o ≡ none
none-with c none h = refl
none-with c (some cs) h = cc

then_is : (t a b v : Bool) → (if t then a else b) ≡ v → t ≡ true → a ≡ v
then_is true a b v h e = h
then_is false a b v h e = cc

else_is : (t a b v : Bool) → (if t then a else b) ≡ v → t ≡ false → b ≡ v
else_is false a b v h e = h
else_is true a b v h e = cc

ends :
    (n : ℕ) (src : CString)
    → length src < n
    → has_stray src ≡ false
    → is_some (url_decode n src) ≡ true
unfolding url_decode has_stray
ends zero src h s = absurd (omega arith)
ends (suc n) [] h s = refl
ends (suc n) (c ∷ []) h s =
    rw s (some-with (plain_char c) (url_decode n []) (ends n [] (omega arith) refl))
ends (suc n) (c ∷ a ∷ []) h s = elim (Bool-cases (c == b'%')) [
  | inl e ↦ absurd (ground (arith, then_is (c == b'%') true (has_stray (a ∷ [])) false s e))
  | inr e ↦ rw e (
      some-with (plain_char c) (url_decode n (a ∷ []))
        (ends n (a ∷ []) (omega arith) (else_is (c == b'%') true (has_stray (a ∷ [])) false s e)))
]
ends (suc n) (c ∷ a ∷ b ∷ src) h s = elim (Bool-cases (c == b'%')) [
  | inl e ↦ rw e (
      some-with (escaped a b) (url_decode n src) (
        ends n src (omega arith)
          (then_is (c == b'%') (has_stray src) (has_stray (a ∷ b ∷ src)) false s e)))
  | inr e ↦ rw e (
      some-with (plain_char c) (url_decode n (a ∷ b ∷ src)) (
        ends n (a ∷ b ∷ src) (omega arith)
          (else_is (c == b'%') (has_stray src) (has_stray (a ∷ b ∷ src)) false s e)))
]

loops : (n : ℕ) (src : CString) → has_stray src ≡ true → url_decode n src ≡ none
unfolding url_decode has_stray
loops zero src s = refl
loops (suc n) [] s = cc
loops (suc n) (c ∷ []) s = rw s (loops n (c ∷ []) s)
loops (suc n) (c ∷ a ∷ []) s = elim (Bool-cases (c == b'%')) [
  | inl e ↦ rw e (loops n (c ∷ a ∷ []) s)
  | inr e ↦ rw e (
      none-with (plain_char c) (url_decode n (a ∷ []))
        (loops n (a ∷ []) (else_is (c == b'%') true (has_stray (a ∷ [])) true s e)))
]
loops (suc n) (c ∷ a ∷ b ∷ src) s = elim (Bool-cases (c == b'%')) [
  | inl e ↦ rw e (
      none-with (escaped a b) (url_decode n src)
        (loops n src (then_is (c == b'%') (has_stray src) (has_stray (a ∷ b ∷ src)) true s e)))
  | inr e ↦ rw e (
      none-with (plain_char c) (url_decode n (a ∷ b ∷ src)) (
        loops n (a ∷ b ∷ src)
          (else_is (c == b'%') (has_stray src) (has_stray (a ∷ b ∷ src)) true s e)))
]

-- With more rounds than the text has characters, its decoding ends exactly if no % that its loop meets
-- stands in front of less than two characters: no number of rounds helps the others.
pub url_decode-ends :
    (n : ℕ) (src : CString) → length src < n → is_some (url_decode n src) ≡ not (has_stray src)
url_decode-ends n src h = elim (Bool-cases (has_stray src)) [
  | inl e ↦ rw e (ap is_some (loops n src e))
  | inr e ↦ rw e (ends n src h e)
]
