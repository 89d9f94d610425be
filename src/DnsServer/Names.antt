-- ===== src/DnsServer/Names.antt =====
-- main/network/sx_dns_server.c: `parse_dns_name` reads back what a name is written as.
use opensx_serial_server.Prelude.{
  ℕ, zero, suc, ◌+◌, ◌-◌, ◌≤◌, ◌<◌, ◌≡◌, refl, sym, ap, ap₂, ◌∙◌, false, Option, some, List, [],
  ◌∷◌, ◌++◌, append_assoc, append-nil, length, take, drop, get_elem?, length-append, drop-append,
  ltb, All, arith,
}
use opensx_serial_server.Prelude.Buffer.Laws.{take-append_left, drop-drop}
use opensx_serial_server.DnsServer.{Parsed, name, after_label, parse_from, parse_dns_name}

-- The labels in the format of a packet, without the byte that ends them.
abbrev pub encode : List (List ℕ) → List ℕ
encode [] = []
encode (l ∷ ls) = length l ∷ (l ++ encode ls)

-- Each label with a dot behind it.
spelled : List (List ℕ) → List ℕ
spelled [] = []
spelled (l ∷ ls) = (l ++ b'.' ∷ []) ++ spelled ls

-- The labels with dots between them.
abbrev pub dotted : List (List ℕ) → List ℕ
dotted [] = []
dotted (l ∷ []) = l
dotted (l ∷ l' ∷ ls) = l ++ (b'.' ∷ dotted (l' ∷ ls))

spelled-dotted : (l : List ℕ) (ls : List (List ℕ)) → spelled (l ∷ ls) ≡ dotted (l ∷ ls) ++ b'.' ∷ []
unfolding spelled
spelled-dotted l [] = append-nil (l ++ b'.' ∷ [])
spelled-dotted l (l' ∷ ls) =
    append_assoc l (b'.' ∷ []) (spelled (l' ∷ ls))
    ∙ ap (λ r. l ++ (b'.' ∷ r)) (spelled-dotted l' ls)
    ∙ sym (append_assoc l (b'.' ∷ dotted (l' ∷ ls)) (b'.' ∷ []))

length-spelled : (ls : List (List ℕ)) → length (spelled ls) ≡ length (encode ls)
unfolding spelled
length-spelled [] = refl
length-spelled (l ∷ ls) = omega (
  arith,
  length-spelled ls,
  length-append (l ++ b'.' ∷ []) (spelled ls),
  length-append l (b'.' ∷ []),
  length-append l (encode ls),
)

-- What an index holds, by what is left from it on.
at_drop : (bs : List ℕ) (i x : ℕ) (ys : List ℕ) → drop i bs ≡ x ∷ ys → get_elem? bs i ≡ some x
at_drop [] zero x ys e = cc
at_drop [] (suc i) x ys e = cc
at_drop (b ∷ bs) zero x ys e = cc e
at_drop (b ∷ bs) (suc i) x ys e = at_drop bs i x ys e

next_drop : (bs : List ℕ) (i x : ℕ) (ys : List ℕ) → drop i bs ≡ x ∷ ys → drop (i + 1) bs ≡ ys
next_drop bs i x ys e = sym (drop-drop 1 i (i + 1) bs refl) ∙ ap (λ zs. drop 1 zs) e

drop_size :
    (bs : List ℕ) (i x : ℕ) (ys : List ℕ) → drop i bs ≡ x ∷ ys → length bs ≡ i + 1 + length ys
drop_size [] zero x ys e = cc
drop_size [] (suc i) x ys e = cc
drop_size (b ∷ bs) zero x ys e = omega (arith, ap length e)
drop_size (b ∷ bs) (suc i) x ys e = omega (arith, drop_size bs i x ys e)

name-eq :
    {xs ys : List ℕ} {i j : ℕ}
    → xs ≡ ys
    → i ≡ j
    → name (take (length xs - 1) xs) i ≡ name (take (length ys - 1) ys) j
name-eq e e' = ap₂ (λ zs k. name (take (length zs - 1) zs) k) e e'

ends :
    (o : Option ℕ) (rest : Parsed) (out : List ℕ) (next_label : ℕ)
    → o ≡ some 0
    → after_label o rest out next_label ≡ name (take (length out - 1) out) (next_label + 1)
ends o rest out next_label e = rw e refl

goes_on :
    (o : Option ℕ) (rest : Parsed) (out : List ℕ) (next_label n : ℕ)
    → o ≡ some n
    → 0 < n
    → after_label o rest out next_label ≡ rest
goes_on o rest out next_label zero e h = absurd (omega arith)
goes_on o rest out next_label (suc n) e h = rw e refl

abbrev pub IsFull : List ℕ → Type 0
IsFull l = 0 < length l

-- The array holds the rest of a name at the label `l`.
module _ (max_len : ℕ) (bs rest : List ℕ) where
  one_round :
      (fuel label : ℕ) (out l tail : List ℕ)
      → drop label bs ≡ length l ∷ (l ++ tail)
      → length out + length l + 1 ≤ max_len
      → parse_from (suc fuel) max_len bs label out
        ≡ after_label
            (get_elem? bs (label + length l + 1))
            (parse_from fuel max_len bs (label + length l + 1) (out ++ (l ++ b'.' ∷ [])))
            (out ++ (l ++ b'.' ∷ []))
            (label + length l + 1)
  unfolding parse_from
  one_round fuel label out l tail e h =
      let behind = next_drop bs label (length l) (l ++ tail) e in
      let size = drop_size bs label (length l) (l ++ tail) e in
      let total = length-append l tail in
      let copied : take (length l) (drop (label + 1) bs) ≡ l =
        ap (λ zs. take (length l) zs) behind ∙ take-append_left (length l) l tail refl in
      let fits : ltb max_len (length out + length l + 1) ≡ false = ground arith in
      let inside : ltb (length bs) (label + 1 + length l) ≡ false = ground (arith, size, total) in
      rw (at_drop bs label (length l) (l ++ tail) e) (rw (fits, inside, copied) refl)

  behind_label :
      (label : ℕ) (l tail : List ℕ)
      → drop label bs ≡ length l ∷ (l ++ tail)
      → drop (label + length l + 1) bs ≡ tail
  behind_label label l tail e =
      sym (drop-drop (length l) (label + 1) (label + length l + 1) bs (omega arith))
      ∙ ap (λ zs. drop (length l) zs) (next_drop bs label (length l) (l ++ tail) e)
      ∙ drop-append l tail

  parse_from-name :
      (ls : List (List ℕ)) (l : List ℕ) (fuel label : ℕ) (out : List ℕ)
      → drop label bs ≡ encode (l ∷ ls) ++ (0 ∷ rest)
      → All IsFull ls
      → length out + length (encode (l ∷ ls)) ≤ max_len
      → max_len < length out + fuel
      → parse_from fuel max_len bs label out
        ≡ name
            (take (length (out ++ spelled (l ∷ ls)) - 1) (out ++ spelled (l ∷ ls)))
            (label + length (encode (l ∷ ls)) + 1)
  unfolding spelled
  parse_from-name ls l zero label out e f h k = absurd (omega (arith, length-append l (encode ls)))
  parse_from-name [] l (suc fuel) label out e f h k =
      let e' = e ∙ ap (λ zs. length l ∷ zs) (append_assoc l [] (0 ∷ rest)) in
      let size = length-append {A = ℕ} l [] in
      one_round fuel label out l (0 ∷ rest) e' (omega (arith, size))
      ∙ ends (get_elem? bs (label + length l + 1))
          (parse_from fuel max_len bs (label + length l + 1) (out ++ (l ++ b'.' ∷ [])))
          (out ++ (l ++ b'.' ∷ [])) (label + length l + 1)
          (at_drop bs (label + length l + 1) 0 rest (behind_label label l (0 ∷ rest) e'))
      ∙ name-eq (ap (λ zs. out ++ zs) (sym (append-nil (l ++ b'.' ∷ [])))) (omega (arith, size))
  parse_from-name (l' ∷ ls) l (suc fuel) label out e f h k =
      let tail = encode (l' ∷ ls) ++ (0 ∷ rest) in
      let e' = e ∙ ap (λ zs. length l ∷ zs) (append_assoc l (encode (l' ∷ ls)) (0 ∷ rest)) in
      let behind = behind_label label l tail e' in
      let size = length-append l (encode (l' ∷ ls)) in
      let out' = out ++ (l ++ b'.' ∷ []) in
      let size' = length-append out (l ++ b'.' ∷ []) in
      let size'' = length-append l (b'.' ∷ []) in
      one_round fuel label out l tail e' (omega (arith, size))
      ∙ goes_on (get_elem? bs (label + length l + 1))
          (parse_from fuel max_len bs (label + length l + 1) out') out' (label + length l + 1)
          (length l')
          (at_drop bs (label + length l + 1) (length l') ((l' ++ encode ls) ++ (0 ∷ rest)) behind)
          f.0
      ∙ parse_from-name ls l' fuel (label + length l + 1) out' behind f.1
          (omega (arith, size, size', size'')) (omega (arith, size', size''))
      ∙ name-eq (append_assoc out (l ++ b'.' ∷ []) (spelled (l' ∷ ls))) (omega (arith, size))

-- A name of labels that are not empty, in the format of a packet, is read back with dots between its
-- labels, and the index behind it is found, wherever it stands and whatever follows, as long as it has no
-- more bytes than the buffer of the name.
pub parse_dns_name-encode :
    (before : List ℕ) (l : List ℕ) (ls : List (List ℕ)) (rest : List ℕ) (max_len : ℕ)
    → All IsFull ls
    → length (encode (l ∷ ls)) ≤ max_len
    → parse_dns_name max_len (before ++ (encode (l ∷ ls) ++ (0 ∷ rest))) (length before)
      ≡ name (dotted (l ∷ ls)) (length before + length (encode (l ∷ ls)) + 1)
unfolding parse_dns_name
parse_dns_name-encode before l ls rest max_len f h =
    parse_from-name max_len (before ++ (encode (l ∷ ls) ++ (0 ∷ rest))) rest ls l (max_len + 1)
      (length before) [] (drop-append before (encode (l ∷ ls) ++ (0 ∷ rest))) f (omega (arith, h))
      (omega arith)
    ∙ ap (λ zs. name zs (length before + length (encode (l ∷ ls)) + 1))
        (ap (λ zs. take (length zs - 1) zs) (spelled-dotted l ls)
          ∙ take-append_left (length (dotted (l ∷ ls) ++ b'.' ∷ []) - 1) (dotted (l ∷ ls))
              (b'.' ∷ []) (omega (arith, length-append (dotted (l ∷ ls)) (b'.' ∷ []))))
