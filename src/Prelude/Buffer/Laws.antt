-- ===== src/Prelude/Buffer/Laws.antt =====
-- What a write and a move inside the array do.
use Prim.Native.Nat.{ℕ, zero, suc, ◌+◌, ◌≤◌}
use mathlib.Core.Path.{◌≡◌, refl, sym, ap, ◌∙◌}
use mathlib.Core.Bool.{◌||◌}
use mathlib.Core.List.{List, [], ◌∷◌, ◌++◌, append_assoc}
use mathlib.Core.Option.{some}
use native.Mathlib.Omega.{arith}
use opensx_serial_server.Prelude.Tests.{ltb}
use opensx_serial_server.Prelude.Lists.{
  length, take, drop, get_elem?, length-append, length-take, length-drop, take_all,
}
use opensx_serial_server.Prelude.Buffer.{Buffer, write_at, move_down}

module _ {ℓ} {A : Type ℓ} where
  pub take-append_left : (n : ℕ) (xs ys : List A) → n ≡ length xs → take n (xs ++ ys) ≡ xs
  take-append_left zero [] ys h = refl
  take-append_left zero (x ∷ xs) ys h = absurd (omega arith)
  take-append_left (suc n) [] ys h = absurd (omega arith)
  take-append_left (suc n) (x ∷ xs) ys h = ap (◌∷◌ x) (take-append_left n xs ys (omega arith))

  pub drop-append_left :
      (n : ℕ) (xs ys : List A) → n ≤ length xs → drop n (xs ++ ys) ≡ drop n xs ++ ys
  drop-append_left zero xs ys h = refl
  drop-append_left (suc n) [] ys h = absurd (omega arith)
  drop-append_left (suc n) (x ∷ xs) ys h = drop-append_left n xs ys (omega arith)

  drop-nil : (n : ℕ) → drop {A = A} n [] ≡ []
  drop-nil zero = refl
  drop-nil (suc n) = refl

  take-nil : (n : ℕ) → take {A = A} n [] ≡ []
  take-nil zero = refl
  take-nil (suc n) = refl

  pub drop-drop : (m n k : ℕ) (xs : List A) → n + m ≡ k → drop m (drop n xs) ≡ drop k xs
  drop-drop m zero k xs e = ap (λ j. drop j xs) (omega arith)
  drop-drop m (suc n) zero xs e = absurd (omega arith)
  drop-drop m (suc n) (suc k) [] e = drop-nil m
  drop-drop m (suc n) (suc k) (x ∷ xs) e = drop-drop m n k xs (omega arith)

  pub take-drop : (m n k : ℕ) (xs : List A) → n + m ≡ k → take m (drop n xs) ≡ drop n (take k xs)
  take-drop m zero k xs e = ap (λ j. take j xs) (omega arith)
  take-drop m (suc n) zero xs e = absurd (omega arith)
  take-drop m (suc n) (suc k) [] e = take-nil m
  take-drop m (suc n) (suc k) (x ∷ xs) e = take-drop m n k xs (omega arith)

  pub take-take : (m n : ℕ) (xs : List A) → m ≤ n → take m (take n xs) ≡ take m xs
  take-take zero n xs h = refl
  take-take (suc m) zero xs h = absurd (omega arith)
  take-take (suc m) (suc n) [] h = refl
  take-take (suc m) (suc n) (x ∷ xs) h = ap (◌∷◌ x) (take-take m n xs (omega arith))

  pub get_elem?-append_at :
      (n : ℕ) (xs : List A) (y : A) (ys : List A)
      → n ≡ length xs
      → get_elem? (xs ++ (y ∷ ys)) n ≡ some y
  get_elem?-append_at zero [] y ys h = refl
  get_elem?-append_at zero (x ∷ xs) y ys h = absurd (omega arith)
  get_elem?-append_at (suc n) [] y ys h = absurd (omega arith)
  get_elem?-append_at (suc n) (x ∷ xs) y ys h = get_elem?-append_at n xs y ys (omega arith)

-- A write that fits leaves the bytes before it, and the array's length.
module _ (b : Buffer) (at : ℕ) (src : List ℕ) (fits : at + length src ≤ length b.bytes) where
  written : List ℕ
  written = take at b.bytes ++ (src ++ drop (at + length src) b.bytes)

  length-written : length written ≡ length b.bytes
  unfolding written
  length-written = omega (
    arith,
    length-append (take at b.bytes) (src ++ drop (at + length src) b.bytes),
    length-append src (drop (at + length src) b.bytes),
    length-take at b.bytes,
    length-drop (at + length src) b.bytes,
  )

  pub bytes-write_at :
      (write_at b at src).bytes ≡ take at b.bytes ++ (src ++ drop (at + length src) b.bytes)
  unfolding write_at written
  bytes-write_at = take_all (length b.bytes) written (omega (arith, length-written))

  pub length-write_at : length (write_at b at src).bytes ≡ length b.bytes
  unfolding written
  length-write_at = ap length bytes-write_at ∙ length-written

  pub overrun-write_at : (write_at b at src).overrun ≡ b.overrun
  unfolding write_at
  overrun-write_at = ground arith

  pub take-write_at :
      (n : ℕ) → n ≡ at + length src → take n (write_at b at src).bytes ≡ take at b.bytes ++ src
  take-write_at n e =
      ap (take n)
        (bytes-write_at ∙ sym (append_assoc (take at b.bytes) src (drop (at + length src) b.bytes)))
      ∙ take-append_left n (take at b.bytes ++ src) (drop (at + length src) b.bytes)
          (omega (arith, length-append (take at b.bytes) src, length-take at b.bytes))

pub overrun-write_at_eq :
    (b : Buffer) (at : ℕ) (src : List ℕ)
    → (write_at b at src).overrun ≡ (b.overrun || ltb (length b.bytes) (at + length src))
unfolding write_at
overrun-write_at_eq b at src = refl

-- A write that starts inside the array, or just behind it, leaves the bytes before it.
module _ (b : Buffer) (at : ℕ) (src : List ℕ) (starts : at ≤ length b.bytes) where
  pub before-write_at : take at (write_at b at src).bytes ≡ take at b.bytes
  unfolding write_at
  before-write_at =
      take-take at (length b.bytes) (take at b.bytes ++ (src ++ drop (at + length src) b.bytes))
        starts
      ∙ take-append_left at (take at b.bytes) (src ++ drop (at + length src) b.bytes)
          (omega (arith, length-take at b.bytes))

  pub length-write_at_any : length (write_at b at src).bytes ≡ length b.bytes
  unfolding write_at
  length-write_at_any = omega (
    arith,
    length-take (length b.bytes) (take at b.bytes ++ (src ++ drop (at + length src) b.bytes)),
    length-append (take at b.bytes) (src ++ drop (at + length src) b.bytes),
    length-append src (drop (at + length src) b.bytes),
    length-take at b.bytes,
    length-drop (at + length src) b.bytes,
  )

-- A move down of bytes inside the array.
module _ (b : Buffer) (from n : ℕ) (inside : from + n ≤ length b.bytes) where
  length-moved : length (take n (drop from b.bytes)) ≡ n
  length-moved = omega (arith, length-take n (drop from b.bytes), length-drop from b.bytes)

  pub take-move_down : take n (move_down b from n).bytes ≡ take n (drop from b.bytes)
  unfolding move_down
  take-move_down =
      take-write_at b 0 (take n (drop from b.bytes)) (omega (arith, length-moved)) n
        (omega (arith, length-moved))

  pub length-move_down : length (move_down b from n).bytes ≡ length b.bytes
  unfolding move_down
  length-move_down = length-write_at b 0 (take n (drop from b.bytes)) (omega (arith, length-moved))

  pub overrun-move_down : (move_down b from n).overrun ≡ b.overrun
  unfolding move_down
  overrun-move_down =
      ground
        (arith, overrun-write_at b 0 (take n (drop from b.bytes)) (omega (arith, length-moved)))
