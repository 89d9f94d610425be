-- ===== src/Prelude/Text.antt =====
-- C strings as lists of the bytes before the terminator, and the part of the C library that the
-- program calls on them.
use Prim.Native.Nat.{ℕ, zero, suc, ◌+◌, ◌-◌, ◌*◌, ◌^◌, min}
use Prim.Native.Char.{code}
use Prim.Native.String.{String}
use mathlib.Core.Path.{◌≡◌, refl}
use mathlib.Core.Logic.{◌↔◌}
use mathlib.Core.Bool.{Bool, true, false, ◌&&◌, ◌||◌}
use mathlib.Core.List.{List, [], ◌∷◌}
use native.Mathlib.Omega.{arith}
use opensx_serial_server.Prelude.Tests.{leb, ◌==◌, if◌then◌else◌}
use opensx_serial_server.Prelude.Lists.{take, take_all, length-take}
use opensx_serial_server.Prelude.Int.{ℤ, pos, negsuc}

abbrev pub CString : Type 0
CString = List ℕ

-- A string literal.
abbrev pub c_str : String → CString
c_str String.[] = []
c_str (String.◌∷◌ c s) = code c ∷ c_str s

-- strcmp(a, b) == 0
unfoldable pub str_eq : CString → CString → Bool
str_eq [] [] = true
str_eq [] (y ∷ ys) = false
str_eq (x ∷ xs) [] = false
str_eq (x ∷ xs) (y ∷ ys) = (x == y) && str_eq xs ys

pub str_eq_iff : (a b : CString) → (str_eq a b ≡ true) ↔ (a ≡ b)
unfolding str_eq
str_eq_iff [] [] = ground arith
str_eq_iff [] (y ∷ ys) = ground arith
str_eq_iff (x ∷ xs) [] = ground arith
str_eq_iff (x ∷ xs) (y ∷ ys) = ground (arith, str_eq_iff xs ys)

-- the bytes that `snprintf(dst, n + 1, "%s", s)` leaves in `dst`
unfoldable pub truncate : ℕ → CString → CString
truncate n s = take n s

-- strncmp(a, b, n) == 0
unfoldable pub strn_eq : ℕ → CString → CString → Bool
unfolding truncate str_eq
strn_eq n a b = str_eq (take n a) (take n b)

pub strn_eq-truncate : (n : ℕ) (s : CString) → strn_eq n (truncate n s) s ≡ true
unfolding strn_eq truncate
strn_eq-truncate n s =
    (str_eq_iff (take n (take n s)) (take n s)).1
      (take_all n (take n s) (omega (arith, length-take n s)))

-- isspace
unfoldable pub is_space : ℕ → Bool
is_space c = (c == 32) || (leb 9 c && leb c 13)

unfoldable pub skip_spaces : CString → CString
skip_spaces [] = []
skip_spaces (c ∷ cs) = let rest = skip_spaces cs in if is_space c then rest else c ∷ cs

-- The leading decimal digits of a string, as a number.
leading_digits : ℕ → CString → ℕ
leading_digits acc [] = acc
leading_digits acc (c ∷ cs) = elim (leb b'0' c && leb c b'9') [
  | true ↦ leading_digits (acc * 10 + (c - b'0')) cs
  | false ↦ acc
]

-- A value that is too large is clamped, as `strtol` does on a 32-bit `long`.
positive : ℕ → ℤ
positive n = pos (min n (2 ^ 31 - 1))

negative : ℕ → ℤ
negative zero = pos 0
negative (suc n) = negsuc (min n (2 ^ 31 - 1))

signed_digits : CString → ℤ
signed_digits [] = pos 0
signed_digits (c ∷ cs) =
    if c == b'-'
    then negative (leading_digits 0 cs)
    else positive (leading_digits 0 (if c == b'+' then cs else c ∷ cs))

-- atoi(s)
unfoldable pub atoi : CString → ℤ
unfolding is_space skip_spaces leading_digits positive negative signed_digits
atoi s = signed_digits (skip_spaces s)

atoi_runs :
    (atoi (c_str " 42x") ≡ pos 42) × (atoi (c_str "-7") ≡ negsuc 6) × (atoi (c_str "on") ≡ pos 0)
unfolding atoi
atoi_runs = (refl, refl, refl)
