-- ===== src/Prelude/Bits.antt =====
-- Laws of exclusive or, the `^` of C, from the rule for the lowest binary digit.
use Prim.Native.Nat.{
  ℕ, zero, suc, ◌+◌, ◌*◌, ◌/◌, ◌%◌, ◌^◌, ◌≤◌, ◌<◌, bit_xor, digits, differ, bit_xor-bitwise,
}
use mathlib.Core.Path.{◌≡◌, refl}
use native.Mathlib.Nat.{pow-suc}
use native.Mathlib.Omega.{arith}

abbrev xor_digits : ℕ → ℕ → ℕ → ℕ
xor_digits n a b = digits (λ y. y) differ n a b

-- Any count of rounds that covers the first number will do.
xor_digits_fuel : (n m a b : ℕ) → a ≤ n → a ≤ m → xor_digits n a b ≡ xor_digits m a b
xor_digits_fuel zero zero a b p q = refl
xor_digits_fuel zero (suc m) zero b p q = refl
xor_digits_fuel zero (suc m) (suc a) b p q = absurd (omega arith)
xor_digits_fuel (suc n) zero zero b p q = refl
xor_digits_fuel (suc n) zero (suc a) b p q = absurd (omega arith)
xor_digits_fuel (suc n) (suc m) zero b p q = refl
xor_digits_fuel (suc n) (suc m) (suc a) b p q =
    omega (arith, xor_digits_fuel n m (suc a / 2) (b / 2) (omega arith) (omega arith))

zero-bit_xor : (b : ℕ) → bit_xor 0 b ≡ b
zero-bit_xor b = bit_xor-bitwise 0 b

pub bit_xor_step : (a b : ℕ) → bit_xor a b ≡ bit_xor (a / 2) (b / 2) * 2 + differ (a % 2) (b % 2)
bit_xor_step zero b = omega (arith, zero-bit_xor b, zero-bit_xor (b / 2))
bit_xor_step (suc a) b = omega (
  arith,
  bit_xor-bitwise (suc a) b,
  bit_xor-bitwise (suc a / 2) (b / 2),
  xor_digits_fuel a (suc a / 2) (suc a / 2) (b / 2) (omega arith) (omega arith),
)

differ_self : (x : ℕ) → differ x x ≡ 0
differ_self zero = refl
differ_self (suc x) = differ_self x

differ_zero : (x : ℕ) → differ x 0 ≡ x
differ_zero zero = refl
differ_zero (suc x) = refl

differ_digit : (x y : ℕ) → x < 2 → y < 2 → differ x y < 2
differ_digit zero y p q = q
differ_digit (suc x) zero p q = p
differ_digit (suc zero) (suc zero) p q = omega arith
differ_digit (suc zero) (suc (suc y)) p q = absurd (omega arith)
differ_digit (suc (suc x)) (suc y) p q = absurd (omega arith)

-- Equal lowest digits cancel.
bit_xor_even : (a b : ℕ) → a % 2 ≡ b % 2 → bit_xor a b ≡ bit_xor (a / 2) (b / 2) * 2
bit_xor_even a b h = omega (arith, differ_self (b % 2), rw h at (bit_xor_step a b))

bit_xor-zero_fuel : (n a : ℕ) → a ≤ n → bit_xor a 0 ≡ a
bit_xor-zero_fuel n zero h = refl
bit_xor-zero_fuel zero (suc a) h = absurd (omega arith)
bit_xor-zero_fuel (suc n) (suc a) h = omega (
  arith,
  bit_xor_step (suc a) 0,
  bit_xor-zero_fuel n (suc a / 2) (omega arith),
  differ_zero (suc a % 2),
)

pub bit_xor-zero : (a : ℕ) → bit_xor a 0 ≡ a
bit_xor-zero a = bit_xor-zero_fuel a a (omega arith)

pub twice_pow : (k q : ℕ) → q * 2 ^ suc k ≡ 2 * (q * 2 ^ k)
twice_pow k q = rw (pow-suc 2 k) (omega arith)

same_digit : (k a b q : ℕ) → a ≡ q * 2 ^ suc k + b → a % 2 ≡ b % 2
same_digit k a b q e = omega (arith, twice_pow k q)

half_sum : (k a b q : ℕ) → a ≡ q * 2 ^ suc k + b → a / 2 ≡ q * 2 ^ k + b / 2
half_sum k a b q e = omega (arith, twice_pow k q)

half-lt : (k b : ℕ) → b < 2 ^ suc k → b / 2 < 2 ^ k
half-lt k b h = omega (arith, twice_pow k 1)

-- The digits below 2 ^ k cancel, those above stay.
pub bit_xor_low : (k a b q : ℕ) → a ≡ q * 2 ^ k + b → b < 2 ^ k → bit_xor a b ≡ q * 2 ^ k
bit_xor_low zero a b q e h =
    let none_left : b ≡ 0 = omega arith in rw none_left (omega (arith, bit_xor-zero a))
bit_xor_low (suc k) a b q e h = omega (
  arith,
  pow-suc 2 k,
  twice_pow k q,
  twice_pow k 1,
  bit_xor_even a b (same_digit k a b q e),
  bit_xor_low k (a / 2) (b / 2) q (half_sum k a b q e) (half-lt k b h),
)

-- Two numbers of k digits have an exclusive or of k digits.
pub bit_xor-lt : (k a b : ℕ) → a < 2 ^ k → b < 2 ^ k → bit_xor a b < 2 ^ k
bit_xor-lt zero a b p q =
    let no_digits : a ≡ 0 = omega arith in rw no_digits (omega (arith, zero-bit_xor b))
bit_xor-lt (suc k) a b p q = omega (
  arith,
  twice_pow k 1,
  bit_xor_step a b,
  bit_xor-lt k (a / 2) (b / 2) (half-lt k a p) (half-lt k b q),
  differ_digit (a % 2) (b % 2) (omega arith) (omega arith),
)
