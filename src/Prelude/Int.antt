-- ===== src/Prelude/Int.antt =====
-- The C `int`s of the program: what `atoi` yields and what the guards compare.
use Prim.Native.Nat.{ℕ, ◌+◌, ◌-◌, ◌%◌, ◌^◌}
use mathlib.Core.Bool.{Bool, true, false}
use opensx_serial_server.Prelude.Tests.{ltb, ◌==◌, if◌then◌else◌}

-- `negsuc n` is -(n + 1).
pub data ℤ : Type 0 where
  pos : ℕ → ℤ
  negsuc : ℕ → ℤ

-- `z == n`, `z < n`, `n < z` and `n <= z` for a constant `n` that is not negative
abbrev pub is_nat : ℤ → ℕ → Bool
is_nat (pos a) n = a == n
is_nat (negsuc a) n = false

abbrev pub below : ℤ → ℕ → Bool
below (pos a) n = ltb a n
below (negsuc a) n = true

abbrev pub above : ℕ → ℤ → Bool
above n (pos a) = ltb n a
above n (negsuc a) = false

-- The value of an `int` that a guard has shown not to be negative.
abbrev pub to_nat : ℤ → ℕ
to_nat (pos a) = a
to_nat (negsuc a) = 0

-- `int` arithmetic wraps in 32 bits: the word of an integer, the integer of a word, and the sum.
abbrev pub word : ℤ → ℕ
word (pos a) = a % 2 ^ 32
word (negsuc a) = 2 ^ 32 - 1 - a % 2 ^ 32

abbrev pub of_word : ℕ → ℤ
of_word w = if ltb w (2 ^ 31) then pos w else negsuc (2 ^ 32 - 1 - w)

infixl 60 ◌+ℤ◌
abbrev pub ◌+ℤ◌ : ℤ → ℤ → ℤ
a +ℤ b = of_word ((word a + word b) % 2 ^ 32)

-- a < b
abbrev pub ltz : ℤ → ℤ → Bool
ltz (pos a) (pos b) = ltb a b
ltz (pos a) (negsuc b) = false
ltz (negsuc a) (pos b) = true
ltz (negsuc a) (negsuc b) = ltb b a
