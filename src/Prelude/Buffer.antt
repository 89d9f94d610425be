-- ===== src/Prelude/Buffer.antt =====
-- A C byte array of fixed size. A read or a write that leaves the array is recorded in `overrun`;
-- what such a write does inside the array still happens.
pub mod Laws
use Prim.Native.Nat.{ℕ, ◌+◌}
use mathlib.Core.Bool.{Bool, false, ◌||◌}
use mathlib.Core.List.{List, ◌++◌}
use opensx_serial_server.Prelude.Tests.{ltb}
use opensx_serial_server.Prelude.Lists.{length, take, drop, replicate}

pub record Buffer : Type 0 where
  pub bytes : List ℕ
  pub overrun : Bool

-- memset(b, 0, n)
abbrev pub zeroed : ℕ → Buffer
zeroed n = record { bytes = replicate n 0; overrun = false }

-- memcpy(b + at, src, length src)
unfoldable pub write_at : Buffer → ℕ → List ℕ → Buffer
write_at b at src = record {
  bytes = take (length b.bytes) (take at b.bytes ++ (src ++ drop (at + length src) b.bytes));
  overrun = b.overrun || ltb (length b.bytes) (at + length src);
}

-- memmove(b, b + from, n)
unfoldable pub move_down : Buffer → ℕ → ℕ → Buffer
move_down b from n =
    let moved = write_at b 0 (take n (drop from b.bytes)) in
    record moved { overrun = moved.overrun || ltb (length b.bytes) (from + n) }
