-- ===== src/Prelude/Word.antt =====
-- Fixed-width words as native numbers: casts, and the unsigned operations that wrap.
use Prim.Native.Nat.{ℕ, ◌+◌, ◌-◌, ◌*◌, ◌/◌, ◌%◌, ◌^◌}
use mathlib.Core.Bool.{Bool}
use linux_track.Prelude.Tests.{ltb}

abbrev pub u8 : ℕ → ℕ
u8 n = n % 2 ^ 8

abbrev pub u16 : ℕ → ℕ
u16 n = n % 2 ^ 16

abbrev pub u32 : ℕ → ℕ
u32 n = n % 2 ^ 32

-- `a - b` on `unsigned int`; both are below 2 ^ 32.
abbrev pub sub32 : ℕ → ℕ → ℕ
sub32 a b = (a + 2 ^ 32 - b) % 2 ^ 32

infixl 75 ◌<<<◌ ◌>>>◌
abbrev pub ◌<<<◌ : ℕ → ℕ → ℕ
x <<< k = x * 2 ^ k

abbrev pub ◌>>>◌ : ℕ → ℕ → ℕ
x >>> k = x / 2 ^ k

-- The order of `int` values that are held as bit patterns: flipping the sign bit maps it to the
-- order of the patterns.
abbrev pub bias32 : ℕ → ℕ
bias32 w = (w + 2 ^ 31) % 2 ^ 32

abbrev pub slt32 : ℕ → ℕ → Bool
slt32 a b = ltb (bias32 a) (bias32 b)
