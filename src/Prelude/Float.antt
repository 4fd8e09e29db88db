-- ===== src/Prelude/Float.antt =====
-- The floating-point type of the C code and the operations on it that the code uses. Nothing is
-- assumed of them: what the library proves holds for any rounding.
use linux_track.Prelude.{ℕ, ℤ}

pub record FloatOps : Type 1 where
  pub F : Type 0
  pub of_uint : ℕ → F
  pub of_int : ℤ → F
  -- The conversion to `int`, which drops the fraction.
  pub to_int : F → ℤ
  pub add : F → F → F
  pub sub : F → F → F
  pub mul : F → F → F
  pub div : F → F → F
