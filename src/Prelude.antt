-- ===== src/Prelude.antt =====
-- The names that the modules of this library share: those of the libraries, passed on, the tests
-- on native numbers, lists as C arrays, fixed-width words and their bits.
mod Tests
mod Lists
mod Order
mod Word
mod Bits
mod Int
pub mod Exec
pub mod Cells
pub mod Float
pub use Tests.*
pub use Lists.*
pub use Order.*
pub use Word.*
unfoldable pub use Bits.*
unfoldable pub use Int.*
pub use Prim.Native.Nat.{
  ℕ, zero, suc, ◌+◌, ◌-◌, ◌*◌, ◌/◌, ◌%◌, ◌^◌, ◌≤◌, ◌<◌, min, max, bit_and, bit_or, bit_xor,
}
pub use mathlib.Core.Path.{◌≡◌, refl, sym, ap, ap₂, ◌∙◌, subst}
pub use mathlib.Core.Logic.{◌≢◌, ◌↔◌, ◌⊎◌, inl, inr}
pub use mathlib.Core.Bool.{Bool, true, false, not, ◌&&◌, ◌||◌}
pub use mathlib.Core.Option.{Option, none, some}
pub use mathlib.Core.List.{List, [], ◌∷◌, ◌++◌, map, append-nil, append_assoc}
pub use native.Mathlib.Omega.{arith}
