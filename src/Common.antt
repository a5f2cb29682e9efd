-- ===== src/Common.antt =====
-- Names, tests, list operations and word arithmetic that every component shares. No code of the
-- repository is modelled here.
mod Tests
mod Lists
mod Words
mod Texts
mod Bits
pub mod Float
pub use Tests.*
pub use Texts.*
pub use Lists.*
unfoldable pub use Words.*
unfoldable pub use Bits.*
pub use Prim.Native.Nat.{bit_and, bit_or, bit_xor}
pub use Prim.Native.Nat.{ℕ, zero, suc, ◌+◌, ◌-◌, ◌*◌, ◌/◌, ◌%◌, ◌^◌, ◌≤◌, ◌<◌, min, max}
pub use mathlib.Core.Path.{◌≡◌, refl, sym, ap, ap₂, subst, ◌∙◌}
pub use mathlib.Core.Logic.{◌≢◌, ◌↔◌, ◌⊎◌, inl, inr}
pub use mathlib.Core.Bool.{Bool, true, false, not, ◌&&◌, ◌||◌}
pub use mathlib.Core.Option.{Option, none, some}
pub use mathlib.Core.List.{List, [], ◌∷◌, ◌++◌, map}
pub use native.Mathlib.Omega.{arith}
