-- ===== src/Common.antt =====
-- The names that the other modules share: the libraries', passed on, the Boolean tests on native
-- numbers, lists measured by native numbers, and the interface of a decidable equality.
mod Tests
mod Lists
mod Equality
mod Tally
pub use Tests.*
pub use Lists.*
pub use Equality.*
pub use Tally.*
pub use Prim.Native.Nat.{ℕ, zero, suc, ◌+◌, ◌-◌, ◌*◌, ◌/◌, ◌%◌, ◌^◌, ◌≤◌, ◌<◌}
pub use mathlib.Core.Path.{◌≡◌, refl, sym, ap, ◌∙◌}
pub use mathlib.Core.Logic.{◌≢◌, ◌↔◌, ◌⊎◌, inl, inr}
pub use mathlib.Core.Bool.{Bool, true, false, not, ◌&&◌, ◌||◌}
pub use mathlib.Core.Option.{Option, none, some}
pub use mathlib.Core.List.{List, [], ◌∷◌, ◌++◌, map}
pub use native.Mathlib.Omega.{arith}
