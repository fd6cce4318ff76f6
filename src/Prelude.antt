-- ===== src/Prelude.antt =====
-- The names that the other modules share: the libraries', passed on, and those of the children
-- (tests on numbers, lists over native numbers, signed integers, Go maps, outcomes of a call).
mod Tests
mod Lists
mod Perms
mod Ints
pub mod Maps
pub mod Outcome
pub mod Effects
pub mod Ticks
pub use Tests.*
pub use Lists.*
pub use Perms.*
pub use Ints.*
pub use Prim.Native.Nat.{ℕ, zero, suc, ◌+◌, ◌-◌, ◌*◌, ◌/◌, ◌%◌, ◌≤◌, ◌<◌}
pub use Prim.Native.String.{String}
pub use mathlib.Core.Path.{◌≡◌, refl, sym, ap, ◌∙◌}
pub use mathlib.Core.Logic.{◌≢◌, ◌↔◌, ◌⊎◌, inl, inr}
pub use mathlib.Core.Bool.{Bool, true, false, not, ◌&&◌, ◌||◌}
pub use mathlib.Core.Option.{Option, none, some}
pub use mathlib.Core.List.{List, [], ◌∷◌, ◌++◌, map, Perm}
pub use native.Mathlib.Omega.{arith}
pub use text.Mathlib.Text.{◌==◌ as str_eq}
pub use text.Mathlib.TextEquality.{eq_iff}
