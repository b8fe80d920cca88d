-- ===== src/Prelude.antt =====
-- The names that the modules share: the libraries', passed on, with Boolean tests, lists measured
-- by native numbers, signed integers, and the lemmas on quotients that the money code uses.
mod Tests
mod Lists
mod Options
mod Quotient
pub mod Int
pub use Tests.*
pub use Lists.*
pub use Options.*
pub use Quotient.*
pub use Prim.Native.Nat.{ℕ, zero, suc, ◌+◌, ◌-◌, ◌*◌, ◌/◌, ◌%◌, ◌^◌, ◌≤◌, ◌<◌}
pub use Prim.Native.String.{String}
pub use mathlib.Core.Path.{◌≡◌, refl, sym, ap, ◌∙◌}
pub use mathlib.Core.Logic.{◌≢◌, ◌↔◌, ◌⊎◌, inl, inr}
pub use mathlib.Core.Bool.{Bool, true, false, not, ◌&&◌, ◌||◌}
pub use mathlib.Core.Option.{Option, none, some}
pub use mathlib.Core.List.{List, [], ◌∷◌, ◌++◌, map}
pub use native.Mathlib.Omega.{arith}
