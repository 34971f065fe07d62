-- ===== src/Base.antt =====
-- Names that every module shares: the libraries' names passed on, the Boolean tests, lists measured
-- by native numbers, the signed result of a comparison, and the sequencing of code that may fault.
mod Tests
mod Lists
mod Tables
mod Text
mod Fault
pub use Tests.*
pub use Lists.*
pub use Tables.*
pub use Text.*
pub use Fault.*
pub use Prim.Native.Nat.{ℕ, zero, suc, ◌+◌, ◌-◌, ◌*◌, ◌/◌, ◌%◌, ◌^◌, ◌≤◌, ◌<◌, min}
pub use mathlib.Core.Path.{◌≡◌, refl, sym, ap, ap₂, subst, ◌∙◌}
pub use mathlib.Core.Logic.{◌≢◌, ◌↔◌, ◌⊎◌, inl, inr}
pub use mathlib.Core.Bool.{Bool, true, false, not, ◌&&◌, ◌||◌}
pub use mathlib.Core.Option.{Option, none, some}
pub use mathlib.Core.List.{List, [], ◌∷◌, ◌++◌, map, reverse, append-nil, append_assoc}
pub use native.Mathlib.Omega.{arith}
