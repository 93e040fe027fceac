-- ===== src/Core.antt =====
-- What the other modules share: names of the libraries passed on, tests on numbers, lists, the
-- signed integers of Go's `int` and `int64`, text as bytes, and string-keyed maps.
mod Tests
mod Lists
pub mod Int
pub mod Text
pub mod Clock
pub mod Dict
pub mod Runes
pub mod Scan
pub mod Sort
pub mod Split
pub use Tests.*
pub use Lists.*
pub use Prim.Native.Nat.{ℕ, zero, suc, ◌+◌, ◌-◌, ◌*◌, ◌/◌, ◌%◌, ◌^◌, ◌≤◌, ◌<◌}
pub use Prim.Native.String.{String}
pub use mathlib.Core.Path.{◌≡◌, refl, sym, ap, ◌∙◌}
pub use mathlib.Core.Logic.{◌≢◌, ◌↔◌, ◌⊎◌, inl, inr}
pub use mathlib.Core.Bool.{Bool, true, false, not, ◌&&◌, ◌||◌}
pub use mathlib.Core.Option.{Option, none, some}
pub use mathlib.Core.List.{List, [], ◌∷◌, ◌++◌, map, reverse}
pub use native.Mathlib.Omega.{arith}
