-- ===== src/Base.antt =====
-- What every module shares: the libraries' names, passed on, and the children below: Boolean tests,
-- JavaScript strings, `Map`, and calls that throw.
mod Tests
mod Strings
mod Maps
mod Outcome
pub mod Results
pub mod Actions
pub mod MapValues
pub use Prim.Native.Nat.{ℕ, zero, suc, ◌+◌, ◌-◌, ◌*◌, ◌/◌, ◌%◌, ◌^◌, ◌≤◌, ◌<◌}
pub use mathlib.Core.Path.{◌≡◌, refl, sym, ap, ◌∙◌, subst}
pub use mathlib.Core.Logic.{◌≢◌, ◌↔◌, ◌⊎◌, inl, inr}
pub use mathlib.Core.Bool.{Bool, true, false, not, ◌&&◌, ◌||◌}
pub use mathlib.Core.Option.{Option, none, some}
pub use mathlib.Core.List.{List, [], ◌∷◌, ◌++◌, map}
pub use native.Mathlib.Omega.{arith}
pub use Tests.*
unfoldable pub use Strings.*
pub use Strings.Split.*
pub use Strings.Bytes.*
unfoldable pub use Maps.*
pub use Outcome.*
