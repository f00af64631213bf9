-- ===== src/Common.antt =====
-- What the other modules share: library names, tests, lists, integers, maps, time, text and floats.
mod Tests
mod Lists
mod Int
mod Clock
mod Maps
mod Text
mod Itoa
mod Strings
mod FloatOps
mod Examples
unfoldable pub use Tests.*
unfoldable pub use Lists.*
unfoldable pub use Int.*
unfoldable pub use Clock.*
unfoldable pub use Maps.*
unfoldable pub use Text.*
unfoldable pub use Strings.*
pub use Itoa.*
pub use FloatOps.*
pub use Prim.Native.Nat.{ℕ, zero, suc, ◌+◌, ◌-◌, ◌*◌, ◌/◌, ◌%◌, ◌^◌, ◌≤◌, ◌<◌, min}
pub use mathlib.Core.Path.{◌≡◌, refl, sym, ap, ap₂, subst, fun_ext, ◌∙◌}
pub use mathlib.Core.Logic.{◌≢◌, ◌↔◌, ◌⊎◌, inl, inr}
pub use mathlib.Core.Bool.{Bool, true, false, not, ◌&&◌, ◌||◌}
pub use mathlib.Core.Option.{Option, none, some}
pub use mathlib.Core.List.{List, [], ◌∷◌, ◌++◌, map}
pub use native.Mathlib.Omega.{arith}
