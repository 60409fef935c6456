-- ===== src/Base.antt =====
-- The names that the other modules share: the library's, passed on, Boolean tests, lists, texts and
-- dictionaries over the native numbers and strings.
mod Tests
mod Lists
mod Text
mod Maps
mod Errors
pub mod Distinct
pub mod Utf8
pub mod Int
pub mod Float
pub mod Regexp
pub mod Decimal
pub mod Orders
pub use Tests.*
pub use Lists.*
pub use Errors.*
unfoldable pub use Text.*
unfoldable pub use Maps.*
pub use Prim.Native.Nat.{ℕ, zero, suc, ◌+◌, ◌-◌, ◌*◌, ◌/◌, ◌%◌, ◌^◌, ◌≤◌, ◌<◌}
pub use Prim.Native.String.{String}
pub use mathlib.Core.Path.{◌≡◌, refl, sym, ap, ◌∙◌, subst}
pub use mathlib.Core.Logic.{◌≢◌, ◌↔◌, ◌⊎◌, inl, inr}
pub use mathlib.Core.Bool.{Bool, true, false, not, ◌&&◌, ◌||◌}
pub use mathlib.Core.Option.{Option, none, some}
pub use mathlib.Core.List.{List, [], ◌∷◌, ◌++◌, map}
pub use native.Mathlib.Omega.{arith}
pub use text.Mathlib.TextEquality.{eq_iff}
