-- ===== src/Base.antt =====
-- What the component models share: the names of the libraries, tests on numbers, lists, byte
-- strings with the functions of Go's strings package, signed 64-bit numbers, association lists and
-- the stable sort of Go's sort package.
mod Tests
mod Lists
pub mod Strings
pub mod Urls
pub mod Int
pub mod Sort
pub mod Membership
pub use Tests.*
pub use Lists.*
pub use Strings.{Text, text, is_empty, eq_text_iff, eq_text_refl, member}
unfoldable pub use Strings.{eq_text}
pub use Prim.Native.Nat.{ℕ, zero, suc, ◌+◌, ◌-◌, ◌*◌, ◌/◌, ◌%◌, ◌^◌, ◌≤◌, ◌<◌, min}
pub use mathlib.Core.Path.{◌≡◌, refl, sym, ap, subst, ◌∙◌}
pub use mathlib.Core.Logic.{◌≢◌, ◌↔◌, ◌⊎◌, inl, inr}
pub use mathlib.Core.Bool.{Bool, true, false, not, ◌&&◌, ◌||◌}
pub use mathlib.Core.Option.{Option, none, some}
pub use mathlib.Core.List.{List, [], ◌∷◌, ◌++◌, map, reverse}
pub use native.Mathlib.Omega.{arith}
