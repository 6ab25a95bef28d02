-- ===== src/Base.antt =====
-- What the other modules share: the names of the libraries, passed on, and those of the children.
mod Tests
mod Lists
mod Text
pub mod Strings
pub mod Perm
pub mod Sort
pub mod Stable
pub mod Graph
pub use Tests.*
pub use Lists.*
pub use Text.*
unfoldable pub use Text.{str_ltb, split, quote, set_insert, join}
pub use Prim.Native.Nat.{ℕ, zero, suc, ◌+◌, ◌-◌, ◌*◌, ◌≤◌, ◌<◌}
pub use Prim.Native.String.{String}
pub use mathlib.Core.Path.{◌≡◌, refl, sym, ap, ◌∙◌, subst}
pub use mathlib.Core.Logic.{◌≢◌, ◌↔◌, ◌⊎◌, inl, inr}
pub use mathlib.Core.Bool.{Bool, true, false, not, ◌&&◌, ◌||◌}
pub use mathlib.Core.Option.{Option, none, some}
pub use mathlib.Core.List.{List, [], ◌∷◌, ◌++◌, map}
pub use native.Mathlib.Omega.{arith}
pub use text.Mathlib.TextEquality.{eq_iff}
pub use text.Mathlib.TextPositions.{eq_refl}
