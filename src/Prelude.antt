-- ===== src/Prelude.antt =====
-- The names that the other modules share: the libraries', passed on, and those of eight children.
mod Tests
mod Options
mod Lists
mod Text
mod Maps
mod Numbers
mod TextOrder
mod Prefixes
pub use Tests.*
pub use Options.*
unfoldable pub use Lists.*
pub use TextOrder.*
pub use Prefixes.*
unfoldable pub use Numbers.{decimal}
pub use Text.*
unfoldable pub use Maps.*
pub use Prim.Native.Nat.{ℕ, zero, suc, ◌+◌, ◌-◌, ◌*◌, ◌≤◌, ◌<◌, Ordering}
pub use Prim.Native.String.{String}
pub use mathlib.Core.Path.{◌≡◌, refl, sym, ap, ◌∙◌, subst}
pub use mathlib.Core.Logic.{◌≢◌, ◌↔◌, ◌⊎◌, inl, inr}
pub use mathlib.Core.Bool.{Bool, true, false, not, ◌&&◌, ◌||◌}
pub use mathlib.Core.Option.{Option, none, some}
pub use mathlib.Core.List.{List, [], ◌∷◌, ◌++◌, map, Perm}
pub use native.Mathlib.Omega.{arith}
