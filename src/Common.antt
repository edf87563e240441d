-- ===== src/Common.antt =====
-- Names that the other modules share: those of the libraries, passed on, and the shared tests,
-- equality interface, list helpers and predicates of the children.
mod Tests
mod Equality
mod Lists
mod Lookup
mod Slices
mod Sorting
mod Words
pub use Tests.*
pub use Equality.*
pub use Lists.*
pub use Lookup.*
pub use Slices.*
pub use Sorting.*
unfoldable pub use Words.*
pub use Prim.Native.Nat.{ℕ, zero, suc, ◌+◌, ◌-◌, ◌*◌, ◌/◌, ◌%◌, ◌≤◌, ◌<◌}
pub use Prim.Native.String.{String}
pub use mathlib.Core.Path.{◌≡◌, refl, sym, ap, ◌∙◌, subst}
pub use mathlib.Core.Logic.{◌≢◌, ◌↔◌, ◌⊎◌, inl, inr}
pub use mathlib.Core.Bool.{Bool, true, false, not, ◌&&◌, ◌||◌}
pub use mathlib.Core.Option.{Option, none, some}
pub use mathlib.Core.List.{List, [], ◌∷◌, ◌++◌, map, reverse, append-nil, append_assoc}
pub use native.Mathlib.Omega.{arith}
