-- ===== src/Prelude.antt =====
-- The names that the other modules share: the libraries', passed on, and those of the children.
mod Tests
mod Equality
mod Lists
mod Sets
mod Results
mod Dicts
mod Values
mod Times
pub use Tests.*
pub use Equality.*
pub use Lists.*
pub use Sets.*
pub use Results.*
unfoldable pub use Dicts.{lookup, insert, remove}
pub use Values.*
pub use Times.*
pub use Dicts.{
  Dict, lookup-insert, lookup-nil, lookup-insert_self, lookup-insert_cases, lookup-insert_new,
  lookup-remove,
}
pub use Prim.Native.Nat.{ℕ, zero, suc, ◌+◌, ◌-◌, ◌*◌, ◌≤◌, ◌<◌}
pub use Prim.Native.String.{String}
pub use mathlib.Core.Path.{◌≡◌, refl, sym, ap, ◌∙◌, subst}
pub use mathlib.Core.Logic.{◌≢◌, ◌↔◌, ◌⊎◌, inl, inr}
pub use mathlib.Core.Bool.{Bool, true, false, ◌&&◌, ◌||◌, not}
pub use mathlib.Core.Option.{Option, none, some}
pub use mathlib.Core.List.{List, [], ◌∷◌, ◌++◌, map}
pub use native.Mathlib.Omega.{arith}
