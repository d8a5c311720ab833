-- ===== src/Prelude.antt =====
-- The names that the modules share: the libraries', passed on, and those of the children.
mod Tests
mod Equality
mod Lists
mod Text
mod Sort
mod Selections
unfoldable pub use Selections.{IsSorted}
pub use Selections.{
  take-full, IsSorted-map, All-take, All-drop, All-select, All-sort_by, All-map, sort_by-IsSorted,
  take-IsSorted, take-before-drop, length-take_le, select-eq, select-select, All-both, length-map,
  map-take, map-select, map-sort_by, All-Memᴰ, is_empty-map, not_or, and_right, all-is_empty,
  is_empty-nil, select-all, select-none, All-every,
}
pub use Tests.*
pub use Equality.*
pub use Lists.*
unfoldable pub use Text.{is_space, lstrip, rstrip, strip}
unfoldable pub use Sort.{insert_by, sort_by}
pub use Sort.{str_leb, sort_by-perm}
pub use Text.{is_blank, is_set, strip_idem}
pub use Prim.Native.Nat.{ℕ, zero, suc, ◌+◌, ◌-◌, ◌*◌, ◌/◌, ◌%◌, ◌^◌, ◌≤◌, ◌<◌, min}
pub use Prim.Native.String.{String}
pub use mathlib.Core.Path.{◌≡◌, refl, sym, ap, ◌∙◌, subst}
pub use mathlib.Core.Logic.{◌≢◌, ◌↔◌, ◌⊎◌, inl, inr}
pub use mathlib.Core.Bool.{Bool, true, false, ◌&&◌, ◌||◌, not}
pub use mathlib.Core.Option.{Option, none, some}
pub use mathlib.Core.List.{List, [], ◌∷◌, ◌++◌, map, append-nil, append_assoc, Memᴰ, Perm}
pub use native.Mathlib.Omega.{arith}
pub use text.Mathlib.TextEquality.{eq_iff}
