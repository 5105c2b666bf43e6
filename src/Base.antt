-- ===== src/Base.antt =====
-- The names that the other modules share: the libraries', passed on, and those of three children.
mod Tests
mod Lists
mod Strings
mod Sort
mod Show
pub use Tests.*
pub use Lists.*
pub use Strings.{includes, is_space, truthy-cons}
unfoldable pub use Show.{◌<>◌, show}
unfoldable pub use Strings.{trim, split_lines}
unfoldable pub use Sort.{insert_by, sort_by}
pub use Sort.{
  IsSorted, sort_by-IsSorted, insert_by-last, insert_by-append, filter-insert_by, sort_by-filter,
}
pub use Prim.Native.Nat.{ℕ, zero, suc, ◌+◌, ◌-◌, ◌*◌, ◌/◌, ◌%◌, ◌≤◌, ◌<◌, min, max}
pub use Prim.Native.String.{String}
pub use mathlib.Core.Path.{◌≡◌, refl, sym, ap, ◌∙◌, fun_ext}
pub use mathlib.Core.Logic.{◌≢◌, ◌↔◌, ◌⊎◌, inl, inr}
pub use mathlib.Core.Bool.{Bool, true, false, not, ◌&&◌, ◌||◌}
pub use mathlib.Core.Option.{Option, none, some}
pub use mathlib.Core.List.{List, [], ◌∷◌, ◌++◌, map, reverse}
pub use native.Mathlib.Omega.{arith}
pub use native.Mathlib.Decide.{ℕ_discrete}
pub use text.Mathlib.Text.{◌==◌}
pub use text.Mathlib.TextEquality.{eq_iff}
pub use text.Mathlib.TextPositions.{eq_refl}
