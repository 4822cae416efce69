-- ===== src/Prelude.antt =====
-- The names that the other modules share: the libraries', passed on, and those of the children.
mod Tests
mod Lists
mod Texts
mod Dicts
mod Sorting
mod Finding
pub use Tests.*
pub use Lists.*
unfoldable pub use Texts.{
  Text, eq_text, trim, is_space, is_empty, includes, starts_with, ends_with, or_text,
}
pub use Texts.{
  eq_text_iff, eq_text_refl, trim-trim, length-trim, trim-between, includes_start, includes_end,
  codes, text_laws, eq_text-false, ne-eq_text, is_ink, trim-ink,
}
unfoldable pub use Dicts.{Dict, get, put, remove}
pub use Dicts.{get-put, get-remove}
unfoldable pub use Sorting.{insert_by, sort_by}
pub use Sorting.{
  Order, IsSorted, sort_by-IsSorted, sort_by-perm, insert_by-perm, sort_by_fixed,
  insert_by-IsSorted, filter-IsSorted,
}
pub use Finding.{Found}
unfoldable pub use Finding.{
  push_before, found_here, later_or, split_last, split_first, replaced, taken_out,
}
pub use Finding.{
  split_last-none, split_last_here, split_first-none, split_first_here, SplitLast-cases,
  split_first-place, split_first-any, split_last-IsLast, IsLast, SplitLast,
}
pub use Prim.Native.Nat.{ℕ, zero, suc, ◌+◌, ◌-◌, ◌*◌, ◌/◌, ◌%◌, ◌≤◌, ◌<◌, min, max}
pub use mathlib.Core.Path.{◌≡◌, refl, sym, ap, ◌∙◌, subst}
pub use mathlib.Core.Logic.{◌≢◌, ◌↔◌, ◌⊎◌, inl, inr}
pub use mathlib.Core.Bool.{Bool, true, false, ◌&&◌, ◌||◌, not}
pub use mathlib.Core.Option.{Option, none, some}
pub use mathlib.Core.List.{List, [], ◌∷◌, ◌++◌, map, append-nil, append_assoc}
pub use native.Mathlib.Omega.{arith}
