-- ===== src/Base.antt =====
-- The names that the other modules share: the libraries', passed on, and those of the children.
mod Blank
mod Bools
mod Lists
pub mod Ints
mod Sorts
mod Texts
pub use Blank.{is_blank-append, is_empty-trim}
unfoldable pub use Blank.{is_blank}
pub use Bools.*
pub use Lists.*
pub use Sorts.{IsSorted, IsTotalOrder, sort-perm, sort-IsSorted, sort-eq_of_perm, insert-perm}
unfoldable pub use Sorts.{sort}
pub use Texts.{
  Text, text_eq_sound, text_eq_refl, text_le_order, text_le_antisym, text_eq_iff, cons-ne_self,
  Lacks, split_once_found, split_once-none, split_once_sound, rsplit_once_sound, rsplit_once-none,
  rsplit_once_found,
}
unfoldable pub use Texts.{
  ends_with, utf8, to_lowercase, text_le, text, text_eq, is_whitespace, trim_start, trim,
  strip_prefix, split_once, rsplit_once, join,
}
pub use Prim.Native.Nat.{ℕ, zero, suc, ◌+◌, ◌-◌, ◌*◌, ◌≤◌, ◌<◌}
pub use mathlib.Core.Path.{◌≡◌, refl, sym, ap, ◌∙◌}
pub use mathlib.Core.Logic.{◌≢◌, ◌↔◌, ◌⊎◌, inl, inr}
pub use mathlib.Core.Bool.{Bool, true, false, not, ◌&&◌, ◌||◌}
pub use mathlib.Core.Option.{Option, none, some}
pub use mathlib.Core.List.{List, [], ◌∷◌, ◌++◌, map, reverse, Permᴰ, append_assoc, append-nil}
pub use native.Mathlib.Omega.{arith}
