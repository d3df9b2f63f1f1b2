-- ===== src/Prelude.antt =====
-- The names that the other modules share: the libraries', passed on, and those of the children:
-- tests on numbers and texts, lists measured by native numbers, fallible results, Go's strings.
mod Tests
mod Lists
mod Bytes
mod Fallible
mod Strings
pub use Tests.*
pub use Lists.*
unfoldable pub use Bytes.{text_eq}
pub use Bytes.{Text, codes, text_eq_iff, text_eq_refl, text_eq-length, text_eq_split}
pub use Fallible.*
unfoldable pub use Strings.{
  is_empty, is_space, trim_left, trim_right, trim, trim_space, has_prefix, has_suffix,
  contains_text, split, has_char, to_lower,
}
pub use Strings.{has_prefix_refl, has_prefix_self, has_prefix-append, split-part, split-append}
pub use Prim.Native.Nat.{ℕ, zero, suc, ◌+◌, ◌-◌, ◌*◌, ◌/◌, ◌%◌, ◌^◌, ◌≤◌, ◌<◌, Ordering, compare}
pub use Prim.Native.String.{String}
pub use mathlib.Core.Path.{◌≡◌, refl, sym, ap, ◌∙◌, subst}
pub use mathlib.Core.Logic.{◌≢◌, ◌↔◌, ◌⊎◌, inl, inr}
pub use mathlib.Core.Bool.{Bool, true, false, not, ◌&&◌, ◌||◌}
pub use mathlib.Core.Option.{Option, none, some}
pub use mathlib.Core.List.{List, [], ◌∷◌, ◌++◌, map, append_assoc, append-nil}
pub use native.Mathlib.Omega.{arith}
