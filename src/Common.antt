-- ===== src/Common.antt =====
-- The names that the other modules share: the libraries', passed on, and those of the children.
mod Tests
mod Lists
mod Outcomes
mod Texts
mod Numbers
mod Bytes
mod Sorting
mod Words
pub use Tests.*
pub use Lists.*
pub use Outcomes.*
unfoldable pub use Texts.{
  text, text_eq, contains_char, split_once, rsplit_once, strip_prefix, split_at_text, split, join,
  is_whitespace, trim_start, trim_end_by, trim, utf8_len, is_digit, is_ascii_alphanumeric,
  ascii_lower, eq_ignore_ascii_case, trim_start_char, trim_end_char, ends_with_char,
}
unfoldable pub use Numbers.{parse_unsigned, decimal}
pub use Numbers.{contains_char-decimal, parse_unsigned-decimal, trim-decimal}
pub use Texts.{
  Text, text_eq_iff, text_eq_refl, contains_char-append, split_once-append, split_once-eq-some,
  split_once-eq-none, no_char_of_split_once, rsplit_once-append, rsplit_once-eq-some,
  rsplit_once-eq-none, no_char_of_rsplit_once, strip_prefix-eq-some, strip_prefix-append,
}
unfoldable pub use Bytes.{utf8_char, as_bytes}
pub use Bytes.{bit_or-eq-zero, bit_xor-eq-zero_iff, IsUnicode, as_bytes_injective}
unfoldable pub use Words.{split_whitespace, parse_signed, decimal_signed}
pub use Words.{Integer, natural, below_zero}
unfoldable pub use Sorting.{text_leb, sort_texts, dedup_texts, contains_text}
pub use Sorting.{
  Ascending, sorted_distinct-Ascending, sorted_distinct-All, sorted_distinct-contains,
  contains_text-append,
}
pub use Prim.Native.Nat.{bit_or, bit_xor}
pub use Prim.Native.Nat.{ℕ, zero, suc, ◌+◌, ◌-◌, ◌*◌, ◌/◌, ◌%◌, ◌^◌, ◌≤◌, ◌<◌}
pub use mathlib.Core.Path.{◌≡◌, refl, sym, ap, subst, ◌∙◌, ◌≡⟨◌⟩◌, ◌∎}
pub use mathlib.Core.Logic.{◌≢◌, ◌↔◌, ◌⊎◌, inl, inr}
pub use mathlib.Core.Bool.{Bool, true, false, not, ◌&&◌, ◌||◌}
pub use mathlib.Core.Option.{Option, none, some}
pub use mathlib.Core.List.{List, [], ◌∷◌, ◌++◌, map}
pub use native.Mathlib.Omega.{arith}
