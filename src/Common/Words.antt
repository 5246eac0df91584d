-- ===== src/Common/Words.antt =====
-- Words between white space, and signed numbers as texts.
use Prim.Native.Nat.{ℕ, zero, suc, ◌+◌, ◌^◌}
use mathlib.Core.Bool.{Bool, true, false}
use mathlib.Core.Option
use mathlib.Core.Option.{Option, none, some}
use mathlib.Core.List.{List, [], ◌∷◌}
use dynamic_config_remote.Common.Tests.{◌==◌, if◌then◌else◌}
use dynamic_config_remote.Common.Texts.{Text, is_whitespace}
use dynamic_config_remote.Common.Numbers.{parse_unsigned, decimal}

-- The words so far, where the next character before them goes into a word that has begun.
push_letter : ℕ → Bool × List Text → Bool × List Text
push_letter c (true, []) = (true, (c ∷ []) ∷ [])
push_letter c (true, w ∷ ws) = (true, (c ∷ w) ∷ ws)
push_letter c (false, ws) = (true, (c ∷ []) ∷ ws)

words_of : Text → Bool × List Text
unfolding push_letter is_whitespace
words_of [] = (false, [])
words_of (c ∷ s) =
    let rest = words_of s in if is_whitespace c then (false, rest.1) else push_letter c rest

unfoldable pub split_whitespace : Text → List Text
unfolding words_of
split_whitespace s = (words_of s).1

-- An `i64`; the negative ones by their distance from zero.
pub data Integer : Type 0 where
  natural : ℕ → Integer
  below_zero : ℕ → Integer

abbrev negated : ℕ → Integer
negated zero = natural 0
negated (suc n) = below_zero (suc n)

-- After the `-`, where no second sign may stand.
parse_negative : Text → Option Integer
unfolding parse_unsigned
parse_negative [] = none
parse_negative (c ∷ s) =
    if c == b'+' then none else Option.map negated (parse_unsigned (2 ^ 63 + 1) (c ∷ s))

-- `parse::<i64>`
unfoldable pub parse_signed : Text → Option Integer
unfolding parse_negative parse_unsigned
parse_signed [] = none
parse_signed (c ∷ s) =
    if c == b'-' then parse_negative s else Option.map natural (parse_unsigned (2 ^ 63) (c ∷ s))

unfoldable pub decimal_signed : Integer → Text
unfolding decimal
decimal_signed (natural n) = decimal n
decimal_signed (below_zero n) = b'-' ∷ decimal n
