-- ===== src/Common/Numbers.antt =====
-- Unsigned numbers as texts: `parse` and `Display`.
use Prim.Native.Nat.{ℕ, zero, suc, ◌+◌, ◌-◌, ◌*◌, ◌/◌, ◌%◌, ◌<◌}
use mathlib.Core.Path.{◌≡◌, refl, ◌∙◌, ap}
use mathlib.Core.Logic.{◌≢◌, inl, inr}
use mathlib.Core.Bool.{true, false, ◌&&◌}
use mathlib.Core.Option.{Option, none, some}
use mathlib.Core.List.{[], ◌∷◌}
use native.Mathlib.Omega.{arith}
use dynamic_config_remote.Common.Tests.{ltb, ◌==◌, if◌then◌else◌, Bool-cases}
use dynamic_config_remote.Common.Lists.{All}
use dynamic_config_remote.Common.Texts.{
  Text, contains_char, is_digit, is_whitespace, trim_start, trim_end_by, trim,
}

-- The digits of `parse` for an unsigned type whose values are below the bound.
parse_digits : ℕ → ℕ → Text → Option ℕ
unfolding is_digit
parse_digits bound acc [] = some acc
parse_digits bound acc (c ∷ s) =
    let n = acc * 10 + (c - b'0') in
    let rest = parse_digits bound n s in if is_digit c && ltb n bound then rest else none

-- `parse` for an unsigned type: one `+` may stand in front, and at least one digit follows.
unfoldable pub parse_unsigned : ℕ → Text → Option ℕ
unfolding parse_digits
parse_unsigned bound [] = none
parse_unsigned bound (c ∷ []) = if c == b'+' then none else parse_digits bound 0 (c ∷ [])
parse_unsigned bound (c ∷ d ∷ s) = parse_digits bound 0 (if c == b'+' then d ∷ s else c ∷ d ∷ s)

-- The decimal digits of a number in front of a text. The fuel is one more than the number, which
-- falls in every round but the last.
digits_onto : ℕ → ℕ → Text → Text
digits_onto zero n rest = rest
digits_onto (suc fuel) n rest =
    let digit = b'0' + n % 10 in
    let more = digits_onto fuel (n / 10) (digit ∷ rest) in if ltb n 10 then digit ∷ rest else more

-- `Display` of an unsigned number.
unfoldable pub decimal : ℕ → Text
unfolding digits_onto
decimal n = digits_onto (suc n) n []

digits_onto_plain :
    (c fuel n : ℕ) (rest : Text)
    → is_digit c ≡ false
    → contains_char c rest ≡ false
    → contains_char c (digits_onto fuel n rest) ≡ false
unfolding digits_onto contains_char is_digit
digits_onto_plain c zero n rest hc h = h
digits_onto_plain c (suc fuel) n rest hc h =
    let here : contains_char c ((b'0' + n % 10) ∷ rest) ≡ false = ground arith in
    ground (arith, here, digits_onto_plain c fuel (n / 10) ((b'0' + n % 10) ∷ rest) hc here)

-- A printed number holds digits and nothing else.
pub contains_char-decimal : (c n : ℕ) → is_digit c ≡ false → contains_char c (decimal n) ≡ false
unfolding decimal contains_char
contains_char-decimal c n h = digits_onto_plain c (suc n) n [] h refl

nonempty_digits : (fuel n : ℕ) (rest : Text) → rest ≢ [] → digits_onto fuel n rest ≢ []
unfolding digits_onto
nonempty_digits zero n rest h = h
nonempty_digits (suc fuel) n rest h =
    ground (arith, nonempty_digits fuel (n / 10) ((b'0' + n % 10) ∷ rest) (λ e. cc))

parse_digit :
    (bound acc n : ℕ) (rest : Text)
    → n ≡ acc * 10 + n % 10
    → n < bound
    → parse_digits bound acc ((b'0' + n % 10) ∷ rest) ≡ parse_digits bound n rest
unfolding parse_digits is_digit
parse_digit bound acc n rest last below =
    let same : acc * 10 + (b'0' + n % 10 - b'0') ≡ n = omega (arith, last) in
    let digit : is_digit (b'0' + n % 10) ≡ true = ground arith in
    let small : ltb n bound ≡ true = ground arith in rw (same, digit, small) refl

parse_digits-digits_onto :
    (bound fuel n : ℕ) (rest : Text)
    → n < fuel
    → n < bound
    → parse_digits bound 0 (digits_onto fuel n rest) ≡ parse_digits bound n rest
unfolding digits_onto
parse_digits-digits_onto bound zero n rest enough below = absurd (omega arith)
parse_digits-digits_onto bound (suc fuel) n rest enough below = elim (Bool-cases (ltb n 10)) [
  | inl small ↦ rw small (parse_digit bound 0 n rest (ground arith) below)
  | inr large ↦ rw large (
      parse_digits-digits_onto bound fuel (n / 10) ((b'0' + n % 10) ∷ rest) (ground arith)
        (ground arith)
      ∙ parse_digit bound (n / 10) n rest (omega arith) below)
]

-- A text of digits, as they are printed.
digits_onto-All :
    (fuel n : ℕ) (rest : Text)
    → All (λ c. is_digit c ≡ true) rest
    → All (λ c. is_digit c ≡ true) (digits_onto fuel n rest)
unfolding digits_onto is_digit
digits_onto-All zero n rest h = h
digits_onto-All (suc fuel) n rest h =
    let digit : is_digit (b'0' + n % 10) ≡ true = ground arith in
    elim (Bool-cases (ltb n 10)) [
      | inl small ↦ rw small (digit, h)
      | inr large ↦ rw large (digits_onto-All fuel (n / 10) ((b'0' + n % 10) ∷ rest) (digit, h))
    ]

trim_digits : (s : Text) → All (λ c. is_digit c ≡ true) s → trim s ≡ s
unfolding trim trim_start trim_end_by is_whitespace is_digit
trim_digits s h = ap (trim_end_by is_whitespace) (start s h) ∙ end s h
  where
    start : (s : Text) → All (λ c. is_digit c ≡ true) s → trim_start s ≡ s
    start [] h = refl
    start (c ∷ s) (digit, h) = ground arith

    end : (s : Text) → All (λ c. is_digit c ≡ true) s → trim_end_by is_whitespace s ≡ s
    end [] h = refl
    end (c ∷ []) (digit, h) = ground arith
    end (c ∷ d ∷ s) (digit, h) = rw (end (d ∷ s) h) refl

parse_digit_text :
    (bound : ℕ) (s : Text)
    → All (λ c. is_digit c ≡ true) s
    → s ≢ []
    → parse_unsigned bound s ≡ parse_digits bound 0 s
unfolding parse_unsigned is_digit
parse_digit_text bound [] h given = absurd (given refl)
parse_digit_text bound (c ∷ []) (digit, h) given = ground arith
parse_digit_text bound (c ∷ d ∷ s) (digit, h) given =
    let plain : (c == b'+') ≡ false = ground arith in rw plain refl

decimal-All : (n : ℕ) → All (λ c. is_digit c ≡ true) (decimal n)
unfolding decimal
decimal-All n = digits_onto-All (suc n) n [] tt

decimal_given : (n : ℕ) → decimal n ≢ []
unfolding decimal digits_onto
decimal_given n = elim (Bool-cases (ltb n 10)) [
  | inl small ↦ rw small (λ e. cc)
  | inr large ↦ rw large (nonempty_digits n (n / 10) ((b'0' + n % 10) ∷ []) (λ e. cc))
]

-- What is printed is read back, as long as the type holds it.
pub parse_unsigned-decimal : (bound n : ℕ) → n < bound → parse_unsigned bound (decimal n) ≡ some n
unfolding decimal parse_digits
parse_unsigned-decimal bound n below =
    parse_digit_text bound (decimal n) (decimal-All n) (decimal_given n)
    ∙ parse_digits-digits_onto bound (suc n) n [] (omega arith) below

pub trim-decimal : (n : ℕ) → trim (decimal n) ≡ decimal n
trim-decimal n = trim_digits (decimal n) (decimal-All n)
