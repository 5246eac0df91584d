-- ===== src/Common/Texts.antt =====
-- Rust's `str`, as its list of Unicode scalar values, with the standard library's splits and trims.
use Prim.Native.Nat.{ℕ, ◌+◌}
use Prim.Native.Char.{code}
use Prim.Native.String.{String}
use mathlib.Core.Path.{◌≡◌, refl}
use mathlib.Core.Logic.{◌↔◌, inl, inr}
use mathlib.Core.Bool.{Bool, true, false, ◌&&◌, ◌||◌}
use mathlib.Core.Option
use mathlib.Core.Option.{Option, none, some}
use mathlib.Core.List.{List, [], ◌∷◌, ◌++◌, map}
use native.Mathlib.Omega.{arith}
use dynamic_config_remote.Common.Tests.{ltb, leb, ◌==◌, if◌then◌else◌, Option-cases}

abbrev pub Text : Type 0
Text = List ℕ

-- A literal of the source. It is shut, so that a long message stays folded in a proof.
unfoldable pub text : String → Text
text String.[] = []
text (String.◌∷◌ c s) = code c ∷ text s

unfoldable pub text_eq : Text → Text → Bool
text_eq [] [] = true
text_eq (c ∷ s) (d ∷ t) = c == d && text_eq s t
text_eq _ _ = false

pub text_eq_iff : (s t : Text) → (text_eq s t ≡ true) ↔ (s ≡ t)
unfolding text_eq
text_eq_iff [] [] = ground arith
text_eq_iff [] (d ∷ t) = ground arith
text_eq_iff (c ∷ s) [] = ground arith
text_eq_iff (c ∷ s) (d ∷ t) = ground (arith, text_eq_iff s t)

pub text_eq_refl : (s : Text) → text_eq s s ≡ true
text_eq_refl s = (text_eq_iff s s).1 refl

unfoldable pub contains_char : ℕ → Text → Bool
contains_char c [] = false
contains_char c (d ∷ s) = d == c || contains_char c s

pub contains_char-append :
    (c : ℕ) (s t : Text) → contains_char c (s ++ t) ≡ (contains_char c s || contains_char c t)
unfolding contains_char
contains_char-append c [] t = refl
contains_char-append c (d ∷ s) t = ground (arith, contains_char-append c s t)

abbrev push_front : ℕ → Text × Text → Text × Text
push_front d (a, b) = (d ∷ a, b)

-- `split_once(c)`: at the first `c`.
unfoldable pub split_once : ℕ → Text → Option (Text × Text)
split_once c [] = none
split_once c (d ∷ s) = if d == c then some ([], s) else Option.map (push_front d) (split_once c s)

pub split_once-append :
    (c : ℕ) (a b : Text) → contains_char c a ≡ false → split_once c (a ++ c ∷ b) ≡ some (a, b)
unfolding split_once contains_char
split_once-append c [] b h = ground arith
split_once-append c (d ∷ a) b h = ground (arith, split_once-append c a b)

pub split_once-eq-some :
    (c : ℕ) (s a b : Text)
    → split_once c s ≡ some (a, b)
    → (s ≡ a ++ c ∷ b) × (contains_char c a ≡ false)
unfolding split_once contains_char
split_once-eq-some c [] a b h = cc
split_once-eq-some c (d ∷ s) a b h = elim (Option-cases (split_once c s)) [
  | inl missed ↦ ground arith
  | inr ((a', b'), found) ↦ ground (arith, split_once-eq-some c s a' b' found)
]

pub no_char_of_split_once : (c : ℕ) (s : Text) → split_once c s ≡ none → contains_char c s ≡ false
unfolding split_once contains_char
no_char_of_split_once c [] h = refl
no_char_of_split_once c (d ∷ s) h = ground (arith, no_char_of_split_once c s)

pub split_once-eq-none : (c : ℕ) (s : Text) → contains_char c s ≡ false → split_once c s ≡ none
unfolding split_once contains_char
split_once-eq-none c [] h = refl
split_once-eq-none c (d ∷ s) h = ground (arith, split_once-eq-none c s)

-- `rsplit_once(c)`: at the last `c`.
unfoldable pub rsplit_once : ℕ → Text → Option (Text × Text)
rsplit_once c [] = none
rsplit_once c (d ∷ s) = elim (rsplit_once c s) [
  | some p ↦ some (push_front d p)
  | none ↦ if d == c then some ([], s) else none
]

pub rsplit_once-eq-none : (c : ℕ) (s : Text) → contains_char c s ≡ false → rsplit_once c s ≡ none
unfolding rsplit_once contains_char
rsplit_once-eq-none c [] h = refl
rsplit_once-eq-none c (d ∷ s) h = ground (arith, rsplit_once-eq-none c s)

pub rsplit_once-append :
    (c : ℕ) (a b : Text) → contains_char c b ≡ false → rsplit_once c (a ++ c ∷ b) ≡ some (a, b)
unfolding rsplit_once
rsplit_once-append c [] b h = ground (arith, rsplit_once-eq-none c b h)
rsplit_once-append c (d ∷ a) b h = ground (arith, rsplit_once-append c a b h)

pub no_char_of_rsplit_once : (c : ℕ) (s : Text) → rsplit_once c s ≡ none → contains_char c s ≡ false
unfolding rsplit_once contains_char
no_char_of_rsplit_once c [] h = refl
no_char_of_rsplit_once c (d ∷ s) h = ground (arith, no_char_of_rsplit_once c s)

pub rsplit_once-eq-some :
    (c : ℕ) (s a b : Text)
    → rsplit_once c s ≡ some (a, b)
    → (s ≡ a ++ c ∷ b) × (contains_char c b ≡ false)
unfolding rsplit_once
rsplit_once-eq-some c [] a b h = cc
rsplit_once-eq-some c (d ∷ s) a b h = elim (Option-cases (rsplit_once c s)) [
  | inl missed ↦ ground (arith, no_char_of_rsplit_once c s missed)
  | inr ((a', b'), found) ↦ ground (arith, rsplit_once-eq-some c s a' b' found)
]

unfoldable pub strip_prefix : Text → Text → Option Text
strip_prefix [] s = some s
strip_prefix (p ∷ ps) [] = none
strip_prefix (p ∷ ps) (d ∷ s) = if d == p then strip_prefix ps s else none

pub strip_prefix-eq-some :
    (prefix key rest : Text) → strip_prefix prefix key ≡ some rest → key ≡ prefix ++ rest
unfolding strip_prefix
strip_prefix-eq-some [] key rest h = ground arith
strip_prefix-eq-some (c ∷ prefix) [] rest h = cc
strip_prefix-eq-some (c ∷ prefix) (d ∷ key) rest h =
    ground (arith, strip_prefix-eq-some prefix key rest)

pub strip_prefix-append : (prefix rest : Text) → strip_prefix prefix (prefix ++ rest) ≡ some rest
unfolding strip_prefix
strip_prefix-append [] rest = refl
strip_prefix-append (c ∷ prefix) rest = ground (arith, strip_prefix-append prefix rest)

-- `split_once(pattern)` for a text: at the first place where the pattern stands.
unfoldable pub split_at_text : Text → Text → Option (Text × Text)
unfolding strip_prefix
split_at_text pattern_ [] = Option.map (λ rest. ([], rest)) (strip_prefix pattern_ [])
split_at_text pattern_ (d ∷ s) = elim (strip_prefix pattern_ (d ∷ s)) [
  | some rest ↦ some ([], rest)
  | none ↦ Option.map (push_front d) (split_at_text pattern_ s)
]

push_piece : ℕ → List Text → List Text
push_piece d [] = (d ∷ []) ∷ []
push_piece d (p ∷ ps) = (d ∷ p) ∷ ps

-- `split(c)`: one piece more than there are `c`s.
unfoldable pub split : ℕ → Text → List Text
unfolding push_piece
split c [] = [] ∷ []
split c (d ∷ s) = let pieces = split c s in if d == c then [] ∷ pieces else push_piece d pieces

unfoldable pub join : Text → List Text → Text
join sep [] = []
join sep (p ∷ []) = p
join sep (p ∷ q ∷ ps) = p ++ (sep ++ join sep (q ∷ ps))

-- The scalar values with the Unicode property White_Space.
unfoldable pub is_whitespace : ℕ → Bool
is_whitespace c =
    (leb 9 c && leb c 13)
    || (c == 32 || c == 0x85 || c == 0xa0 || c == 0x1680 || (leb 0x2000 c && leb c 0x200a))
    || (c == 0x2028 || c == 0x2029 || c == 0x202f || c == 0x205f || c == 0x3000)

unfoldable pub trim_start : Text → Text
unfolding is_whitespace
trim_start [] = []
trim_start (c ∷ s) = if is_whitespace c then trim_start s else c ∷ s

-- What is kept at the end of a text whose last characters pass a test.
unfoldable pub trim_end_by : (ℕ → Bool) → Text → Text
trim_end_by p [] = []
trim_end_by p (c ∷ s) = elim (trim_end_by p s) [
  | [] ↦ if p c then [] else c ∷ []
  | d ∷ r ↦ c ∷ d ∷ r
]

unfoldable pub trim : Text → Text
unfolding trim_start trim_end_by
trim s = trim_end_by is_whitespace (trim_start s)

-- `str::len`: the bytes of the UTF-8 form.
unfoldable pub utf8_len : Text → ℕ
utf8_len [] = 0
utf8_len (c ∷ s) =
    (if ltb c 0x80 then 1 else if ltb c 0x800 then 2 else if ltb c 0x10000 then 3 else 4)
    + utf8_len s

unfoldable pub is_digit : ℕ → Bool
is_digit c = leb b'0' c && leb c b'9'

unfoldable pub is_ascii_alphanumeric : ℕ → Bool
unfolding is_digit
is_ascii_alphanumeric c = is_digit c || ((leb b'a' c && leb c b'z') || (leb b'A' c && leb c b'Z'))

unfoldable pub ascii_lower : ℕ → ℕ
ascii_lower c = if leb b'A' c && leb c b'Z' then c + 32 else c

unfoldable pub eq_ignore_ascii_case : Text → Text → Bool
unfolding ascii_lower text_eq
eq_ignore_ascii_case s t = text_eq (map ascii_lower s) (map ascii_lower t)

-- `trim_start_matches(c)` and `trim_end_matches(c)`
unfoldable pub trim_start_char : ℕ → Text → Text
trim_start_char c [] = []
trim_start_char c (d ∷ s) = let rest = trim_start_char c s in if d == c then rest else d ∷ s

unfoldable pub trim_end_char : ℕ → Text → Text
unfolding trim_end_by
trim_end_char c s = trim_end_by (λ d. d == c) s

unfoldable pub ends_with_char : ℕ → Text → Bool
ends_with_char c [] = false
ends_with_char c (d ∷ []) = d == c
ends_with_char c (d ∷ x ∷ s) = ends_with_char c (x ∷ s)
