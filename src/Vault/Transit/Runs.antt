-- ===== src/Vault/Transit/Runs.antt =====
-- dynamic-config-vault/src/transit.rs: where the ciphertexts of a document stand in it.
use dynamic_config_remote.Common.{
  ℕ, zero, suc, ◌≡◌, refl, sym, ap, ◌∙◌, true, false, List, [], ◌∷◌, ◌++◌, Option, none, some, Text,
  All, split_at_text, strip_prefix, strip_prefix-eq-some, strip_prefix-append, Option-cases,
  Bool-cases, inl, inr, arith, subst, contains_text, if◌then◌else◌, length, ◌<◌, ◌≤◌, ◌+◌,
}
use dynamic_config_remote.Vault.Transit.{marker, is_cipher, span_cipher, listed, ciphertexts_in}

-- A text that begins with another one.
abbrev pub Begins : Text → Text → Type 0
Begins p s = (rest : Text) × (s ≡ p ++ rest)

-- The text stands nowhere in the other one.
abbrev pub Lacks : Text → Text → Type 0
Lacks p [] = ¬ Begins p []
Lacks p (c ∷ s) = ¬ Begins p (c ∷ s) × Lacks p s

-- The text does not stand at any place of the other one that is before its rest.
abbrev pub FirstAfter : Text → Text → Text → Type 0
FirstAfter p [] rest = Unit
FirstAfter p (c ∷ before) rest = ¬ Begins p (c ∷ before ++ rest) × FirstAfter p before rest

-- A ciphertext goes no further.
abbrev pub IsEnd : Text → Type 0
IsEnd [] = Unit
IsEnd (c ∷ s) = is_cipher c ≡ false

-- The ciphertexts of a document from the left, each as often as it stands there: behind a marker, as
-- many of the characters of a ciphertext as there are, and one at least.
pub data Runs : Text → List Text → Type 0 where
  over : (rest : Text) → Lacks marker rest → Runs rest []
  bare :
      (before tail : Text) (runs : List Text)
      → FirstAfter marker before (marker ++ tail)
      → IsEnd tail
      → Runs tail runs
      → Runs (before ++ (marker ++ tail)) runs
  run :
      (before : Text) (c : ℕ) (body tail : Text) (runs : List Text)
      → FirstAfter marker before (marker ++ (c ∷ body ++ tail))
      → All (λ d. is_cipher d ≡ true) (c ∷ body)
      → IsEnd tail
      → Runs tail runs
      → Runs (before ++ (marker ++ (c ∷ body ++ tail))) ((marker ++ c ∷ body) ∷ runs)

-- What is left of a list where each text is kept the first time only, behind those of another list.
abbrev pub kept_once : List Text → List Text → List Text
kept_once seen [] = seen
kept_once seen (t ∷ ts) =
    if contains_text t seen then kept_once seen ts else kept_once (seen ++ t ∷ []) ts

none_differs {ℓ} : {A : Type ℓ} {a : A} → ◌≡◌ {A = Option A} none (some a) → ⊥
none_differs h = cc

some_same {ℓ} : {A : Type ℓ} {a b : A} → ◌≡◌ {A = Option A} (some a) (some b) → a ≡ b
some_same h = cc

not-Begins : (p s : Text) → strip_prefix p s ≡ none → ¬ Begins p s
not-Begins p s missed (rest, here) =
    none_differs (sym missed ∙ (ap (strip_prefix p) here ∙ strip_prefix-append p rest))

split_at_text-Lacks : (p s : Text) → split_at_text p s ≡ none → Lacks p s
unfolding split_at_text
split_at_text-Lacks p [] h = elim (Option-cases (strip_prefix p [])) [
  | inr (rest, here) ↦ absurd (none_differs (sym (rw (split_at_text, here) at h)))
  | inl missed ↦ not-Begins p [] missed
]
split_at_text-Lacks p (d ∷ s) h = elim (Option-cases (strip_prefix p (d ∷ s))) [
  | inr (rest, here) ↦ absurd (none_differs (sym (rw (split_at_text, here) at h)))
  | inl missed ↦ elim (Option-cases (split_at_text p s)) [
    | inl later ↦ (not-Begins p (d ∷ s) missed, split_at_text-Lacks p s later)
    | inr ((b, a), later) ↦ absurd (none_differs (sym (rw (split_at_text, missed, later) at h)))
  ]
]

-- Where the first place is, as `split_at_text` says it.
abbrev IsFirst : Text → Text → Text × Text → Type 0
IsFirst p s (before, after) = (s ≡ before ++ (p ++ after)) × FirstAfter p before (p ++ after)

split_at_text-IsFirst :
    (p s : Text) (parts : Text × Text) → split_at_text p s ≡ some parts → IsFirst p s parts
unfolding split_at_text
split_at_text-IsFirst p [] parts h = elim (Option-cases (strip_prefix p [])) [
  | inl missed ↦ absurd (none_differs (rw (split_at_text, missed) at h))
  | inr (rest, here) ↦
      subst (IsFirst p []) (some_same (rw (split_at_text, here) at h))
        (strip_prefix-eq-some p [] rest here, tt)
]
split_at_text-IsFirst p (d ∷ s) parts h = elim (Option-cases (strip_prefix p (d ∷ s))) [
  | inr (rest, here) ↦
      subst (IsFirst p (d ∷ s)) (some_same (rw (split_at_text, here) at h))
        (strip_prefix-eq-some p (d ∷ s) rest here, tt)
  | inl missed ↦ elim (Option-cases (split_at_text p s)) [
    | inl none_later ↦ absurd (none_differs (rw (split_at_text, missed, none_later) at h))
    | inr ((before, after), later) ↦
        let (parted, first) = split_at_text-IsFirst p s (before, after) later in
        subst (IsFirst p (d ∷ s)) (some_same (rw (split_at_text, missed, later) at h)) (
          ap (◌∷◌ d) parted,
          (subst (λ u. ¬ Begins p (d ∷ u)) parted (not-Begins p (d ∷ s) missed), first),
        )
  ]
]

span_cipher_lem :
    (s : Text) → (s ≡ (span_cipher s).0 ++ (span_cipher s).1) × IsEnd (span_cipher s).1
unfolding span_cipher
span_cipher_lem [] = (refl, tt)
span_cipher_lem (c ∷ s) = elim (Bool-cases (is_cipher c)) [
  | inl inside ↦ rw (span_cipher, inside) (ap (◌∷◌ c) (span_cipher_lem s).0, (span_cipher_lem s).1)
  | inr outside ↦ rw (span_cipher, outside) (refl, outside)
]

pub span_cipher-All : (s : Text) → All (λ d. is_cipher d ≡ true) (span_cipher s).0
unfolding span_cipher
span_cipher-All [] = tt
span_cipher-All (c ∷ s) = elim (Bool-cases (is_cipher c)) [
  | inl inside ↦ rw (span_cipher, inside) (inside, span_cipher-All s)
  | inr outside ↦ rw (span_cipher, outside) tt
]

strip_prefix-length :
    (p s rest : Text) → strip_prefix p s ≡ some rest → length s ≡ length p + length rest
unfolding strip_prefix
strip_prefix-length [] s rest h = ground arith
strip_prefix-length (c ∷ p) [] rest h = cc
strip_prefix-length (c ∷ p) (d ∷ s) rest h = ground (arith, strip_prefix-length p s rest)

pub split_at_text-length :
    (p s before after : Text)
    → split_at_text p s ≡ some (before, after)
    → length p + length after ≤ length s
unfolding split_at_text
split_at_text-length p [] before after h = elim (Option-cases (strip_prefix p [])) [
  | inl missed ↦ ground arith
  | inr (rest, here) ↦ ground (arith, strip_prefix-length p [] rest here)
]
split_at_text-length p (d ∷ s) before after h = elim (Option-cases (strip_prefix p (d ∷ s))) [
  | inr (rest, here) ↦ ground (arith, strip_prefix-length p (d ∷ s) rest here)
  | inl missed ↦ elim (Option-cases (split_at_text p s)) [
    | inl none_later ↦ ground arith
    | inr ((b, a), later) ↦ ground (arith, split_at_text-length p s b a later)
  ]
]

pub length-span_cipher : (s : Text) → length (span_cipher s).1 ≤ length s
unfolding span_cipher
length-span_cipher [] = omega arith
length-span_cipher (c ∷ s) = ground (arith, length-span_cipher s)

-- What stands behind the first marker, and what the search of the rest lists.
follow_run :
    (before body tail : Text) (found listing : List Text)
    → FirstAfter marker before (marker ++ (body ++ tail))
    → All (λ d. is_cipher d ≡ true) body
    → IsEnd tail
    → ((runs : List Text) × Runs tail runs × (listing ≡ kept_once (listed body found) runs))
    → (runs : List Text) × Runs (before ++ (marker ++ (body ++ tail))) runs
      × (listing ≡ kept_once found runs)
follow_run before [] tail found listing first inside ends (runs, later, same) =
    (runs, bare before tail runs first ends later, same)
follow_run before (c ∷ body) tail found listing first inside ends (runs, later, same) = (
  (marker ++ c ∷ body) ∷ runs,
  run before c body tail runs first inside ends later,
  elim (Bool-cases (contains_text (marker ++ c ∷ body) found)) [
    | inl again ↦ rw again (same ∙ rw again refl)
    | inr new ↦ rw new (same ∙ rw new refl)
  ],
)

-- With fuel above the length of the rest, a search lists the ciphertexts that stand there.
pub ciphertexts_in-Runs :
    (fuel : ℕ) (rest : Text) (found : List Text)
    → length rest < fuel
    → (runs : List Text) × Runs rest runs × (ciphertexts_in fuel rest found ≡ kept_once found runs)
unfolding ciphertexts_in
ciphertexts_in-Runs zero rest found h = absurd (omega arith)
ciphertexts_in-Runs (suc fuel) rest found h = elim (Option-cases (split_at_text marker rest)) [
  | inl nowhere ↦
      ([], over rest (split_at_text-Lacks marker rest nowhere), rw (ciphertexts_in, nowhere) refl)
  | inr ((before, after), here) ↦
      let (parted, first) = split_at_text-IsFirst marker rest (before, after) here in
      let (spanned, ends) = span_cipher_lem after in
      let shorter = split_at_text-length marker rest before after here in
      let shrunk = length-span_cipher after in
      let whole : rest ≡ before ++ (marker ++ ((span_cipher after).0 ++ (span_cipher after).1)) =
        parted ∙ ap (λ a. before ++ (marker ++ a)) spanned in
      let (runs, stand, same) =
        follow_run before (span_cipher after).0 (span_cipher after).1 found _
          (subst (λ a. FirstAfter marker before (marker ++ a)) spanned first)
          (span_cipher-All after) ends
          (ciphertexts_in-Runs fuel (span_cipher after).1 (listed (span_cipher after).0 found)
            (omega (arith, shorter, shrunk))) in
      (runs, subst (λ t. Runs t runs) (sym whole) stand, rw (ciphertexts_in, here) same)
]
