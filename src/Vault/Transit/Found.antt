-- ===== src/Vault/Transit/Found.antt =====
-- What is taken for a ciphertext.
use dynamic_config_remote.Common.{
  All-snoc, ℕ, zero, suc, ◌+◌, ◌<◌, ◌≡◌, refl, sym, true, false, List, [], ◌∷◌, ◌++◌, Text, text_eq,
  text_eq_iff, length, All, contains_text, contains_text-append, split_at_text, Option-cases,
  Bool-cases, inl, inr, arith,
}
use dynamic_config_remote.Vault.Transit.Runs.{
  Runs, kept_once, span_cipher-All, split_at_text-length, length-span_cipher, ciphertexts_in-Runs,
}
use dynamic_config_remote.Vault.Transit.{
  marker, is_cipher, span_cipher, listed, ciphertexts_in, ciphertexts,
}

-- A ciphertext: the marker and at least one more of its characters.
abbrev pub IsCiphertext : Text → Type 0
IsCiphertext t =
    (c : ℕ) × (body : Text) × (t ≡ marker ++ c ∷ body) × All (λ d. is_cipher d ≡ true) (c ∷ body)

-- None is listed twice.
abbrev pub Distinct : List Text → Type 0
Distinct [] = Unit
Distinct (x ∷ xs) = (contains_text x xs ≡ false) × Distinct xs

text_eq_sym : (s t : Text) → text_eq s t ≡ false → text_eq t s ≡ false
text_eq_sym s t h = elim (Bool-cases (text_eq t s)) [
  | inr other ↦ other
  | inl same ↦ ground (arith, text_eq_iff s t, sym ((text_eq_iff t s).0 same))
]

Distinct-snoc :
    (xs : List Text) (x : Text) → Distinct xs → contains_text x xs ≡ false → Distinct (xs ++ x ∷ [])
unfolding contains_text
Distinct-snoc [] x d h = (refl, tt)
Distinct-snoc (y ∷ xs) x (apart, d) h =
    (fresh y xs x apart h, Distinct-snoc xs x d (later y xs x h))
  where
    later :
        (y : Text) (xs : List Text) (x : Text)
        → contains_text x (y ∷ xs) ≡ false
        → contains_text x xs ≡ false
    later y xs x h = ground arith

    fresh :
        (y : Text) (xs : List Text) (x : Text)
        → contains_text y xs ≡ false
        → contains_text x (y ∷ xs) ≡ false
        → contains_text y (xs ++ x ∷ []) ≡ false
    fresh y xs x apart h =
        let other : text_eq x y ≡ false = text_eq_sym y x (ground arith) in
        rw (contains_text-append y xs (x ∷ []), apart, other) refl

listed_sound :
    (body : Text) (found : List Text)
    → All (λ d. is_cipher d ≡ true) body
    → All IsCiphertext found
    → Distinct found
    → All IsCiphertext (listed body found) × Distinct (listed body found)
listed_sound [] found h a d = (a, d)
listed_sound (c ∷ body) found h a d = elim (Bool-cases (contains_text (marker ++ c ∷ body) found)) [
  | inl again ↦ rw again (a, d)
  | inr new ↦ rw new (
    All-snoc IsCiphertext found (marker ++ c ∷ body) a (c, body, refl, h),
    Distinct-snoc found (marker ++ c ∷ body) d new,
  )
]

ciphertexts_in_sound :
    (fuel : ℕ) (rest : Text) (found : List Text)
    → All IsCiphertext found
    → Distinct found
    → All IsCiphertext (ciphertexts_in fuel rest found) × Distinct (ciphertexts_in fuel rest found)
unfolding ciphertexts_in
ciphertexts_in_sound zero rest found a d = (a, d)
ciphertexts_in_sound (suc fuel) rest found a d = elim (Option-cases (split_at_text marker rest)) [
  | inl over ↦ rw (ciphertexts_in, over) (a, d)
  | inr ((before, after), here) ↦
      let (a', d') = listed_sound (span_cipher after).0 found (span_cipher-All after) a d in
      rw (ciphertexts_in, here)
        (ciphertexts_in_sound fuel (span_cipher after).1 (listed (span_cipher after).0 found) a' d')
]

-- What a document is searched for are the ciphertexts that stand in it, none left out and none cut
-- short: from the left, each marker and all the characters of a ciphertext behind it, of which there is
-- one at least. Each is listed once, however often it stands in the document, where it stands first.
pub ciphertexts-IsCiphertext :
    (document : Text)
    → ((runs : List Text) × Runs document runs × (ciphertexts document ≡ kept_once [] runs))
      × All IsCiphertext (ciphertexts document)
      × Distinct (ciphertexts document)
unfolding ciphertexts
ciphertexts-IsCiphertext document =
    let (all, distinct) = ciphertexts_in_sound (suc (length document)) document [] tt tt in
    (ciphertexts_in-Runs (suc (length document)) document [] (omega arith), all, distinct)

-- With fuel above the length of the document the search ends by running out of document, never of
-- fuel: with more of it the result is the same.
pub ciphertexts_in_fuel :
    (fuel more : ℕ) (rest : Text) (found : List Text)
    → length rest < fuel
    → ciphertexts_in (fuel + more) rest found ≡ ciphertexts_in fuel rest found
unfolding ciphertexts_in
ciphertexts_in_fuel zero more rest found h = absurd (omega arith)
ciphertexts_in_fuel (suc fuel) more rest found h =
    let same : suc fuel + more ≡ suc (fuel + more) = omega arith in
    rw same (elim (Option-cases (split_at_text marker rest)) [
      | inl over ↦ rw (ciphertexts_in, over) refl
      | inr ((before, after), here) ↦
          let shorter = split_at_text-length marker rest before after here in
          let tail = length-span_cipher after in
          rw (ciphertexts_in, here)
            (ciphertexts_in_fuel fuel more (span_cipher after).1
              (listed (span_cipher after).0 found) (omega (arith, shorter, tail)))
    ])
