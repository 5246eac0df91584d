-- ===== src/Store/Documents/Formats.antt =====
-- `agreed_format` decides whether the extensions of the keys agree.
use dynamic_config_remote.Common.{
  ◌≡◌, ◌≢◌, ◌↔◌, refl, subst, List, [], ◌∷◌, Option, none, some, Text, inl, inr, ok, arith, All,
  Option-cases, Result-cases,
}
use dynamic_config_remote.Engine.{Engine}
use dynamic_config_remote.Store.Documents.{agree, agreed_format}

module _ (e : Engine) where
  open e use {Format}

  -- The formats that the keys name, in order.
  abbrev pub formats : List Text → List Format
  formats [] = []
  formats (key ∷ keys) = elim (e.from_key key) [
    | none ↦ formats keys
    | some format ↦ format ∷ formats keys
  ]

  started_sound :
      (keys : List Text) (p : Text × Format) (r : Option (Text × Format))
      → agree e (some p) keys ≡ ok r
      → (r ≡ some p) × All (λ f. f ≡ p.1) (formats keys)
  unfolding agree
  started_sound [] p r h = ground arith
  started_sound (key ∷ keys) p r h = elim (Option-cases (e.from_key key)) [
    | inl silent ↦ ground (arith, started_sound keys p r)
    | inr (format, named) ↦ ground (arith, started_sound keys p r, e.format_eq_iff p.1 format)
  ]

  started_complete :
      (keys : List Text) (p : Text × Format)
      → All (λ f. f ≡ p.1) (formats keys)
      → agree e (some p) keys ≡ ok (some p)
  unfolding agree
  started_complete [] p h = refl
  started_complete (key ∷ keys) p h = elim (Option-cases (e.from_key key)) [
    | inl silent ↦ ground (arith, started_complete keys p)
    | inr (format, named) ↦ ground (arith, started_complete keys p, e.format_eq_iff p.1 format)
  ]

  silent_sound : (keys : List Text) → agree e none keys ≡ ok none → formats keys ≡ []
  unfolding agree
  silent_sound [] h = refl
  silent_sound (key ∷ keys) h = elim (Option-cases (e.from_key key)) [
    | inl silent ↦ ground (arith, silent_sound keys)
    | inr (format, named) ↦ ground (arith, started_sound keys (key, format) none)
  ]

  silent_complete : (keys : List Text) → formats keys ≡ [] → agree e none keys ≡ ok none
  unfolding agree
  silent_complete [] h = refl
  silent_complete (key ∷ keys) h = elim (Option-cases (e.from_key key)) [
    | inl silent ↦ ground (arith, silent_complete keys)
    | inr (format, named) ↦ ground arith
  ]

  named_sound :
      (keys : List Text) (p : Text × Format)
      → agree e none keys ≡ ok (some p)
      → (formats keys ≢ []) × All (λ f. f ≡ p.1) (formats keys)
  unfolding agree
  named_sound [] p h = cc
  named_sound (key ∷ keys) p h = elim (Option-cases (e.from_key key)) [
    | inl silent ↦ ground (arith, named_sound keys p)
    | inr (format, named) ↦ ground (arith, started_sound keys (key, format) (some p))
  ]

  named_rest :
      (key : Text) (keys : List Text) (format first : Format)
      → e.from_key key ≡ some first
      → All (λ f. f ≡ format) (formats (key ∷ keys))
      → (first ≡ format) × All (λ f. f ≡ format) (formats keys)
  named_rest key keys format first named h = rw (named, formats) at h

  named_complete :
      (keys : List Text) (format : Format)
      → formats keys ≢ []
      → All (λ f. f ≡ format) (formats keys)
      → (key : Text) × (agree e none keys ≡ ok (some (key, format)))
  unfolding agree
  named_complete [] format some_named h = absurd (some_named refl)
  named_complete (key ∷ keys) format some_named h = elim (Option-cases (e.from_key key)) [
    | inl silent ↦
        let (found, same) = named_complete keys format (ground arith) (ground arith) in
        (found, ground arith)
    | inr (first, named) ↦
        let (same, rest) = named_rest key keys format first named h in
        (key, rw (named, agree, same) (started_complete keys (key, format) rest))
  ]

  agreed_silent : (keys : List Text) → agreed_format e keys ≡ ok none → formats keys ≡ []
  unfolding agreed_format
  agreed_silent keys h = silent_sound keys (ground arith)

  agreed_silent_complete : (keys : List Text) → formats keys ≡ [] → agreed_format e keys ≡ ok none
  unfolding agreed_format
  agreed_silent_complete keys h = rw (silent_complete keys h) refl

  agreed_named :
      (keys : List Text) (format : Format)
      → agreed_format e keys ≡ ok (some format)
      → (formats keys ≢ []) × All (λ f. f ≡ format) (formats keys)
  unfolding agreed_format
  agreed_named keys format h = elim (Result-cases (agree e none keys)) [
    | inl (some (named, f), same) ↦
        let f_is : f ≡ format = ground arith in
        subst (λ g. (formats keys ≢ []) × All (λ x. x ≡ g) (formats keys)) f_is
          (named_sound keys (named, f) same)
    | inl (none, same) ↦ ground arith
    | inr (error, failed) ↦ ground arith
  ]

  agreed_named_complete :
      (keys : List Text) (format : Format)
      → formats keys ≢ []
      → All (λ f. f ≡ format) (formats keys)
      → agreed_format e keys ≡ ok (some format)
  unfolding agreed_format
  agreed_named_complete keys format some_named h =
      let (key, same) = named_complete keys format some_named h in rw same refl

  -- `Ok(None)` exactly where no key names a format, and `Ok(Some(format))` exactly where some key
  -- does and every key that names one names this one. In every other case two keys disagree.
  pub agreed_format_iff :
      (keys : List Text) (format : Format)
      → ((agreed_format e keys ≡ ok none) ↔ (formats keys ≡ []))
        × ((agreed_format e keys ≡ ok (some format))
            ↔ ((formats keys ≢ []) × All (λ f. f ≡ format) (formats keys)))
  agreed_format_iff keys format = (
    (agreed_silent keys, agreed_silent_complete keys),
    (agreed_named keys format, λ h. agreed_named_complete keys format h.0 h.1),
  )
