-- ===== src/Nats/Watch/Written.antt =====
-- What a watch of a key delivers, and how it ends.
use dynamic_config_remote.Common.{
  ℕ, ◌≡◌, ◌⊎◌, inl, inr, refl, sym, ◌∙◌, ap, List, [], ◌∷◌, Text, text, ◌++◌, Result, ok, err,
  Result-cases,
}
use dynamic_config_remote.Engine.{Engine, Documents}
use dynamic_config_remote.Store.Attempts.{Trace, Callback, returned, caught, failed, guarded}
use dynamic_config_remote.Store.Attempts.Traces.{delivered-failed}
use dynamic_config_remote.Nats.{Nats, complaint}
use dynamic_config_remote.Nats.Watch.{
  Operation, Entry, put, delete, purge, document, on_put, on_entry, follow,
}

Operation-cases : (o : Operation) → (o ≡ put) ⊎ ((o ≡ delete) ⊎ (o ≡ purge))
Operation-cases put = inl refl
Operation-cases delete = inr (inl refl)
Operation-cases purge = inr (inr refl)

module _ (e : Engine) (from_utf8 : List ℕ → Result Text Text) (debug_duration : ℕ → Text)
    (d : Documents e) (on_change : Callback e d) (n : Nats e from_utf8 debug_duration) where
  open e use {Error, Format}
  open d use {Fetched}

  -- The callback takes every document.
  abbrev pub Accepts : Type 0
  Accepts = (earlier : List Fetched) (x : Fetched) → on_change earlier x ≡ returned (ok tt)

  -- The documents that were put, up to the first item that cannot be read.
  abbrev pub written : Format → List (Result Entry Text) → List Fetched
  written format [] = []
  written format (err error ∷ entries) = []
  written format (ok entry ∷ entries) =
      let later = written format entries in
      elim entry.operation [
        | delete ↦ later
        | purge ↦ later
        | put ↦ elim (from_utf8 entry.value) [
          | err error ↦ []
          | ok body ↦ d.with_revision (d.counter entry.revision) (d.fetched body format) ∷ later
        ]
      ]

  -- What was delivered, newest first.
  abbrev pub onto : List Fetched → List Fetched → List Fetched
  onto [] earlier = earlier
  onto (x ∷ xs) earlier = onto xs (x ∷ earlier)

  abbrev Delivers : Format → Trace e d → List (Result Entry Text) → Type 0
  Delivers format trace entries =
      let (after, answer) = follow e from_utf8 debug_duration d on_change n format trace entries in
      (after.delivered ≡ onto (written format entries) trace.delivered)
      × ((error : Error) × (answer ≡ err error))

  follow_on :
      (format : Format) (trace after : Trace e d) (entry : Result Entry Text)
      (entries : List (Result Entry Text))
      → on_entry e from_utf8 debug_duration d on_change n format trace entry ≡ (after, ok tt)
      → follow e from_utf8 debug_duration d on_change n format trace (entry ∷ entries)
        ≡ follow e from_utf8 debug_duration d on_change n format after entries
  unfolding follow
  follow_on format trace after entry entries steps = simp (follow, steps)

  follow_over :
      (format : Format) (trace after : Trace e d) (entry : Result Entry Text)
      (entries : List (Result Entry Text)) (error : Error)
      → on_entry e from_utf8 debug_duration d on_change n format trace entry ≡ (after, err error)
      → follow e from_utf8 debug_duration d on_change n format trace (entry ∷ entries)
        ≡ (after, err error)
  unfolding follow
  follow_over format trace after entry entries error steps = simp (follow, steps)

  -- With a callback that takes every document, a watch delivers exactly what was put into the key, in
  -- the order of the stream and each with its revision, up to the first item that cannot be read;
  -- deletions are passed over. And it never ends well: a stream that closes is an error.
  pub follow-written :
      Accepts
      → (format : Format) (trace : Trace e d) (entries : List (Result Entry Text))
      → Delivers format trace entries
  unfolding follow on_entry on_put document guarded caught
  follow-written accepts format trace [] = (delivered-failed e d n.attempts _ trace, (_, refl))
  follow-written accepts format trace (err error ∷ entries) =
      (delivered-failed e d n.attempts _ trace, (_, refl))
  follow-written accepts format trace (ok entry ∷ entries) =
      let later = follow-written accepts format trace entries in
      elim (Operation-cases entry.operation) [
        | inr (inl deleted) ↦ rw (on_entry, deleted) later
        | inr (inr purged) ↦ rw (on_entry, purged) later
        | inl was_put ↦ elim (Result-cases (from_utf8 entry.value)) [
          | inr (error, bad) ↦
              let said =
                complaint e from_utf8 debug_duration n (text "the value is not UTF-8: " ++ error) in
              let steps : on_entry e from_utf8 debug_duration d on_change n format trace (ok entry)
                  ≡ (failed e d n.attempts said trace, err said) =
                simp (on_entry, was_put, on_put, bad) in
              let lists : written format (ok entry ∷ entries) ≡ [] = simp (was_put, bad) in
              let opens = follow_over format trace _ (ok entry) entries said steps in
              (
                ap (λ a. a.0.delivered) opens
                    ∙ (delivered-failed e d n.attempts said trace
                        ∙ sym (ap (λ l. onto l trace.delivered) lists)),
                (said, ap (λ a. a.1) opens),
              )
          | inl (body, fine) ↦
              let x =
                document e from_utf8 debug_duration d on_change n format body entry.revision in
              let taken : Trace e d = record trace { delivered = x ∷ trace.delivered } in
              let steps : on_entry e from_utf8 debug_duration d on_change n format trace (ok entry)
                  ≡ (taken, ok tt) =
                simp
                  (on_entry, was_put, on_put, fine, guarded, caught, accepts trace.delivered x) in
              let lists : written format (ok entry ∷ entries) ≡ x ∷ written format entries =
                simp (was_put, fine, document) in
              let opens = follow_on format trace taken (ok entry) entries steps in
              let (delivered, (error, over)) = follow-written accepts format taken entries in
              (
                ap (λ a. a.0.delivered) opens
                    ∙ (delivered ∙ sym (ap (λ l. onto l trace.delivered) lists)),
                (error, ap (λ a. a.1) opens ∙ over),
              )
        ]
      ]
