-- ===== src/Redis/Watch/Endurance.antt =====
-- Several keys that are written together, and what ends a watch.
use dynamic_config_remote.Common.{
  ◌≡◌, ◌<◌, inl, inr, refl, sym, subst, Bool, true, false, List, [], ◌∷◌, Option, none, some, Text,
  text_eq, length, All, ok, Result-cases, Bool-cases, ltb, arith,
}
use dynamic_config_remote.Engine.{Engine, Documents}
use dynamic_config_remote.Store.Attempts.{untouched, Callback, returned, guarded, caught}
use dynamic_config_remote.Store.Attempts.Traces.{delivered-failed}
use dynamic_config_remote.Redis.{Redis, fetch}
use dynamic_config_remote.Redis.Watch.{
  is_gone, Setup, Message, timed_out, broken, notified, checked, prepare, Watched, is_last, report,
  deliver, on_document, on_notification, on_message, follow, watch,
}

module _ (e : Engine) (Connection : Type 0) (d : Documents e) (on_change : Callback e d) where
  open e use {Error}
  open d use {Fetched}

  abbrev W : Type 0
  W = Watched e Connection d on_change

  -- No two documents that were delivered one after the other have the same text.
  abbrev pub Changing : List Fetched → Type 0
  Changing [] = Unit
  Changing (x ∷ []) = Unit
  Changing (x ∷ y ∷ xs) = (text_eq (d.text_of y) (d.text_of x) ≡ false) × Changing (y ∷ xs)

  abbrev newest : List Fetched → Option Text
  newest [] = none
  newest (x ∷ xs) = some (d.text_of x)

  abbrev IsCurrent : W → Type 0
  IsCurrent w = Changing w.trace.delivered × (w.last ≡ newest w.trace.delivered)

  failed-IsCurrent :
      (w : W) (error : Error) → IsCurrent w → IsCurrent (report e Connection d on_change w error)
  failed-IsCurrent w error h =
      subst (λ xs. Changing xs × (w.last ≡ newest xs))
        (sym (delivered-failed e d w.source.attempts error w.trace)) h

  Changing-cons :
      (xs : List Fetched) (x : Fetched)
      → Changing xs
      → is_last e Connection d on_change (newest xs) (d.text_of x) ≡ false
      → Changing (x ∷ xs)
  Changing-cons [] x h new = tt
  Changing-cons (y ∷ xs) x h new = (new, h)

  on_document-IsCurrent :
      (w : W) (x : Fetched)
      → IsCurrent w
      → IsCurrent (on_document e Connection d on_change true w x).0
  unfolding on_document deliver guarded
  on_document-IsCurrent w x (changing, current) =
      elim (Bool-cases (is_last e Connection d on_change w.last (d.text_of x))) [
        | inl same ↦ rw (on_document, same) (changing, current)
        | inr new ↦
            let other =
              subst (λ l. is_last e Connection d on_change l (d.text_of x) ≡ false) current new in
            rw (on_document, new) (Changing-cons w.trace.delivered x changing other, refl)
      ]

  on_message-IsCurrent :
      (w : W) (message : Message e Connection)
      → IsCurrent w
      → IsCurrent (on_message e Connection d on_change true w message).0
  unfolding on_message on_notification
  on_message-IsCurrent w timed_out h = h
  on_message-IsCurrent w (broken error) h = failed-IsCurrent w _ h
  on_message-IsCurrent w (notified event server) h =
      let after = fetch e Connection d w.source server in
      elim (Bool-cases (is_gone event)) [
        | inl gone ↦ rw (on_message, on_notification, gone) h
        | inr written ↦ elim (Result-cases after.1) [
          | inr (error, bad) ↦
              rw (on_message, on_notification, written, bad)
                (failed-IsCurrent (record w { source = after.0 }) error h)
          | inl (x, fine) ↦
              rw (on_message, on_notification, written, fine)
                (on_document-IsCurrent (record w { source = after.0 }) x h)
        ]
      ]

  follow-IsCurrent :
      (w : W) (messages : List (Message e Connection))
      → IsCurrent w
      → IsCurrent (follow e Connection d on_change true w messages).0
  unfolding follow
  follow-IsCurrent w [] h = h
  follow-IsCurrent w (message ∷ messages) h =
      let step = on_message e Connection d on_change true w message in
      let after = on_message-IsCurrent w message h in
      elim (Result-cases step.1) [
        | inl (u, on) ↦ rw (follow, on) (follow-IsCurrent step.0 messages after)
        | inr (error, over) ↦ rw (follow, over) after
      ]

  -- A set of several keys that is written together is one document, not one for each key: the
  -- callback never has the same text twice in a row.
  pub watch-Changing :
      (r : Redis e Connection) (setup : Setup e Connection) (messages : List (Message e Connection))
      (keys : List Text)
      → checked e Connection r ≡ ok keys
      → 1 < length keys
      → Changing (watch e Connection d on_change r setup messages (untouched e d)).0.trace.delivered
  unfolding watch
  watch-Changing r setup messages keys fine many =
      let start : W = record { source = r; last = none; trace = untouched e d } in
      let several : ltb 1 (length keys) ≡ true = ground arith in
      elim (Result-cases (prepare e Connection r setup keys)) [
        | inr (error, bad) ↦ rw (watch, fine, bad) (failed-IsCurrent start error (tt, refl)).0
        | inl (u, ready) ↦
            rw (watch, fine, ready, several) (follow-IsCurrent start messages (tt, refl)).0
      ]

  -- A round in which the subscription did not break.
  abbrev pub IsWhole : Message e Connection → Type 0
  IsWhole timed_out = Unit
  IsWhole (broken error) = ⊥
  IsWhole (notified event server) = Unit

  abbrev pub Accepts : Type 0
  Accepts = (earlier : List Fetched) (x : Fetched) → on_change earlier x ≡ returned (ok tt)

  on_document_accepted :
      (coalescing : Bool) (w : W) (x : Fetched)
      → Accepts
      → (on_document e Connection d on_change coalescing w x).1 ≡ ok tt
  unfolding on_document deliver guarded caught
  on_document_accepted false w x accepts = rw (accepts w.trace.delivered x) refl
  on_document_accepted true w x accepts =
      elim (Bool-cases (is_last e Connection d on_change w.last (d.text_of x))) [
        | inl same ↦ rw (on_document, same) refl
        | inr new ↦ rw (on_document, new, accepts w.trace.delivered x) refl
      ]

  on_message_accepted :
      (coalescing : Bool) (w : W) (message : Message e Connection)
      → Accepts
      → IsWhole message
      → (on_message e Connection d on_change coalescing w message).1 ≡ ok tt
  unfolding on_message on_notification
  on_message_accepted coalescing w timed_out accepts whole = refl
  on_message_accepted coalescing w (broken error) accepts whole = absurd whole
  on_message_accepted coalescing w (notified event server) accepts whole =
      let after = fetch e Connection d w.source server in
      elim (Bool-cases (is_gone event)) [
        | inl gone ↦ rw (on_message, on_notification, gone) refl
        | inr written ↦ elim (Result-cases after.1) [
          | inr (error, bad) ↦ rw (on_message, on_notification, written, bad) refl
          | inl (x, fine) ↦
              rw (on_message, on_notification, written, fine)
                (on_document_accepted coalescing (record w { source = after.0 }) x accepts)
        ]
      ]

  -- Where a watch stands that has dealt with all of these messages, one after the other.
  abbrev pub every : Bool → W → List (Message e Connection) → W
  every coalescing w [] = w
  every coalescing w (message ∷ messages) =
      every coalescing (on_message e Connection d on_change coalescing w message).0 messages

  -- Once a watch has begun, nothing ends it but a subscription that breaks and its own callback: as
  -- long as neither happens it deals with every message, in order, whatever the fetches that the
  -- notifications lead to meet, and is still going after the last one.
  pub follow_outlives :
      (coalescing : Bool) (w : W) (messages : List (Message e Connection))
      → Accepts
      → All IsWhole messages
      → follow e Connection d on_change coalescing w messages ≡ (every coalescing w messages, ok tt)
  unfolding follow
  follow_outlives coalescing w [] accepts whole = refl
  follow_outlives coalescing w (message ∷ messages) accepts (here, whole) =
      let step = on_message e Connection d on_change coalescing w message in
      rw (follow, on_message_accepted coalescing w message accepts here)
        (follow_outlives coalescing step.0 messages accepts whole)
