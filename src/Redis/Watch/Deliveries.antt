-- ===== src/Redis/Watch/Deliveries.antt =====
-- What a watch delivers, and what ends it.
use dynamic_config_remote.Common.{
  ◌≡◌, ◌⊎◌, inl, inr, refl, sym, ap, subst, ◌∙◌, Bool, true, false, List, [], ◌∷◌, Option, none,
  Text, length, Result-cases, Bool-cases, ltb,
}
use dynamic_config_remote.Engine.{Engine, Documents}
use dynamic_config_remote.Store.Attempts.{Trace, Callback, guarded}
use dynamic_config_remote.Store.Attempts.Traces.{delivered-failed}
use dynamic_config_remote.Redis.{Redis, Server, fetch}
use dynamic_config_remote.Redis.Fetch.{IsServer, IsSnapshot, Keeps, fetch-Keeps, fetch-IsSnapshot}
use dynamic_config_remote.Redis.Watch.{
  is_gone, Setup, Message, timed_out, broken, notified, checked, prepare, Watched, is_last, deliver,
  on_document, on_notification, on_message, follow, watch,
}

module _ (e : Engine) (Connection : Type 0) (d : Documents e) (on_change : Callback e d) where
  open e use {Error}
  open d use {Fetched}

  abbrev W : Type 0
  W = Watched e Connection d on_change

  -- A notification that a key was written, and a state of the server that the document was read from
  -- after it, under the settings of the source.
  abbrev pub Brings : Redis e Connection → Message e Connection → Fetched → Type 0
  Brings r timed_out x = ⊥
  Brings r (broken error) x = ⊥
  Brings r (notified event server) x =
      (is_gone event ≡ false)
      × ((c : Option Connection) × IsSnapshot e Connection d (record r { connection = c }) server x)

  -- The documents that were delivered, newest first, grow by at most one in each round, in order.
  abbrev pub Trail :
      Redis e Connection → List (Message e Connection) → List Fetched → List Fetched → Type 0
  Trail r [] before after = after ≡ before
  Trail r (message ∷ messages) before after =
      Trail r messages before after
      ⊎ ((x : Fetched) × Brings r message x × Trail r messages (x ∷ before) after)

  abbrev pub AreServers : List (Message e Connection) → Type 0
  AreServers [] = Unit
  AreServers (timed_out ∷ messages) = AreServers messages
  AreServers (broken error ∷ messages) = AreServers messages
  AreServers (notified event server ∷ messages) = IsServer e Connection server × AreServers messages

  -- What one round does.
  abbrev Steps : Redis e Connection → Message e Connection → W → W → Type 0
  Steps r message w after =
      Keeps e Connection d r after.source
      × ((after.trace.delivered ≡ w.trace.delivered)
          ⊎ ((x : Fetched) × Brings r message x × (after.trace.delivered ≡ x ∷ w.trace.delivered)))

  Keeps-trans :
      (r s t : Redis e Connection)
      → Keeps e Connection d r s
      → Keeps e Connection d s t
      → Keeps e Connection d r t
  Keeps-trans r s t (c, same) (c', same') =
      (c', same' ∙ ap (λ (q : Redis e Connection). record q { connection = c' }) same)

  Brings-fetch :
      (r : Redis e Connection) (event : Text) (server : Server e Connection)
      (source : Redis e Connection) (x : Fetched)
      → Keeps e Connection d r source
      → is_gone event ≡ false
      → IsSnapshot e Connection d source server x
      → Brings r (notified event server) x
  Brings-fetch r event server source x (c, same) written snapshot =
      (written, (c, subst (λ s. IsSnapshot e Connection d s server x) same snapshot))

  on_document-Steps :
      (r : Redis e Connection) (event : Text) (server : Server e Connection) (coalescing : Bool)
      (w : W) (x : Fetched)
      → Keeps e Connection d r w.source
      → Brings r (notified event server) x
      → Steps r (notified event server) w (on_document e Connection d on_change coalescing w x).0
  unfolding on_document deliver guarded
  on_document-Steps r event server false w x keeps brings = (keeps, inr (x, brings, refl))
  on_document-Steps r event server true w x keeps brings =
      elim (Bool-cases (is_last e Connection d on_change w.last (d.text_of x))) [
        | inl same ↦ rw (on_document, same) (keeps, inl refl)
        | inr new ↦ rw (on_document, new) (keeps, inr (x, brings, refl))
      ]

  on_notification-Steps :
      (r : Redis e Connection) (event : Text) (server : Server e Connection) (coalescing : Bool)
      (w : W)
      → Keeps e Connection d r w.source
      → IsServer e Connection server
      → Steps r
          (notified event server)
          w
          (on_notification e Connection d on_change coalescing w event server).0
  unfolding on_notification
  on_notification-Steps r event server coalescing w keeps is =
      let after = fetch e Connection d w.source server in
      let kept =
        Keeps-trans r w.source after.0 keeps (fetch-Keeps e Connection d w.source server) in
      elim (Bool-cases (is_gone event)) [
        | inl gone ↦ rw (on_notification, gone) (keeps, inl refl)
        | inr written ↦ elim (Result-cases after.1) [
          | inr (error, bad) ↦
              rw (on_notification, written, bad)
                (kept, inl (delivered-failed e d after.0.attempts error w.trace))
          | inl (x, fine) ↦
              let brings =
                Brings-fetch r event server w.source x keeps written
                  (fetch-IsSnapshot e Connection d w.source server x is fine) in
              let read : W = record w { source = after.0 } in
              let opens : on_notification e Connection d on_change coalescing w event server
                  ≡ on_document e Connection d on_change coalescing read x =
                rw (on_notification, written, fine) refl in
              subst (λ a. Steps r (notified event server) w a.0) (sym opens)
                (on_document-Steps r event server coalescing read x kept brings)
        ]
      ]

  on_message-Steps :
      (r : Redis e Connection) (coalescing : Bool) (w : W) (message : Message e Connection)
      → Keeps e Connection d r w.source
      → AreServers (message ∷ [])
      → Steps r message w (on_message e Connection d on_change coalescing w message).0
  unfolding on_message
  on_message-Steps r coalescing w timed_out keeps is = (keeps, inl refl)
  on_message-Steps r coalescing w (broken error) keeps is =
      (keeps, inl (delivered-failed e d w.source.attempts _ w.trace))
  on_message-Steps r coalescing w (notified event server) keeps is =
      on_notification-Steps r event server coalescing w keeps is.0

  AreServers-cons :
      (message : Message e Connection) (messages : List (Message e Connection))
      → AreServers (message ∷ messages)
      → AreServers (message ∷ []) × AreServers messages
  AreServers-cons timed_out messages is = (tt, is)
  AreServers-cons (broken error) messages is = (tt, is)
  AreServers-cons (notified event server) messages (here, is) = ((here, tt), is)

  Trail-nil :
      (r : Redis e Connection) (messages : List (Message e Connection)) (xs : List Fetched)
      → Trail r messages xs xs
  Trail-nil r [] xs = refl
  Trail-nil r (message ∷ messages) xs = inl (Trail-nil r messages xs)

  Trail-step :
      (r : Redis e Connection) (message : Message e Connection)
      (messages : List (Message e Connection)) (w after : W) (final : List Fetched)
      → Steps r message w after
      → Trail r messages after.trace.delivered final
      → Trail r (message ∷ messages) w.trace.delivered final
  Trail-step r message messages w after final (keeps, inl same) trail =
      inl (subst (λ xs. Trail r messages xs final) same trail)
  Trail-step r message messages w after final (keeps, inr (x, brings, same)) trail =
      inr (x, brings, subst (λ xs. Trail r messages xs final) same trail)

  follow-Trail :
      (r : Redis e Connection) (coalescing : Bool) (w : W) (messages : List (Message e Connection))
      → Keeps e Connection d r w.source
      → AreServers messages
      → Trail r messages w.trace.delivered
          (follow e Connection d on_change coalescing w messages).0.trace.delivered
  unfolding follow
  follow-Trail r coalescing w [] keeps is = refl
  follow-Trail r coalescing w (message ∷ messages) keeps is =
      let (here, later) = AreServers-cons message messages is in
      let step = on_message e Connection d on_change coalescing w message in
      let steps = on_message-Steps r coalescing w message keeps here in
      elim (Result-cases step.1) [
        | inl (u, on) ↦
            rw (follow, on)
              (Trail-step r message messages w step.0 _ steps
                (follow-Trail r coalescing step.0 messages steps.0 later))
        | inr (error, over) ↦
            rw (follow, over)
              (Trail-step r message messages w step.0 _ steps (Trail-nil r messages _))
      ]

  -- What a watch delivers are documents that the server was in the state of, in the order of the
  -- notifications that led to them and at most one for each: no delivery without a notification that
  -- a key was written, and none that mixes two states of the server.
  pub watch-Trail :
      (r : Redis e Connection) (setup : Setup e Connection) (messages : List (Message e Connection))
      (trace : Trace e d)
      → AreServers messages
      → Trail r messages trace.delivered
          (watch e Connection d on_change r setup messages trace).0.trace.delivered
  unfolding watch
  watch-Trail r setup messages trace is =
      let start : W = record { source = r; last = none; trace = trace } in
      elim (Result-cases (checked e Connection r)) [
        | inr (error, bad) ↦ rw (watch, bad) (Trail-nil r messages trace.delivered)
        | inl (keys, fine) ↦ elim (Result-cases (prepare e Connection r setup keys)) [
          | inr (error, bad) ↦
              rw (watch, fine, bad)
                (subst (Trail r messages trace.delivered)
                  (sym (delivered-failed e d r.attempts error trace))
                  (Trail-nil r messages trace.delivered))
          | inl (u, ready) ↦
              rw (watch, fine, ready)
                (follow-Trail r (ltb 1 (length keys)) start messages (r.connection, refl) is)
        ]
      ]
