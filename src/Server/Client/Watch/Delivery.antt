-- ===== src/Server/Client/Watch/Delivery.antt =====
-- What a watch delivers, and how far it says it has come.
use dynamic_config_remote.Common.{
  ◌≡◌, ◌⊎◌, inl, inr, refl, subst, Bool, true, false, not, ◌&&◌, List, [], ◌∷◌, Option, none, some,
  Result, ok, err, ◌==◌, is_some, arith, Bool-cases, Result-cases,
}
use dynamic_config_remote.Engine.{Engine, Documents}
use dynamic_config_remote.Server.Client.Watch.{
  StreamEvent, Watcher, disconnected, refused, Arrival, stopped, closed, broken, arrived,
  Connection, unreachable, answered, streaming, disconnect, is_known, deliver, on_event, follow,
  subscribed, reconnecting,
}

module _ (e : Engine) (d : Documents e) (same : d.Fetched → d.Fetched → Bool) where
  abbrev pub newest : List d.Fetched → Option d.Fetched
  newest [] = none
  newest (fetched ∷ earlier) = some fetched

  -- No document is delivered twice in a row.
  abbrev pub Changing : List d.Fetched → Type 0
  Changing [] = Unit
  Changing (fetched ∷ earlier) =
      (is_known e d same (newest earlier) fetched ≡ false) × Changing earlier

  -- What the watch compares with is what it delivered last.
  abbrev pub IsCurrent : Watcher e d same → Type 0
  IsCurrent w = (w.last ≡ newest w.delivered) × Changing w.delivered

  -- An event moves `Last-Event-ID` only where it is the opening one, which only says where the server
  -- stands, or where the document was read after it and the callback has accepted it, or had it
  -- already.
  pub on_event_resume :
      (opening : Bool) (w : Watcher e d same) (event : StreamEvent)
      (read : Result d.Fetched e.Error) (answer : Result (Unit {0}) e.Error)
      → ((on_event e d same opening w event read answer).0.resume ≡ w.resume)
        ⊎ ((opening ≡ true)
            ⊎ ((fetched : d.Fetched) × (read ≡ ok fetched)
                × ((is_known e d same w.last fetched ≡ true)
                    ⊎ ((answer ≡ ok tt)
                        × ((on_event e d same opening w event read answer).0.delivered
                            ≡ fetched ∷ w.delivered)))))
  unfolding on_event deliver disconnect
  on_event_resume true w event read answer = inr (inl refl)
  on_event_resume false w event (err error) answer = inl (ground arith)
  on_event_resume false w event (ok fetched) answer = elim (Bool-cases event.carried) [
    | inr alive ↦ inl (ground arith)
    | inl change ↦ elim (Bool-cases (is_known e d same w.last fetched)) [
      | inl known ↦ inr (inr (fetched, refl, inl known))
      | inr fresh ↦ elim (Result-cases answer) [
        | inl (u, accepted) ↦ inr (inr (fetched, refl, inr (accepted, ground arith)))
        | inr (error, denied) ↦ inl (ground arith)
      ]
    ]
  ]

  -- An event either leaves what was delivered as it is, or delivers a document that is not the last one.
  abbrev Kept : Watcher e d same → Watcher e d same → Type 0
  Kept w after = (after.last ≡ w.last) × (after.delivered ≡ w.delivered)

  abbrev Gained : Watcher e d same → Watcher e d same → Type 0
  Gained w after =
      (fetched : d.Fetched) × (is_known e d same w.last fetched ≡ false)
      × (after.last ≡ some fetched)
      × (after.delivered ≡ fetched ∷ w.delivered)

  on_event_lem :
      (opening : Bool) (w : Watcher e d same) (event : StreamEvent)
      (read : Result d.Fetched e.Error) (answer : Result (Unit {0}) e.Error)
      → Kept w (on_event e d same opening w event read answer).0
        ⊎ Gained w (on_event e d same opening w event read answer).0
  unfolding on_event deliver disconnect
  on_event_lem true w event read answer = inl (ground arith)
  on_event_lem false w event (err error) answer = inl (ground arith)
  on_event_lem false w event (ok fetched) answer = elim (Bool-cases event.carried) [
    | inr alive ↦ inl (ground arith)
    | inl change ↦ elim (Bool-cases (is_known e d same w.last fetched)) [
      | inl known ↦ inl (ground arith)
      | inr fresh ↦ inr (fetched, fresh, ground arith, ground arith)
    ]
  ]

  on_event-IsCurrent :
      (opening : Bool) (w : Watcher e d same) (event : StreamEvent)
      (read : Result d.Fetched e.Error) (answer : Result (Unit {0}) e.Error)
      → IsCurrent w
      → IsCurrent (on_event e d same opening w event read answer).0
  on_event-IsCurrent opening w event read answer (last, changing) =
      elim (on_event_lem opening w event read answer) [
        | inl (same_last, same_delivered) ↦ rw (same_last, same_delivered) (last, changing)
        | inr (fetched, fresh, now_last, now_delivered) ↦
            rw (now_last, now_delivered)
              (refl, (subst (λ l. is_known e d same l fetched ≡ false) last fresh, changing))
      ]

  disconnect-IsCurrent :
      (w : Watcher e d same) (error : e.Error)
      → IsCurrent w
      → IsCurrent (disconnect e d same w error).0
  unfolding disconnect
  disconnect-IsCurrent w error h = h

  follow-IsCurrent :
      (opening : Bool) (w : Watcher e d same) (arrivals : List (Arrival e d same))
      → IsCurrent w
      → IsCurrent (follow e d same opening w arrivals).0
  unfolding follow
  follow-IsCurrent opening w [] h = h
  follow-IsCurrent opening w (stopped ∷ arrivals) h = h
  follow-IsCurrent opening w (closed ∷ arrivals) h = h
  follow-IsCurrent opening w (broken error ∷ arrivals) h = disconnect-IsCurrent w error h
  follow-IsCurrent opening w (arrived event read answer ∷ arrivals) h =
      let after = on_event-IsCurrent opening w event read answer h in
      elim (Result-cases (on_event e d same opening w event read answer).1) [
        | inl (u, fine) ↦
            rw (follow, fine)
              (follow-IsCurrent (opening && not event.carried)
                (on_event e d same opening w event read answer).0 arrivals after)
        | inr (why, over) ↦ rw (follow, over) after
      ]

  subscribed-IsCurrent :
      (w : Watcher e d same) (connection : Connection e d same)
      → IsCurrent w
      → IsCurrent (subscribed e d same w connection).0
  unfolding subscribed
  subscribed-IsCurrent w (unreachable error) h = disconnect-IsCurrent w error h
  subscribed-IsCurrent w (answered status error) h = elim (Bool-cases (status == 404)) [
    | inl absent ↦ rw (subscribed, absent) h
    | inr other ↦ rw (subscribed, other) (disconnect-IsCurrent w error h)
  ]
  subscribed-IsCurrent w (streaming arrivals) h =
      follow-IsCurrent (not (is_some w.resume)) w arrivals h

  -- Whatever the connections bring, keep-alives, failures and reconnects included, the callback never
  -- has the same document twice in a row, and what the watch compares the next one with is the one
  -- that the callback had last.
  pub reconnecting-IsCurrent :
      (w : Watcher e d same) (connections : List (Connection e d same))
      → IsCurrent w
      → IsCurrent (reconnecting e d same w connections).0
  unfolding reconnecting
  reconnecting-IsCurrent w [] h = h
  reconnecting-IsCurrent w (connection ∷ connections) h =
      let after = subscribed-IsCurrent w connection h in
      elim (Result-cases (subscribed e d same w connection).1) [
        | inl (u, fine) ↦
            rw (reconnecting, fine)
              (reconnecting-IsCurrent (subscribed e d same w connection).0 connections after)
        | inr (disconnected, over) ↦
            rw (reconnecting, over)
              (reconnecting-IsCurrent (subscribed e d same w connection).0 connections after)
        | inr (refused error, over) ↦ rw (reconnecting, over) after
      ]
