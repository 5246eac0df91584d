-- ===== src/Server/Client/Watch/Outage.antt =====
-- What ends a watch.
use dynamic_config_remote.Common.{
  true, false, text, ◌++◌, Bool-cases, ◌≡◌, ◌≢◌, ◌⊎◌, inl, inr, refl, Bool, not, ◌&&◌, List, [],
  ◌∷◌, Result, ok, err, is_some, arith, All, Text, Result-cases,
}
use dynamic_config_remote.Engine.{Engine, Documents}
use dynamic_config_remote.Server.Client.Endpoint.{Endpoint, parse}
use dynamic_config_remote.Server.Client.Watch.{
  tls_client, StreamEvent, Watcher, Ended, disconnected, Arrival, stopped, closed, broken, arrived,
  Connection, unreachable, answered, streaming, disconnect, deliver, on_event, follow, subscribed,
  reconnecting, settled, at_start, watch,
}

module _ (e : Engine) (d : Documents e) (same : d.Fetched → d.Fetched → Bool) where
  -- An arrival that the callback does not refuse.
  abbrev pub IsAccepted : Arrival e d same → Type 0
  IsAccepted (arrived event read answer) = answer ≡ ok tt
  IsAccepted stopped = Unit
  IsAccepted closed = Unit
  IsAccepted (broken error) = Unit

  -- A connection that is no answer about the section, and on which the callback refuses nothing.
  abbrev pub IsPassing : Connection e d same → Type 0
  IsPassing (unreachable error) = Unit
  IsPassing (answered status error) = status ≢ 404
  IsPassing (streaming arrivals) = All IsAccepted arrivals

  -- The end of a connection is no refusal.
  abbrev Passes : Result (Unit {0}) (Ended e d same) → Type 0
  Passes ended = (ended ≡ ok tt) ⊎ (ended ≡ err disconnected)

  on_event-Passes :
      (opening : Bool) (w : Watcher e d same) (event : StreamEvent)
      (read : Result d.Fetched e.Error) (answer : Result (Unit {0}) e.Error)
      → answer ≡ ok tt
      → Passes (on_event e d same opening w event read answer).1
  unfolding on_event deliver disconnect
  on_event-Passes opening w event (err error) answer accepted = ground arith
  on_event-Passes opening w event (ok fetched) answer accepted = inl (ground arith)

  follow-Passes :
      (opening : Bool) (w : Watcher e d same) (arrivals : List (Arrival e d same))
      → All IsAccepted arrivals
      → Passes (follow e d same opening w arrivals).1
  unfolding follow disconnect
  follow-Passes opening w [] h = inl refl
  follow-Passes opening w (stopped ∷ arrivals) h = inl refl
  follow-Passes opening w (closed ∷ arrivals) h = inl refl
  follow-Passes opening w (broken error ∷ arrivals) h = inr refl
  follow-Passes opening w (arrived event read answer ∷ arrivals) (accepted, h) =
      elim (on_event-Passes opening w event read answer accepted) [
        | inl fine ↦
            rw (follow, fine)
              (follow-Passes (opening && not event.carried)
                (on_event e d same opening w event read answer).0 arrivals h)
        | inr over ↦ rw (follow, over) (inr refl)
      ]

  subscribed-Passes :
      (w : Watcher e d same) (connection : Connection e d same)
      → IsPassing connection
      → Passes (subscribed e d same w connection).1
  unfolding subscribed disconnect
  subscribed-Passes w (unreachable error) h = inr refl
  subscribed-Passes w (answered status error) h = ground arith
  subscribed-Passes w (streaming arrivals) h = follow-Passes (not (is_some w.resume)) w arrivals h

  -- Where a watch stands that has gone through all of these connections, one after the other.
  abbrev pub every : Watcher e d same → List (Connection e d same) → Watcher e d same
  every w [] = w
  every w (connection ∷ connections) = every (subscribed e d same w connection).0 connections

  reconnecting-every :
      (w : Watcher e d same) (connections : List (Connection e d same))
      → All IsPassing connections
      → reconnecting e d same w connections ≡ (every w connections, ok tt)
  unfolding reconnecting
  reconnecting-every w [] h = refl
  reconnecting-every w (connection ∷ connections) (passing, h) =
      let later = reconnecting-every (subscribed e d same w connection).0 connections h in
      elim (subscribed-Passes w connection passing) [
        | inl fine ↦ rw (reconnecting, fine) later
        | inr over ↦ rw (reconnecting, over) later
      ]

  -- What refuses a watch before its first connection: there is no runtime, the URL cannot be parsed, or
  -- it is an `https` one and no client for TLS can be built.
  abbrev pub IsRefused :
      Result (Unit {0}) Text → Text → Text → Result (Unit {0}) e.Error → e.Error → Type 0
  IsRefused runtime url described built error =
      ((shown : Text) × (runtime ≡ err shown)
        × (error ≡ e.remote (described ++ (text ": no runtime for the watch: " ++ shown))))
      ⊎ ((runtime ≡ ok tt)
          × ((parse e url described ≡ err error)
              ⊎ ((endpoint : Endpoint) × (parse e url described ≡ ok endpoint)
                  × (endpoint.secure ≡ true)
                  × (built ≡ err error))))

  abbrev pub IsSettled : Result (Unit {0}) Text → Text → Text → Result (Unit {0}) e.Error → Type 0
  IsSettled runtime url described built =
      (runtime ≡ ok tt)
      × ((endpoint : Endpoint) × (parse e url described ≡ ok endpoint)
          × ((endpoint.secure ≡ false) ⊎ (built ≡ ok tt)))

  settled_lem :
      (runtime : Result (Unit {0}) Text) (url described : Text) (built : Result (Unit {0}) e.Error)
      → ((error : e.Error) × IsRefused runtime url described built error
          × (settled e d same runtime url described built ≡ err error))
        ⊎ (IsSettled runtime url described built
            × (settled e d same runtime url described built ≡ ok tt))
  unfolding settled tls_client
  settled_lem (err shown) url described built = inl (_, inl (shown, refl, refl), refl)
  settled_lem (ok u) url described built = elim (Result-cases (parse e url described)) [
    | inr (error, bad) ↦ inl (error, inr (refl, inl bad), rw (settled, bad) refl)
    | inl (endpoint, fine) ↦ elim (Bool-cases endpoint.secure) [
      | inr plain ↦
          inr ((refl, (endpoint, fine, inl plain)), rw (settled, fine, tls_client, plain) refl)
      | inl secure ↦ elim (Result-cases built) [
        | inl (v, ready) ↦ inr (
          (refl, (endpoint, fine, inr ready)),
          rw (settled, fine, tls_client, secure, ready) refl,
        )
        | inr (error, bad) ↦ inl (
          error,
          inr (refl, inr (endpoint, fine, secure, bad)),
          rw (settled, fine, tls_client, secure, bad) refl,
        )
      ]
    ]
  ]

  -- As long as no answer says that the section is not there and the callback refuses nothing, a watch
  -- either ends before its first connection, for there is no runtime, the URL cannot be parsed or no
  -- client for TLS can be built for it, and with that error, or it goes through every connection, in
  -- order, and is still going after the last one: whatever cannot be reached, is refused with another
  -- status, breaks off or cannot be read, the next connection is made.
  pub watch_outlives :
      (runtime : Result (Unit {0}) Text) (url described : Text) (built : Result (Unit {0}) e.Error)
      (connections : List (Connection e d same))
      → All IsPassing connections
      → let run = watch e d same runtime url described built connections in
        ((error : e.Error) × IsRefused runtime url described built error
          × (run ≡ (at_start e d same, err error)))
        ⊎ (IsSettled runtime url described built
            × (run ≡ (every (at_start e d same) connections, ok tt)))
  unfolding watch
  watch_outlives runtime url described built connections h =
      elim (settled_lem runtime url described built) [
        | inl (error, why, bad) ↦ inl (error, why, rw (watch, bad) refl)
        | inr (why, fine) ↦
            inr (why, rw (watch, fine) (reconnecting-every (at_start e d same) connections h))
      ]
