-- ===== src/Server/Client/Watch.antt =====
-- dynamic-config-server/src/client/mod.rs, `watch` and `subscribed`: a client that follows a server.
--
-- What a connection brings is a list of arrivals. An arrival carries what `read` and the caller's
-- callback answer if they are asked while it is dealt with; the waits between two connections are
-- `Pace`'s, of the crate dynamic-config. The runtime is the crate tokio's and a client for TLS the
-- crate rustls's: whether they can be built is an argument.
pub mod Delivery
pub mod Outage
mod Tests
use dynamic_config_remote.Common.{
  ℕ, Bool, true, false, not, List, [], ◌∷◌, Option, none, some, Text, Result, ok, err, ◌==◌, ◌&&◌,
  is_some, if◌then◌else◌, ◌++◌, text, ◌>>=◌, map_err,
}
use dynamic_config_remote.Engine.{Engine, Documents}
use dynamic_config_remote.Server.Client.Endpoint.{Endpoint, parse}

pub record StreamEvent : Type 0 where
  pub id : Option Text
  pub «data» : Text
  pub carried : Bool

module _ (e : Engine) (d : Documents e) (same : d.Fetched → d.Fetched → Bool) where
  open e use {Error}
  open d use {Fetched}

  pub data Ended : Type 0 where
    disconnected : Ended
    refused : Error → Ended

  -- What outlives a connection; the documents that the callback was called with and the errors that
  -- were reported are newest first.
  pub record Watcher : Type 0 where
    pub resume : Option Text
    pub last : Option Fetched
    pub delivered : List Fetched
    pub reported : List Error

  pub data Arrival : Type 0 where
    stopped closed : Arrival
    broken : Error → Arrival
    arrived : StreamEvent → Result Fetched Error → Result (Unit {0}) Error → Arrival

  pub data Connection : Type 0 where
    unreachable : Error → Connection
    answered : ℕ → Error → Connection
    streaming : List Arrival → Connection

  -- `disconnected`: the failure is reported, and the watch goes on.
  unfoldable pub disconnect : Watcher → Error → Watcher × Result (Unit {0}) Ended
  disconnect w error = (record w { reported = error ∷ w.reported }, err disconnected)

  unfoldable pub is_known : Option Fetched → Fetched → Bool
  is_known none fetched = false
  is_known (some last) fetched = same last fetched

  abbrev pub or_else : Option Text → Option Text → Option Text
  or_else (some id) other = some id
  or_else none other = other

  -- The id of an event that was dealt with.
  abbrev pub advance : Watcher → StreamEvent → Watcher
  advance w event = record w { resume = or_else event.id w.resume }

  -- The document that an event announces: the callback has it unless it is the last one.
  unfoldable pub deliver :
      Watcher → StreamEvent → Fetched → Result (Unit {0}) Error → Watcher × Result (Unit {0}) Ended
  unfolding is_known
  deliver w event fetched answer =
      if is_known w.last fetched
      then (advance w event, ok tt)
      else let after = record w { last = some fetched; delivered = fetched ∷ w.delivered } in
        elim answer [
          | err error ↦ (after, err (refused error))
          | ok _ ↦ (advance after event, ok tt)
        ]

  -- One event: a keep-alive, the opening event of a first subscription, or a change.
  unfoldable pub on_event :
      Bool
      → Watcher
      → StreamEvent
      → Result Fetched Error
      → Result (Unit {0}) Error
      → Watcher × Result (Unit {0}) Ended
  unfolding deliver disconnect
  on_event opening w event read answer =
      if not event.carried
      then (w, ok tt)
      else if opening
      then (advance w event, ok tt)
      else elim read [
        | err error ↦ disconnect w error
        | ok fetched ↦ deliver w event fetched answer
      ]

  -- The loop of `subscribed`; a list that has run out is a connection on which nothing more arrives.
  unfoldable pub follow : Bool → Watcher → List Arrival → Watcher × Result (Unit {0}) Ended
  unfolding on_event disconnect
  follow opening w [] = (w, ok tt)
  follow opening w (stopped ∷ arrivals) = (w, ok tt)
  follow opening w (closed ∷ arrivals) = (w, ok tt)
  follow opening w (broken error ∷ arrivals) = disconnect w error
  follow opening w (arrived event read answer ∷ arrivals) =
      let (after, ended) = on_event opening w event read answer in
      let rest = follow (opening && not event.carried) after arrivals in
      elim ended [ err why ↦ (after, err why) | ok _ ↦ rest ]

  -- A 404 is an answer; every other status is waited out.
  unfoldable pub subscribed : Watcher → Connection → Watcher × Result (Unit {0}) Ended
  unfolding follow disconnect
  subscribed w (unreachable error) = disconnect w error
  subscribed w (answered status error) =
      if status == 404 then (w, err (refused error)) else disconnect w error
  subscribed w (streaming arrivals) = follow (not (is_some w.resume)) w arrivals

  -- The loop of `watch`, from one connection to the next, until it is stopped.
  unfoldable pub reconnecting : Watcher → List Connection → Watcher × Result (Unit {0}) Error
  unfolding subscribed
  reconnecting w [] = (w, ok tt)
  reconnecting w (connection ∷ connections) =
      let (after, ended) = subscribed w connection in
      let rest = reconnecting after connections in
      elim ended [
        | ok _ ↦ rest
        | err why ↦ elim why [ disconnected ↦ rest | refused error ↦ (after, err error) ]
      ]

  -- A plain connection needs no client for TLS; what building one answers is an argument.
  unfoldable pub tls_client : Result (Unit {0}) Error → Bool → Result (Unit {0}) Error
  tls_client built secure = if secure then built else ok tt

  -- What cannot come right by being retried: the runtime, the URL and the TLS client.
  unfoldable pub settled :
      Result (Unit {0}) Text → Text → Text → Result (Unit {0}) Error → Result (Unit {0}) Error
  unfolding parse tls_client
  settled runtime url described built = do
    _ ←
        map_err (λ error. e.remote (described ++ (text ": no runtime for the watch: " ++ error)))
          runtime
    endpoint ← parse e url described
    tls_client built endpoint.secure

  abbrev pub at_start : Watcher
  at_start = record { resume = none; last = none; delivered = []; reported = [] }

  -- `watch`: what is settled before the loop is returned, and nothing is connected to.
  unfoldable pub watch :
      Result (Unit {0}) Text
      → Text
      → Text
      → Result (Unit {0}) Error
      → List Connection
      → Watcher × Result (Unit {0}) Error
  unfolding settled reconnecting
  watch runtime url described built connections =
      let run = reconnecting at_start connections in
      elim (settled runtime url described built) [ err error ↦ (at_start, err error) | ok _ ↦ run ]
