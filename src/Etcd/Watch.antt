-- ===== src/Etcd/Watch.antt =====
-- dynamic-config-etcd/src/lib.rs, `Etcd::watch`: a key or a prefix that is followed on one stream,
-- which is resumed when the token that it was established with has expired.
--
-- The watch is a list of what its awaits come to, in order: each message of the stream, with what the
-- cluster answers to the reads and the recovery that it leads to. A list that has run out is a stream
-- that is still open. A revision is an `i64`, and not negative.
pub mod Recovering
pub mod Pinned
use mathlib.Core.Option
use dynamic_config_remote.Common.{
  ℕ, ◌+◌, Bool, true, false, List, [], ◌∷◌, Option, none, some, Text, text, ◌++◌, is_empty, ltb,
  if◌then◌else◌, Result, ok, err, ◌>>=◌, map_err,
}
use dynamic_config_remote.Engine.{Engine, Documents}
use dynamic_config_remote.Store.Attempts.{Trace, Callback, failed, guarded}
use dynamic_config_remote.Store.Documents.{refused, merged}
use dynamic_config_remote.Etcd.{
  Keys, one, several, prefix, EtcdError, KeyValue, Cluster, Etcd, complaint, describe,
  settled_format, classified, is_expired_token,
}
use dynamic_config_remote.Etcd.Reads.{range_at, refreshed, with_refresh}

abbrev pub most_token_recoveries : ℕ
most_token_recoveries = 3

pub data Event : Type 0 where
  put : KeyValue → Event
  other_event : Event

-- A `WatchResponse`: the revision of its header, its events and why it was cancelled, if it was.
pub record WatchResponse : Type 0 where
  pub revision : Option ℕ
  pub events : List Event
  pub cancelled : Option Text

-- What the cluster answers where a stream is established again.
pub record Recovery : Type 0 where
  pub refresh : Result (Unit {0}) EtcdError
  pub established : Option ℕ → Result (Unit {0}) EtcdError

-- What the stream brought; a batch comes with the answers to the reads that it may lead to.
pub data Message : Type 0 where
  batch : WatchResponse → Cluster → Result (Unit {0}) EtcdError → Cluster → Message
  closed : Message
  broken : EtcdError → Recovery → Message

module _ (e : Engine) (debug_duration : ℕ → Text) where
  open e use {Error, Format}

  abbrev Source : Type 0
  Source = Etcd e debug_duration

  -- A named list has no one stream that says that the set moved.
  unfoldable pub watchable : Source → Result (Unit {0}) Error
  unfolding complaint
  watchable s = elim s.keys [
    | several keys ↦ err (
        complaint e debug_duration s (
          text
            "a source that reads a named list of keys cannot be watched; etcd establishes a watch on a key or a range, so a list would be one stream per key and none of them would say the set moved together — watch a prefix, or poll `refresh_remote_async()` on a timer, which is one round trip"))
    | one key ↦ ok tt
    | prefix p ↦ ok tt
  ]

  -- `watch_once`, from the client's answer to the revision that it starts at.
  unfoldable pub watch_once :
      Source → Option ℕ → (Option ℕ → Result (Unit {0}) EtcdError) → Result (Unit {0}) Error
  unfolding classified describe
  watch_once s from_revision established =
      map_err
        (λ error.
          classified e debug_duration
            (describe e debug_duration s ++ (text ": cannot watch: " ++ error.shown)) error)
        (established from_revision)

  module _ (d : Documents e) (on_change : Callback e d) (format : Format)
      (s : Etcd e debug_duration) where
    open d use {Fetched}

    pub record Watched : Type 0 where
      pub token_recoveries : ℕ
      pub resume_from : Option ℕ
      pub trace : Trace e d

    -- `failing`: the error is reported, and ends the watch.
    abbrev pub failing : Watched → Error → Watched × Result (Unit {0}) Error
    failing w error = (record w { trace = failed e d s.attempts error w.trace }, err error)

    unfoldable pub deliver : Watched → Fetched → Watched × Result (Unit {0}) Error
    unfolding guarded describe
    deliver w document =
        let (trace, answer) =
          guarded e d on_change document (describe e debug_duration s) w.trace in
        (record w { trace = trace }, answer)

    -- A message that came: the refreshed token works, and a new stream goes on behind this revision.
    abbrev pub received : Watched → WatchResponse → Watched
    received w response = record w {
      token_recoveries = 0;
      resume_from = elim response.revision [ some r ↦ some (r + 1) | none ↦ w.resume_from ];
    }

    -- The set moved: the range is read back at the revision of the batch.
    unfoldable pub on_set :
        Watched
        → Text
        → ℕ
        → Cluster
        → Result (Unit {0}) EtcdError
        → Cluster
        → Watched × Result (Unit {0}) Error
    unfolding with_refresh range_at deliver describe
    on_set w p revision cluster refresh again =
        elim (with_refresh e debug_duration s (range_at e debug_duration s cluster p revision)
          refresh (range_at e debug_duration s again p revision)) [
            | err error ↦ failing w error
            | ok documents ↦
                let folded = merged e d documents format refused (describe e debug_duration s) in
                let answer : Watched × Result (Unit {0}) Error = elim folded [
                  | err error ↦ failing w error
                  | ok document ↦ deliver w (d.with_revision (d.counter revision) document)
                ] in
                if is_empty documents then (w, ok tt) else answer
          ]

    -- The events of a single key: what it was written with, at the revision of each write.
    unfoldable pub on_events : Watched → List Event → Watched × Result (Unit {0}) Error
    unfolding deliver complaint
    on_events w [] = (w, ok tt)
    on_events w (other_event ∷ events) = on_events w events
    on_events w (put kv ∷ events) = elim kv.value [
      | err error ↦
          failing w (complaint e debug_duration s (text "the value is not UTF-8: " ++ error))
      | ok body ↦
          let (after, answer) =
            deliver w (d.with_revision (d.counter kv.mod_revision) (d.fetched body format)) in
          let rest = on_events after events in
          elim answer [ err error ↦ (after, err error) | ok _ ↦ rest ]
    ]

    unfoldable pub on_batch :
        Watched
        → WatchResponse
        → Cluster
        → Result (Unit {0}) EtcdError
        → Cluster
        → Watched × Result (Unit {0}) Error
    unfolding on_set on_events complaint
    on_batch w response cluster refresh again = elim response.cancelled [
      | some reason ↦
          failing w
            (complaint e debug_duration s (text "the store cancelled the watch: " ++ reason))
      | none ↦ elim s.keys [
        | one key ↦ on_events w response.events
        | several keys ↦ on_events w response.events
        | prefix p ↦ if is_empty response.events then (w, ok tt) else elim response.revision [
          | none ↦ (w, ok tt)
          | some revision ↦ on_set w p revision cluster refresh again
        ]
      ]
    ]

    unfoldable pub break_error : EtcdError → Error
    unfolding classified describe
    break_error error =
        classified e debug_duration
          (describe e debug_duration s ++ (text ": the watch failed: " ++ error.shown)) error

    -- A refreshed token, and a stream that goes on behind the last batch.
    unfoldable pub recovered : Watched → Recovery → Result (Unit {0}) Error
    unfolding refreshed watch_once
    recovered w recovery = do
      _ ← refreshed e debug_duration s recovery.refresh
      watch_once s w.resume_from recovery.established

    unfoldable pub resumed : Watched → Recovery → Watched × Result (Unit {0}) Error
    unfolding recovered
    resumed w recovery = elim (recovered w recovery) [
      | err failure ↦ failing w failure
      | ok _ ↦ (w, ok tt)
    ]

    -- The stream broke. A token that expired is refreshed and the stream resumed, three times in a
    -- row at most.
    unfoldable pub on_broken : Watched → EtcdError → Recovery → Watched × Result (Unit {0}) Error
    unfolding break_error is_expired_token resumed
    on_broken w error recovery =
        let counted : Watched = record w { token_recoveries = w.token_recoveries + 1 } in
        if is_expired_token e debug_duration (break_error error)
        then (if ltb most_token_recoveries (w.token_recoveries + 1)
            then failing counted (break_error error)
            else resumed counted recovery)
        else failing w (break_error error)

    unfoldable pub on_message : Watched → Message → Watched × Result (Unit {0}) Error
    unfolding on_batch on_broken complaint
    on_message w (batch response cluster refresh again) =
        on_batch (received w response) response cluster refresh again
    on_message w closed =
        failing w (complaint e debug_duration s (text "the watch ended; the connection was closed"))
    on_message w (broken error recovery) = on_broken w error recovery

    unfoldable pub follow : Watched → List Message → Watched × Result (Unit {0}) Error
    unfolding on_message
    follow w [] = (w, ok tt)
    follow w (message ∷ messages) =
        let (after, ended) = on_message w message in
        let rest = follow after messages in
        elim ended [ err error ↦ (after, err error) | ok _ ↦ rest ]

  -- What refuses the source itself, before the cluster is asked anything.
  unfoldable pub checked : Source → Result Format Error
  unfolding settled_format watchable
  checked s = do format ← settled_format e debug_duration s; _ ← watchable s; ok format

  -- The stream that the watch begins on; an expired token is refreshed once.
  unfoldable pub begun :
      Source
      → (Option ℕ → Result (Unit {0}) EtcdError)
      → Result (Unit {0}) EtcdError
      → (Option ℕ → Result (Unit {0}) EtcdError)
      → Result (Unit {0}) Error
  unfolding with_refresh watch_once
  begun s first refresh again =
      with_refresh e debug_duration s (watch_once s none first) refresh (watch_once s none again)

  module _ (d : Documents e) (on_change : Callback e d) where
    -- `watch`: what refuses the source itself is returned and not reported.
    unfoldable pub watch :
        Source
        → (Option ℕ → Result (Unit {0}) EtcdError)
        → Result (Unit {0}) EtcdError
        → (Option ℕ → Result (Unit {0}) EtcdError)
        → List Message
        → Trace e d
        → Trace e d × Result (Unit {0}) Error
    unfolding checked begun follow
    watch s first refresh again messages trace = elim (checked s) [
      | err error ↦ (trace, err error)
      | ok format ↦
          let (after, answer) =
            follow d on_change format s
              (record { token_recoveries = 0; resume_from = none; trace = trace }) messages in
          elim (begun s first refresh again) [
            | err error ↦ (failed e d s.attempts error trace, err error)
            | ok _ ↦ (after.trace, answer)
          ]
    ]
