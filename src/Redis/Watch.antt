-- ===== src/Redis/Watch.antt =====
-- dynamic-config-redis/src/lib.rs, `Redis::watch`: keys that are followed through the notifications
-- of the keyspace.
--
-- Each round of the loop is what the subscription brought, with what the server answers to the fetch
-- that a notification leads to; the end of the list is where the watch is stopped.
pub mod Deliveries
pub mod Endurance
use mathlib.Core.Option
use dynamic_config_remote.Common.{
  ℕ, ◌+◌, Bool, true, false, ◌||◌, List, [], ◌∷◌, ◌++◌, Option, none, some, Text, text, text_eq,
  strip_prefix, contains_char, get_elem?, split_whitespace, parse_signed, decimal_signed, Integer,
  is_empty, not, if◌then◌else◌, Result, ok, err, ◌>>=◌, ensure, ok_or, map_err, length, ltb,
}
use dynamic_config_remote.Engine.{Engine, Documents}
use dynamic_config_remote.Store.Attempts.{Trace, Callback, failed, guarded}
use dynamic_config_remote.Redis.{
  Keys, one, several, prefix, named, RedisError, Redis, Server, complaint, settled_format,
  classified, describe, fetch,
}

-- The field of `CLIENT INFO` that names the database.
unfoldable pub first_database : List Text → Option Text
first_database [] = none
first_database (field ∷ fields) = elim (strip_prefix (text "db=") field) [
  | some value ↦ some value
  | none ↦ first_database fields
]

unfoldable pub database : Text → Option Integer
unfolding first_database
database info = elim (first_database (split_whitespace info)) [
  | some value ↦ parse_signed value
  | none ↦ none
]

unfoldable pub channel : Integer → Text → Text
channel database key = text "__keyspace@" ++ (decimal_signed database ++ (text "__:" ++ key))

-- The event of a key that holds nothing any more.
abbrev pub is_gone : Text → Bool
is_gone event = text_eq event (text "del") || text_eq event (text "expired")

module _ (e : Engine) (Connection : Type 0) where
  open e use {Error}

  -- What the server answers before the first round.
  pub record Setup : Type 0 where
    pub opening : Result Connection RedisError
    pub config_reply : Result (List Text) RedisError
    pub subscriber : Result (Unit {0}) RedisError
    pub client_info : Option Text
    pub subscription : Text → Result (Unit {0}) RedisError
    pub slicing : Result (Unit {0}) RedisError

  pub data Message : Type 0 where
    timed_out : Message
    broken : RedisError → Message
    notified : Text → Server e Connection → Message

  -- The keys that a watch follows, or why the source cannot be watched.
  unfoldable pub watched : Redis e Connection → Result (List Text) Error
  unfolding complaint
  watched r = elim r.keys [
    | prefix p ↦ err (
        complaint e Connection r (
          text
            "a source that reads a prefix cannot be watched; finding the keys again means a `SCAN`, which is a cursor over many commands rather than one operation, so the set could be collected half from before a write and half from after — name the keys with `Keys::several`, which is watched as one `MGET`, or poll `refresh_remote()` on a timer instead"))
    | one key ↦ ok (key ∷ [])
    | several [] ↦ err (complaint e Connection r (text "there are no keys to watch"))
    | several (key ∷ keys) ↦ ok (key ∷ keys)
  ]

  -- What refuses the source itself, before the server is asked anything.
  unfoldable pub checked : Redis e Connection → Result (List Text) Error
  unfolding settled_format watched
  checked r = do _ ← settled_format e Connection r; watched r

  unfoldable pub require_keyspace_notifications :
      Redis e Connection → Setup → Result (Unit {0}) Error
  unfolding classified complaint contains_char
  require_keyspace_notifications r setup = do
    _ ← map_err (classified e Connection r) setup.opening
    settings ← map_err (classified e Connection r) setup.config_reply
    ensure (contains_char b'K' (elim (get_elem? settings 1) [ some value ↦ value | none ↦ [] ])) (
        complaint e Connection r (
          text
            "keyspace notifications are off, so nothing would ever arrive; `CONFIG SET notify-keyspace-events KEA` on the server"))

  abbrev pub cannot_subscribe : Redis e Connection → RedisError → Error
  cannot_subscribe r error = complaint e Connection r (text "cannot subscribe: " ++ error.shown)

  -- One `SUBSCRIBE` for each key.
  unfoldable pub subscribe_all :
      Redis e Connection → Setup → Integer → List Text → Result (Unit {0}) Error
  unfolding channel
  subscribe_all r setup index [] = ok tt
  subscribe_all r setup index (key ∷ keys) = do
    _ ← map_err (cannot_subscribe r) (setup.subscription (channel index key))
    subscribe_all r setup index keys

  -- The round trips before the loop, each of which is reported if it fails.
  unfoldable pub prepare : Redis e Connection → Setup → List Text → Result (Unit {0}) Error
  unfolding require_keyspace_notifications database subscribe_all complaint
  prepare r setup keys = do
    _ ← require_keyspace_notifications r setup
    _ ← map_err (cannot_subscribe r) setup.subscriber
    index ←
        ok_or (elim setup.client_info [ some info ↦ database info | none ↦ none ])
          (complaint e Connection r (
            text
              "cannot determine the database index the connection lands on, so the keyspace channel cannot be named"))
    _ ← subscribe_all r setup index keys
    map_err (λ error. complaint e Connection r error.shown) setup.slicing

  module _ (d : Documents e) (on_change : Callback e d) where
    open d use {Fetched}

    -- What a watch keeps from one round to the next.
    pub record Watched : Type 0 where
      pub source : Redis e Connection
      pub last : Option Text
      pub trace : Trace e d

    abbrev pub report : Watched → Error → Watched
    report w error = record w { trace = failed e d w.source.attempts error w.trace }

    abbrev pub is_last : Option Text → Text → Bool
    is_last none t = false
    is_last (some last) t = text_eq last t

    unfoldable pub deliver : Watched → Fetched → Watched × Result (Unit {0}) Error
    unfolding guarded describe
    deliver w document =
        let (trace, answer) =
          guarded e d on_change document (describe e Connection w.source) w.trace in
        (record w { trace = trace }, answer)

    -- A document that was read back: of several keys that were written together, the first
    -- notification delivers it and the others find it delivered.
    unfoldable pub on_document : Bool → Watched → Fetched → Watched × Result (Unit {0}) Error
    unfolding deliver
    on_document coalescing w document =
        if coalescing
        then (if is_last w.last (d.text_of document)
            then (w, ok tt)
            else deliver (record w { last = some (d.text_of document) }) document)
        else deliver w document

    unfoldable pub on_notification :
        Bool → Watched → Text → Server e Connection → Watched × Result (Unit {0}) Error
    unfolding on_document fetch
    on_notification coalescing w event server =
        let (source, read) = fetch e Connection d w.source server in
        if is_gone event then (w, ok tt) else elim read [
          | err error ↦ (report (record w { source = source }) error, ok tt)
          | ok document ↦ on_document coalescing (record w { source = source }) document
        ]

    unfoldable pub on_message : Bool → Watched → Message → Watched × Result (Unit {0}) Error
    unfolding on_notification complaint
    on_message coalescing w timed_out = (w, ok tt)
    on_message coalescing w (broken error) =
        let ended =
          complaint e Connection w.source (text "the subscription failed: " ++ error.shown) in
        (report w ended, err ended)
    on_message coalescing w (notified event server) = on_notification coalescing w event server

    unfoldable pub follow : Bool → Watched → List Message → Watched × Result (Unit {0}) Error
    unfolding on_message
    follow coalescing w [] = (w, ok tt)
    follow coalescing w (message ∷ messages) =
        let (after, ended) = on_message coalescing w message in
        let rest = follow coalescing after messages in
        elim ended [ err error ↦ (after, err error) | ok _ ↦ rest ]

    -- `watch`: what refuses the source itself is returned and not reported.
    unfoldable pub watch :
        Redis e Connection → Setup → List Message → Trace e d → Watched × Result (Unit {0}) Error
    unfolding checked prepare follow
    watch r setup messages trace =
        let start : Watched = record { source = r; last = none; trace = trace } in
        elim (checked r) [
          | err error ↦ (start, err error)
          | ok keys ↦
              let run = follow (ltb 1 (length keys)) start messages in
              elim (prepare r setup keys) [
                | err error ↦ (report start error, err error)
                | ok _ ↦ run
              ]
        ]
