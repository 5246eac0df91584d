-- ===== src/Nats.antt =====
-- dynamic-config-nats/src/lib.rs: a source that reads keys of a JetStream bucket.
--
-- The client is the crate async-nats, and what it answers is an argument, as is the decoder of
-- UTF-8. It reconnects by itself, which is none of this crate's code.
pub mod Tls
pub mod Watch
mod Tests
use mathlib.Core.Option
use dynamic_config_remote.Common.{
  ℕ, ◌*◌, ◌^◌, Bool, true, false, List, [], ◌∷◌, ◌++◌, Option, none, some, Text, text, join,
  if◌then◌else◌, Result, ok, err, ◌>>=◌, ok_or, map_err,
}
use dynamic_config_remote.Engine.{Engine, Documents}
use dynamic_config_remote.Store.Attempts.{Attempts, silent, reporting}
use dynamic_config_remote.Store.Redaction.{secret, redacted_list}
use dynamic_config_remote.Store.Documents.{Overlap, later_wins, merged, agreed_format}

abbrev pub default_timeout : ℕ
default_timeout = 10 * 10 ^ 9

pub data Keys : Type 0 where
  one : Text → Keys
  several : List Text → Keys

abbrev pub named : Keys → List Text
named (one key) = key ∷ []
named (several keys) = keys

abbrev pub describe_keys : Keys → Text
describe_keys (one key) = text "key " ++ key
describe_keys (several keys) = text "keys " ++ join (text ", ") keys

-- `redacted`: a lone part of an authority may be a token.
abbrev pub redacted : Text → Text
redacted servers = redacted_list secret servers

-- What is read of a `ConnectError`: whether its kind is a refused credential, and its text.
pub record ConnectError : Type 0 where
  pub is_auth : Bool
  pub shown : Text

-- How a `get` ends: in time or not, with an error, no value or the bytes of one.
pub data Answer : Type 0 where
  timed_out : Answer
  failed : Text → Answer
  no_value : Answer
  value : List ℕ → Answer

module _ (e : Engine) (from_utf8 : List ℕ → Result Text Text) (debug_duration : ℕ → Text) where
  open e use {Error, Format}

  pub record Nats : Type 0 where
    pub keys : Keys
    pub format : Option Format
    pub disagreement : Option Text
    pub server : Text
    pub bucket : Text
    pub timeout : ℕ
    pub attempts : Attempts

  unfoldable pub agreed : Keys → Option Format × Option Text
  agreed keys = elim (agreed_format e (named keys)) [
    | ok format ↦ (format, none)
    | err complaint ↦ (none, some complaint)
  ]

  unfoldable pub of_server : Text → Text → Keys → Nats
  unfolding agreed
  of_server server bucket keys =
      let (format, disagreement) = agreed keys in
      record {
        keys = keys;
        format = format;
        disagreement = disagreement;
        server = server;
        bucket = bucket;
        timeout = default_timeout;
        attempts = silent;
      }

  -- `from_store`: the store does not say which server it was reached through.
  unfoldable pub from_store : Text → Keys → Nats
  unfolding of_server
  from_store bucket keys = of_server (text "<an existing connection>") bucket keys

  -- `with_options`: the address that is kept is the redacted one.
  unfoldable pub with_options :
      Text
      → Text
      → Keys
      → Result (Unit {0}) ConnectError
      → Result (Unit {0}) Text
      → Result Nats Error
  unfolding of_server
  with_options server bucket keys connected opened =
      let described = redacted server in
      do
        _ ←
            map_err
              (λ error.
                let shown = text "nats " ++ (described ++ (text ": " ++ error.shown)) in
                if error.is_auth then e.auth shown else e.remote shown)
              connected
        _ ←
            map_err
              (λ error. e.remote (
                text "nats "
                ++ (described ++ (text " bucket " ++ (bucket ++ (text ": " ++ error))))))
              opened
        ok (of_server described bucket keys)

  abbrev pub with_format : Format → Nats → Nats
  with_format format n = record n { format = some format; disagreement = none }

  abbrev pub with_timeout : ℕ → Nats → Nats
  with_timeout timeout n = record n { timeout = timeout }

  abbrev pub reporting_to : Nats → Nats
  reporting_to n = record n { attempts = reporting }

  unfoldable pub describe : Nats → Text
  describe n =
      text "nats "
      ++ (n.server ++ (text " bucket " ++ (n.bucket ++ (text " " ++ describe_keys n.keys))))

  unfoldable pub complaint : Nats → Text → Error
  unfolding describe
  complaint n what = e.remote (describe n ++ (text ": " ++ what))

  unfoldable pub settled_format : Nats → Result Format Error
  unfolding complaint
  settled_format n = elim n.disagreement [
    | some said ↦ err (complaint n said)
    | none ↦ ok_or n.format (complaint n (text "the key names no format; call `with_format`"))
  ]

  unfoldable pub single_key : Nats → Result Text Error
  unfolding complaint
  single_key n = elim n.keys [
    | one key ↦ ok key
    | several keys ↦ err (
        complaint n (
          text
            "a source that reads several keys cannot be watched; poll `refresh_remote_async()` on a timer instead"))
  ]

  unfoldable pub read : Nats → (Text → Answer) → Text → Result Text Error
  unfolding complaint
  read n store key =
      let decoded : List ℕ → Result Text Error = λ bytes.
        map_err (λ error. complaint n (text "`" ++ (key ++ (text "` is not UTF-8: " ++ error))))
          (from_utf8 bytes) in
      elim (store key) [
        | timed_out ↦ err (
            complaint n
              (text "`" ++ (key ++ (text "` timed out after " ++ debug_duration n.timeout))))
        | failed error ↦ err (complaint n error)
        | no_value ↦ err (complaint n (text "`" ++ (key ++ text "` holds no value")))
        | value bytes ↦ decoded bytes
      ]

  unfoldable pub documents : Nats → (Text → Answer) → List Text → Result (List (Text × Text)) Error
  unfolding read
  documents n store [] = ok []
  documents n store (key ∷ keys) = do
    body ← read n store key
    rest ← documents n store keys
    ok ((key, body) ∷ rest)

  unfoldable pub fetch : (d : Documents e) → Nats → (Text → Answer) → Result d.Fetched Error
  unfolding settled_format documents describe
  fetch d n store = do
    format ← settled_format n
    found ← documents n store (named n.keys)
    merged e d found format later_wins (describe n)
