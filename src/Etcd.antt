-- ===== src/Etcd.antt =====
-- dynamic-config-etcd/src/lib.rs: a source that reads keys of an etcd cluster.
--
-- The client is the crate etcd-client, and what the cluster answers is an argument. A read is under
-- a deadline that covers the wait for the client's lock: past it the answer is that it timed out.
pub mod Reads
pub mod Watch
mod Tests
use mathlib.Core.Option
use dynamic_config_remote.Common.{
  ℕ, ◌+◌, ◌*◌, ◌^◌, Bool, true, false, ◌||◌, List, [], ◌∷◌, ◌++◌, Option, none, some, Text, text,
  join, split_at_text, is_some, any, ltb, leb, if◌then◌else◌, Result, ok, err, ◌>>=◌, ok_or,
  map_err, ensure, is_empty, length, decimal,
}
use dynamic_config_remote.Engine.{Engine, Documents}
use dynamic_config_remote.Store.Attempts.{Attempts, silent}
use dynamic_config_remote.Store.Documents.{
  Overlap, later_wins, refused, merged, agreed_format, within_key_budget, under_prefix, most_keys,
}
use dynamic_config_remote.Store.Tls.{
  TlsConfig, ca_certificate_pem, client_certificate_pem, unsupported,
}

abbrev pub invalid_token : Text
invalid_token = text "invalid auth token"

abbrev pub auth_refusals : List Text
auth_refusals =
    invalid_token
    ∷ text "authentication failed"
    ∷ text "permission denied"
    ∷ text "user name is empty"
    ∷ text "user name not found"
    ∷ []

abbrev pub most_transaction_keys : ℕ
most_transaction_keys = 128

abbrev pub default_timeout : ℕ
default_timeout = 10 * 10 ^ 9

pub data Keys : Type 0 where
  one : Text → Keys
  several : List Text → Keys
  prefix : Text → Keys

abbrev pub named : Keys → List Text
named (one key) = key ∷ []
named (several keys) = keys
named (prefix p) = []

abbrev pub describe_keys : Keys → Text
describe_keys (one key) = text "key " ++ key
describe_keys (several keys) = text "keys " ++ join (text ", ") keys
describe_keys (prefix p) = text "prefix " ++ p

abbrev pub overlap : Keys → Overlap
overlap (one key) = later_wins
overlap (several keys) = later_wins
overlap (prefix p) = refused

-- `contains` of a text.
unfoldable pub contains : Text → Text → Bool
unfolding split_at_text
contains message pattern_ = is_some (split_at_text pattern_ message)

unfoldable pub is_auth_refusal : Text → Bool
unfolding contains
is_auth_refusal message = any (contains message) auth_refusals

-- What is read of an `etcd_client::Error`: its text, and the message of a status of gRPC.
pub record EtcdError : Type 0 where
  pub shown : Text
  pub status : Option Text

-- A key and its value, or the text of the error that it is not UTF-8.
pub record KeyValue : Type 0 where
  pub key : Result Text Text
  pub value : Result Text Text
  pub mod_revision : ℕ

-- The answer to one operation of a transaction.
pub data OpResponse : Type 0 where
  got : List KeyValue → OpResponse
  something_else : OpResponse

-- What the cluster answers to one read; the last is whether the deadline passed.
pub record Cluster : Type 0 where
  pub range : Text → Result (List KeyValue) EtcdError
  pub txn : List Text → Result (List OpResponse) EtcdError
  pub prefixed : Text → Option ℕ → Result (List KeyValue) EtcdError
  pub late : Bool

-- `debug_duration` is the `{:?}` of a `Duration`.
module _ (e : Engine) (debug_duration : ℕ → Text) where
  open e use {Error, Format}

  pub record Etcd : Type 0 where
    pub keys : Keys
    pub format : Option Format
    pub disagreement : Option Text
    pub endpoints : Text
    pub timeout : ℕ
    pub attempts : Attempts

  unfoldable pub build : Keys → Text → Etcd
  build keys endpoints =
      let settled : Option Format × Option Text = elim (agreed_format e (named keys)) [
        | ok format ↦ (format, none)
        | err complaint ↦ (none, some complaint)
      ] in
      record {
        keys = keys;
        format = settled.0;
        disagreement = settled.1;
        endpoints = endpoints;
        timeout = default_timeout;
        attempts = silent;
      }

  abbrev pub with_format : Format → Etcd → Etcd
  with_format format s = record s { format = some format; disagreement = none }

  unfoldable pub describe : Etcd → Text
  describe s = text "etcd " ++ (s.endpoints ++ (text " " ++ describe_keys s.keys))

  unfoldable pub complaint : Etcd → Text → Error
  unfolding describe
  complaint s what = e.remote (describe s ++ (text ": " ++ what))

  unfoldable pub settled_format : Etcd → Result Format Error
  unfolding complaint
  settled_format s = elim s.disagreement [
    | some said ↦ err (complaint s said)
    | none ↦ ok_or s.format (complaint s (text "the key names no format; call `with_format`"))
  ]

  unfoldable pub classified : Text → EtcdError → Error
  unfolding is_auth_refusal
  classified message error = elim error.status [
    | none ↦ e.remote message
    | some status ↦ if is_auth_refusal status then e.auth message else e.remote message
  ]

  abbrev pub wrapped : Etcd → EtcdError → Error
  wrapped s error = classified (describe s ++ (text ": " ++ error.shown)) error

  unfoldable pub is_expired_token : Error → Bool
  unfolding contains
  is_expired_token error = contains (e.display error) invalid_token
