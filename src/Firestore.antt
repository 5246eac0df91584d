-- ===== src/Firestore.antt =====
-- dynamic-config-firestore/src/lib.rs: a source that reads documents of Firestore, with the tokens of
-- dynamic-config-firestore/src/auth.rs.
--
-- The HTTP client is the crate ureq and the parser of JSON the crate serde_json; what they answer is
-- an argument. An `Instant` is a number of nanoseconds, and `latest` the last that can be represented.
pub mod Values
pub mod Session
pub mod Documents
pub mod Watch
mod Tests
use mathlib.Core.Option
use dynamic_config_remote.Common.{
  ℕ, Bool, true, false, List, [], ◌∷◌, ◌++◌, Option, none, some, Text, text, join, map,
  trim_start_char, trim_end_char, strip_prefix,
}
use dynamic_config_remote.Engine.{Engine}
use dynamic_config_remote.Store.Attempts.{Attempts, silent, reporting}
use dynamic_config_remote.Store.Credential.{Cached, new, invalidate}

pub data Keys : Type 0 where
  one : Text → Keys
  several : List Text → Keys

abbrev pub describe_keys : Keys → Text
describe_keys (one p) = p
describe_keys (several paths) = text "documents " ++ join (text ", ") paths

-- `trim_matches('/')`
abbrev pub trim_slashes : Text → Text
trim_slashes p = trim_end_char b'/' (trim_start_char b'/' p)

unfoldable pub trimmed : Keys → Keys
trimmed (one p) = one (trim_slashes p)
trimmed (several paths) = several (map trim_slashes paths)

pub data Auth : Type 0 where
  emulator : Auth
  access_token : Text → Auth
  metadata_server : Text → Auth

abbrev pub metadata_token_url : Text
metadata_token_url =
    text
      "http://metadata.google.internal/computeMetadata/v1/instance/service-accounts/default/token"

unfoldable pub with_url : Text → Auth → Auth
with_url url (metadata_server existing) = metadata_server url
with_url url emulator = emulator
with_url url (access_token token) = access_token token

abbrev pub can_refresh : Auth → Bool
can_refresh (metadata_server url) = true
can_refresh _ = false

pub record Firestore : Type 0 where
  pub project : Text
  pub database : Text
  pub keys : Keys
  pub key : Text
  pub auth : Auth
  pub session : Cached Text
  pub endpoint : Option Text
  pub attempts : Attempts

unfoldable pub new_firestore : Text → Keys → Firestore
unfolding trimmed new
new_firestore project p = record {
  project = project;
  database = text "(default)";
  keys = trimmed p;
  key = text "db";
  auth = emulator;
  session = new;
  endpoint = none;
  attempts = silent;
}

abbrev pub with_key : Text → Firestore → Firestore
with_key key f = record f { key = key }

abbrev pub with_database : Text → Firestore → Firestore
with_database database f = record f { database = database }

-- A token of another identity is not the one to present.
unfoldable pub with_auth : Auth → Firestore → Firestore
unfolding invalidate
with_auth auth f = record f { auth = auth; session = invalidate f.session }

abbrev pub with_endpoint : Text → Firestore → Firestore
with_endpoint endpoint f = record f { endpoint = some (trim_end_char b'/' endpoint) }

abbrev pub reporting_to : Firestore → Firestore
reporting_to f = record f { attempts = reporting }

unfoldable pub host : Firestore → Text
host f = elim f.endpoint [
  | some endpoint ↦ endpoint
  | none ↦ text "https://firestore.googleapis.com"
]

unfoldable pub root : Firestore → Text
root f =
    text "projects/" ++ (f.project ++ (text "/databases/" ++ (f.database ++ text "/documents")))

unfoldable pub url : Firestore → Text → Text
unfolding host root
url f p = host f ++ (text "/v1/" ++ (root f ++ b'/' ∷ p))

unfoldable pub batch_url : Firestore → Text
unfolding host root
batch_url f = host f ++ (text "/v1/" ++ (root f ++ text ":batchGet"))

unfoldable pub name_of : Firestore → Text → Text
unfolding root
name_of f p = root f ++ b'/' ∷ p

unfoldable pub path_of : Firestore → Text → Text
unfolding root
path_of f name = elim (strip_prefix (root f ++ b'/' ∷ []) name) [ some p ↦ p | none ↦ name ]

unfoldable pub describe : Firestore → Text
describe f =
    let place = f.project ++ b'/' ∷ describe_keys f.keys in
    elim f.endpoint [
      | some endpoint ↦ text "firestore " ++ (endpoint ++ b' ' ∷ place)
      | none ↦ text "firestore " ++ place
    ]

unfoldable pub complaint : (e : Engine) → Firestore → Text → e.Error
unfolding describe
complaint e f what = e.remote (describe f ++ (text ": " ++ what))
