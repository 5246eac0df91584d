-- ===== src/Consul.antt =====
-- dynamic-config-consul/src/lib.rs: a source that reads keys of a Consul agent.
--
-- The HTTP client is the crate ureq and the decoder of base64 the crate base64; what they answer is
-- an argument. A `get` makes at most two requests and asks for a token before each.
pub mod Session
pub mod Entries
pub mod Watch
mod Tests
use mathlib.Core.Option
use dynamic_config_remote.Common.{
  ℕ, ◌+◌, ◌*◌, ◌/◌, ◌^◌, Bool, true, false, not, ◌&&◌, List, [], ◌∷◌, ◌++◌, Option, none, some,
  Text, text, text_eq, join, trim, trim_start_char, trim_end_char, ends_with_char, contains_char,
  is_some, ltb, leb, ◌==◌, if◌then◌else◌, Result, ok, err, ◌>>=◌, ok_or, map_err, is_empty, decimal,
}
use dynamic_config_remote.Engine.{Engine}
use dynamic_config_remote.Json.{Json, get_json, as_str, as_u64, and_then, unwrap_or}
use dynamic_config_remote.Store.Attempts.{Attempts, silent, reporting}
use dynamic_config_remote.Store.Credential.{Cached, Issued, Outcome, new, get, invalidate}
use dynamic_config_remote.Store.Documents.{
  Overlap, later_wins, refused, agreed_format, within_key_budget, under_prefix,
}
use dynamic_config_remote.Store.Tls.{TlsConfig}

abbrev pub consul_timeout : ℕ
consul_timeout = 10 * 10 ^ 9

abbrev pub default_wait : ℕ
default_wait = 60 * 10 ^ 9

-- `with_wait`'s ceiling.
abbrev pub ceiling : ℕ
ceiling = 600 * 10 ^ 9

pub data Keys : Type 0 where
  one : Text → Keys
  several : List Text → Keys
  prefix : Text → Keys

abbrev pub named : Keys → List Text
named (one key) = key ∷ []
named (several keys) = keys
named (prefix p) = []

abbrev pub describe_keys : Keys → Text
describe_keys (one key) = text "kv/" ++ key
describe_keys (several keys) = text "keys " ++ join (text ", ") keys
describe_keys (prefix p) = text "prefix " ++ p

abbrev pub overlap : Keys → Overlap
overlap (one key) = later_wins
overlap (several keys) = later_wins
overlap (prefix p) = refused

-- dynamic-config-consul/src/auth.rs
pub data Bearer : Type 0 where
  literal : Text → Bearer
  file : Text → Bearer

pub data Auth : Type 0 where
  anonymous : Auth
  token : Text → Auth
  login : Text → Bearer → List (Text × Text) → Auth

abbrev pub with_bearer_file : Text → Auth → Auth
with_bearer_file p (login method bearer meta) = login method (file p) meta
with_bearer_file p auth = auth

abbrev pub with_meta : Text → Text → Auth → Auth
with_meta name value (login method bearer meta) = login method bearer (meta ++ (name, value) ∷ [])
with_meta name value auth = auth

abbrev pub describe_auth : Auth → Text
describe_auth anonymous = text "no token"
describe_auth (token t) = text "a supplied token"
describe_auth (login method bearer meta) = text "auth method `" ++ (method ++ text "`")

abbrev pub can_relogin : Auth → Bool
can_relogin (login method bearer meta) = true
can_relogin _ = false

-- What is posted to log in: the method, the bearer token and the meta data.
pub record LoginBody : Type 0 where
  pub auth_method : Text
  pub bearer_token : Text
  pub meta : List (Text × Text)

-- What is read of a `ureq::Error`.
pub record HttpError : Type 0 where
  pub status : Option ℕ
  pub shown : Text

abbrev pub is_status : ℕ → HttpError → Bool
is_status code error = elim error.status [ none ↦ false | some s ↦ s == code ]

-- An answer: its `X-Consul-Index` and its body, read as a list of values.
pub record Reply : Type 0 where
  pub index_header : Option Text
  pub body : Result (List Json) Text

-- What a `get` meets: the bearer files, the answer to a login (the body read as JSON), the answer to
-- each of its two requests with their token, and the readings of the clock around each token.
pub record Agent : Type 0 where
  pub bearer_file : Text → Result Text Text
  pub login_reply : LoginBody → Result (Result Json Text) HttpError
  pub first_reply : Option Text → Result Reply HttpError
  pub second_reply : Option Text → Result Reply HttpError
  pub first_times : ℕ × ℕ
  pub second_times : ℕ × ℕ

module _ (e : Engine) where
  open e use {Error, Format}

  pub record Consul : Type 0 where
    pub address : Text
    pub keys : Keys
    pub format : Option Format
    pub disagreement : Option Text
    pub auth : Auth
    pub session : Cached Text
    pub datacenter : Option Text
    pub timeout : ℕ
    pub wait : ℕ
    pub agent : Bool
    pub tls : Option TlsConfig
    pub attempts : Attempts

  unfoldable pub new_consul : Text → Keys → Consul
  unfolding new
  new_consul address keys =
      let settled : Option Format × Option Text = elim (agreed_format e (named keys)) [
        | ok format ↦ (format, none)
        | err complaint ↦ (none, some complaint)
      ] in
      record {
        address = trim_end_char b'/' address;
        keys = keys;
        format = settled.0;
        disagreement = settled.1;
        auth = anonymous;
        session = new;
        datacenter = none;
        timeout = consul_timeout;
        wait = default_wait;
        agent = false;
        tls = none;
        attempts = silent;
      }

  abbrev pub with_format : Format → Consul → Consul
  with_format format c = record c { format = some format; disagreement = none }

  -- Another method makes what was issued under the last one unusable.
  abbrev pub with_auth : Auth → Consul → Consul
  with_auth auth c = record c { auth = auth; session = invalidate c.session }

  abbrev pub with_wait : ℕ → Consul → Consul
  with_wait wait c = record c { wait = if leb wait ceiling then wait else ceiling }

  unfoldable pub describe : Consul → Text
  describe c = text "consul " ++ (c.address ++ (text " " ++ describe_keys c.keys))

  unfoldable pub complaint : Consul → Text → Error
  unfolding describe
  complaint c what = e.remote (describe c ++ (text ": " ++ what))

  unfoldable pub settled_format : Consul → Result Format Error
  unfolding complaint
  settled_format c = elim c.disagreement [
    | some said ↦ err (complaint c said)
    | none ↦ ok_or c.format (complaint c (text "the key names no format; call `with_format`"))
  ]

  -- The key that a watch blocks on, and whether it is a subtree.
  unfoldable pub watched : Consul → Result (Text × Bool) Error
  unfolding complaint
  watched c = elim c.keys [
    | one key ↦ ok (key, false)
    | prefix p ↦ ok (p, true)
    | several keys ↦ err (
        complaint c (
          text
            "a source that reads a named list of keys cannot be watched; Consul has no batch read, so the set would be blocked on one key and then read key by key, which can deliver a document that never existed — watch a prefix, or poll `refresh_remote()` on a timer instead"))
  ]

  abbrev separator : Text → Text
  separator url = if contains_char b'?' url then b'&' ∷ [] else b'?' ∷ []

  unfoldable pub url : Consul → Text → Bool → Text
  url c key recurse =
      let plain = c.address ++ (text "/v1/kv/" ++ trim_start_char b'/' key) in
      let recursed = if recurse then plain ++ text "?recurse=true" else plain in
      elim c.datacenter [
        | none ↦ recursed
        | some datacenter ↦ recursed ++ (separator recursed ++ (text "dc=" ++ datacenter))
      ]

  -- The whole seconds of the wait, at least one.
  unfoldable pub blocking_url : Consul → Text → Bool → ℕ → Text
  unfolding url
  blocking_url c key recurse index =
      let plain = url c key recurse in
      let seconds = c.wait / 10 ^ 9 in
      plain
      ++ (separator plain
          ++ (text "index="
              ++ (decimal index
                  ++ (text "&wait="
                      ++ (decimal (if seconds == 0 then 1 else seconds) ++ text "s")))))
