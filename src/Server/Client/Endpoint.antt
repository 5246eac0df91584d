-- ===== src/Server/Client/Endpoint.antt =====
-- dynamic-config-server/src/client/http.rs, `Endpoint`: where the server is.
pub mod Spelling
mod Tests
use mathlib.Core.Option
use dynamic_config_remote.Common.{
  ℕ, ◌^◌, Bool, true, false, not, ◌&&◌, ◌||◌, List, [], ◌∷◌, ◌++◌, Option, none, some, Text, text,
  split_at_text, split_once, rsplit_once, strip_prefix, contains_char, eq_ignore_ascii_case,
  trim_end_by, parse_unsigned, decimal, is_empty, ◌==◌, if◌then◌else◌, Result, ok, err, ◌>>=◌,
  ensure, ok_or,
}
use dynamic_config_remote.Engine.{Engine}

pub record Endpoint : Type 0 where
  pub secure : Bool
  pub host : Text
  pub port : ℕ
  pub prefix : Text

abbrev pub default_port : Bool → ℕ
default_port secure = if secure then 443 else 80

abbrev pub with_port : Text → Option ℕ → Option (Text × ℕ)
with_port host none = none
with_port host (some port) = some (host, port)

-- A port is a `u16`.
abbrev pub parse_port : Text → Option ℕ
parse_port digits = parse_unsigned (2 ^ 16) digits

-- What stands behind the `]` of a bracketed address.
unfoldable pub bracketed_port : Bool → Text → Text → Option (Text × ℕ)
bracketed_port secure host [] = some (host, default_port secure)
bracketed_port secure host (c ∷ tail) = if c == b':' then with_port host (parse_port tail) else none

unfoldable pub split_authority : Text → Bool → Option (Text × ℕ)
unfolding bracketed_port
split_authority authority secure = elim (strip_prefix (b'[' ∷ []) authority) [
  | some rest ↦ elim (split_once b']' rest) [
    | none ↦ none
    | some (host, tail) ↦ bracketed_port secure host tail
  ]
  | none ↦ elim (rsplit_once b':' authority) [
    | some (host, port) ↦ with_port host (parse_port port)
    | none ↦ some (authority, default_port secure)
  ]
]

unfoldable pub scheme_of : Text → Option Bool
scheme_of scheme =
    if eq_ignore_ascii_case scheme (text "http")
    then some false
    else if eq_ignore_ascii_case scheme (text "https")
    then some true
    else none

-- The authority, and the path from its first `/` on.
unfoldable pub split_path : Text → Text × Text
split_path rest = elim (split_once b'/' rest) [
  | none ↦ (rest, [])
  | some (authority, path) ↦ (authority, b'/' ∷ path)
]

unfoldable pub authority_of : Endpoint → Text
authority_of e =
    let bracketed = if contains_char b':' e.host then (b'[' ∷ e.host) ++ b']' ∷ [] else e.host in
    if (e.secure && e.port == 443) || (not e.secure && e.port == 80)
    then bracketed
    else bracketed ++ b':' ∷ decimal e.port

unfoldable pub path_of : Endpoint → Text → Text
path_of e suffix = e.prefix ++ suffix

module _ (e : Engine) where
  abbrev refuse : Text → Text → e.Error
  refuse described why = e.remote (described ++ (text ": " ++ why))

  unfoldable pub parse : Text → Text → Result Endpoint e.Error
  unfolding split_authority scheme_of split_path
  parse url described = do
    (scheme, rest) ←
        ok_or (split_at_text (text "://") url)
          (refuse described (text "the URL needs an `http://` or `https://` scheme"))
    secure ←
        ok_or (scheme_of scheme)
          (refuse described (text "the URL's scheme has to be `http` or `https`"))
    _ ← ensure (not (contains_char b'@' (split_path rest).0)) (
        refuse described (
          text
            "the URL carries a `user:password@` authority, which this server does not accept as a credential; put the bearer token in `with_token` instead"))
    (host, port) ← ok_or (split_authority (split_path rest).0 secure) (
        refuse described
          (text "the URL's host and port are not `host`, `host:port` or `[v6]:port`"))
    _ ← ensure (not (is_empty host)) (refuse described (text "the URL names no host"))
    ok (record {
      secure = secure;
      host = host;
      port = port;
      prefix = trim_end_by (λ c. c == b'/') (split_path rest).1;
    })
