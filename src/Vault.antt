-- ===== src/Vault.antt =====
-- dynamic-config-vault/src/auth.rs: how a client of Vault authenticates, and the session that keeps
-- its token.
pub mod Session
pub mod Secrets
pub mod Requests
pub mod Reads
pub mod Watch
pub mod Transit
mod Tests
use dynamic_config_remote.Common.{
  ℕ, Bool, true, false, Option, none, some, Text, text, ◌++◌, Result, ok, err,
}
use dynamic_config_remote.Store.Credential.{Issued, Cached, Outcome, new, get, invalidate}

-- `Auth`, with the path of the mount that each method but a supplied token logs in at.
pub data Auth : Type 0 where
  token : Text → Auth
  app_role : Text → Text → Text → Auth
  kubernetes : Text → Text → Text → Auth
  jwt : Text → Option Text → Text → Auth
  userpass : Text → Text → Text → Auth
  ldap : Text → Text → Text → Auth
  certificate : Text → Option Text → Auth

abbrev pub service_account_token : Text
service_account_token = text "/var/run/secrets/kubernetes.io/serviceaccount/token"

abbrev pub from_option {ℓ} : {A : Type ℓ} → (Text → A) → A → Option Text → A
from_option f d none = d
from_option f d (some t) = f t

unfoldable pub at_mount : Text → Auth → Auth
at_mount p (token t) = token t
at_mount p (app_role mount role_id secret_id) = app_role p role_id secret_id
at_mount p (kubernetes mount role token_path) = kubernetes p role token_path
at_mount p (jwt mount role j) = jwt p role j
at_mount p (userpass mount username password) = userpass p username password
at_mount p (ldap mount username password) = ldap p username password
at_mount p (certificate mount name) = certificate p name

unfoldable pub with_role : Text → Auth → Auth
with_role named (kubernetes mount role token_path) = kubernetes mount named token_path
with_role named (jwt mount role j) = jwt mount (some named) j
with_role named (certificate mount name) = certificate mount (some named)
with_role named (token t) = token t
with_role named (app_role mount role_id secret_id) = app_role mount role_id secret_id
with_role named (userpass mount username password) = userpass mount username password
with_role named (ldap mount username password) = ldap mount username password

unfoldable pub with_token_path : Text → Auth → Auth
with_token_path p (kubernetes mount role token_path) = kubernetes mount role p
with_token_path p (token t) = token t
with_token_path p (app_role mount role_id secret_id) = app_role mount role_id secret_id
with_token_path p (jwt mount role j) = jwt mount role j
with_token_path p (userpass mount username password) = userpass mount username password
with_token_path p (ldap mount username password) = ldap mount username password
with_token_path p (certificate mount name) = certificate mount name

-- `auth/{mount}/login`
unfoldable pub login_path : Text → Text
login_path mount = text "auth/" ++ (mount ++ text "/login")

-- Where to log in; a supplied token has nowhere to.
unfoldable pub path : Auth → Option Text
unfolding login_path
path (token t) = none
path (app_role mount role_id secret_id) = some (login_path mount)
path (kubernetes mount role token_path) = some (login_path mount)
path (jwt mount role j) = some (login_path mount)
path (certificate mount name) = some (login_path mount)
path (userpass mount username password) = some (login_path mount ++ (text "/" ++ username))
path (ldap mount username password) = some (login_path mount ++ (text "/" ++ username))

-- `Token`: what Vault issues, and whether it may be renewed.
pub record Token : Type 0 where
  pub secret : Text
  pub renewable : Bool

-- What the session does with the token that it replaces: a renewable one is renewed, and a renewal
-- that fails falls back to a login.
unfoldable pub obtain {ℓ} :
    {E : Type ℓ}
    → Result (Issued Token) E
    → (Text → Result (Issued Token) E)
    → Option Token
    → Result (Issued Token) E
obtain login renew none = login
obtain login renew (some t) = elim t.renewable [
  | true ↦ elim (renew t.secret) [ ok issued ↦ ok issued | err e ↦ login ]
  | false ↦ login
]

abbrev pub Session : Type 0
Session = Cached Token

unfoldable pub new_session : Session
unfolding new
new_session = new

-- `Session::token`, up to the `.map(|token| token.secret)` of its answer.
unfoldable pub session_token {ℓ} :
    {E : Type ℓ}
    → (last : ℕ) → Session
    → ℕ
    → ℕ
    → Result (Issued Token) E
    → (Text → Result (Issued Token) E)
    → Outcome Token E
unfolding get obtain
session_token last s now later login renew = get last s now later (obtain login renew)
