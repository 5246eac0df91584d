-- ===== src/Vault/Requests.antt =====
-- dynamic-config-vault/src/lib.rs and `Auth::body` of dynamic-config-vault/src/auth.rs: requests to
-- Vault, each under a permit and a token.
--
-- The HTTP client is the crate ureq, the parser of JSON the crate serde_json, and what they answer is
-- an argument. A request is one step on the counter of permits: it takes one and gives it back, and
-- the renewal of a token, which is a request of its own, takes a second one meanwhile.
use dynamic_config_remote.Common.{
  ℕ, ◌*◌, Bool, true, false, [], ◌++◌, Option, none, some, Text, text, trim, is_empty, ltb, ◌==◌,
  ◌||◌, if◌then◌else◌, Result, ok, err, ◌>>=◌, ok_or, map_err, decimal,
}
use dynamic_config_remote.Engine.{Engine}
use dynamic_config_remote.Json.{
  Json, null, object, string, entry, no_entries, get_json, as_str, as_u64, as_bool, and_then,
  unwrap_or,
}
use dynamic_config_remote.Store.Concurrency.{StoreRuntimePolicy, admit, give_back}
use dynamic_config_remote.Store.Credential.{Issued, second}
use dynamic_config_remote.Vault.{
  Auth, token, app_role, kubernetes, jwt, userpass, ldap, certificate, Token, Session, path,
  session_token,
}
use dynamic_config_remote.Vault.Secrets.{Place, describe, complaint}

-- What is read of a `ureq::Error`.
pub record HttpError : Type 0 where
  pub status : Option ℕ
  pub shown : Text

abbrev pub is_status : ℕ → HttpError → Bool
is_status code error = elim error.status [ none ↦ false | some s ↦ s == code ]

-- What a request meets: the files of tokens, the parser, the answers to a login and to a renewal, the
-- answer to a read with its token, for the first time and for the retry, and the clock.
pub record Meets : Type 0 where
  pub token_file : Text → Result Text Text
  pub from_str : Text → Result Json Text
  pub login_reply : Text → Json → Result (Result Json Text) HttpError
  pub post_reply : Text → Text → Json → Result (Result Text Text) HttpError
  pub first_reply : Text → Result (Result Json Text) HttpError
  pub second_reply : Text → Result (Result Json Text) HttpError
  pub first_times : ℕ × ℕ
  pub second_times : ℕ × ℕ

abbrev pub pair : Text → Text → Json → Json
pair key value (object table) = object (entry key (string value) table)
pair key value other = other

abbrev pub no_fields : Json
no_fields = object no_entries

abbrev pub auth_name : Auth → Text
auth_name (token t) = text "a supplied token"
auth_name (app_role mount role_id secret_id) = text "approle"
auth_name (kubernetes mount role token_path) = text "kubernetes"
auth_name (jwt mount role j) = text "jwt"
auth_name (userpass mount username password) = text "userpass"
auth_name (ldap mount username password) = text "ldap"
auth_name (certificate mount name) = text "cert"

abbrev pub can_relogin : Auth → Bool
can_relogin (token t) = false
can_relogin _ = true

module _ (e : Engine) (to_text : Json → Text) (latest : ℕ) where
  open e use {Error}

  -- `CallError`
  pub data CallError : Type 0 where
    forbidden other : Error → CallError

  abbrev pub into_error : CallError → Error
  into_error (forbidden error) = error
  into_error (other error) = error

  pub record Vault : Type 0 where
    pub place : Place e to_text
    pub auth : Auth
    pub session : Session
    pub concurrency : StoreRuntimePolicy

  -- The fields of a login; a projected token is read each time, since the kubelet rotates it.
  unfoldable pub login_fields : Meets → Auth → Result Json Error
  login_fields m (token t) = ok no_fields
  login_fields m (app_role mount role_id secret_id) =
      ok (pair (text "role_id") role_id (pair (text "secret_id") secret_id no_fields))
  login_fields m (kubernetes mount role token_path) = do
    contents ←
        map_err
          (λ error. e.remote (
            text "vault: cannot read the service-account token at "
            ++ (token_path ++ (text ": " ++ error))))
          (m.token_file token_path)
    ok (pair (text "role") role (pair (text "jwt") (trim contents) no_fields))
  login_fields m (jwt mount (some role) j) =
      ok (pair (text "role") role (pair (text "jwt") j no_fields))
  login_fields m (jwt mount none j) = ok (pair (text "jwt") j no_fields)
  login_fields m (userpass mount username password) = ok (pair (text "password") password no_fields)
  login_fields m (ldap mount username password) = ok (pair (text "password") password no_fields)
  login_fields m (certificate mount (some name)) = ok (pair (text "name") name no_fields)
  login_fields m (certificate mount none) = ok no_fields

  -- `token_from` of the block `auth`. A length of zero does not end.
  unfoldable pub token_from : Vault → Json → Result (Issued Token) Error
  unfolding complaint
  token_from v response = do
    block ←
        ok_or (get_json (text "auth") response)
          (complaint e to_text v.place (text "the response has no `auth` block"))
    ok (record {
      value = record {
        secret = unwrap_or (and_then (get_json (text "client_token") block) as_str) [];
        renewable = unwrap_or (and_then (get_json (text "renewable") block) as_bool) false;
      };
      ttl =
          and_then (and_then (get_json (text "lease_duration") block) as_u64)
            λ seconds. if ltb 0 seconds then some (seconds * second) else none;
    })

  abbrev pub login_error : Vault → HttpError → Error
  login_error v error =
      let shown =
        describe e to_text v.place
        ++ (text ": logging in with " ++ (auth_name v.auth ++ (text " failed: " ++ error.shown))) in
      if is_status 400 error || is_status 403 error then e.auth shown else e.remote shown

  unfoldable pub log_in : Vault → Meets → Result (Issued Token) Error
  unfolding login_fields token_from path complaint describe
  log_in v m = elim (path v.auth) [
    | none ↦ err (complaint e to_text v.place (auth_name v.auth ++ text " needs no login"))
    | some p ↦ do
      fields ← login_fields m v.auth
      answered ←
          map_err (login_error v) (m.login_reply (v.place.address ++ (text "/v1/" ++ p)) fields)
      response ←
          map_err
            (λ error.
              complaint e to_text v.place (text "the login response was not JSON: " ++ error))
            answered
      token_from v response
  ]

  abbrev pub too_many : Vault → Error
  too_many v =
      complaint e to_text v.place
        (decimal v.concurrency.limit ++ text " requests already in flight")

  -- The body of a `post`: an empty answer is the success of a revocation.
  unfoldable pub posted : Vault → Meets → Text → Text → Json → Text → Result Json Error
  unfolding complaint
  posted v m to secret body what = do
    answered ←
        map_err
          (λ (error : HttpError).
            complaint e to_text v.place (what ++ (text " failed: " ++ error.shown)))
          (m.post_reply to secret body)
    received ←
        map_err
          (λ error.
            complaint e to_text v.place
              (text "the " ++ (what ++ (text " response could not be read: " ++ error))))
          answered
    if is_empty (trim received)
        then ok null
        else map_err
            (λ error.
              complaint e to_text v.place
                (text "the " ++ (what ++ (text " response was not JSON: " ++ error))))
            (m.from_str received)

  -- `post`, under a permit.
  unfoldable pub post : Vault → Meets → Text → Text → Json → Text → Vault × Result Json Error
  unfolding admit give_back posted complaint
  post v m to secret body what =
      let (policy, admitted) = admit v.concurrency in
      elim admitted [
        | none ↦ (record v { concurrency = policy }, err (too_many v))
        | some permit ↦
            (record v { concurrency = give_back policy permit }, posted v m to secret body what)
      ]

  -- Renewal answers with the lease but not the token: it is the same one.
  unfoldable pub renew_token : Vault → Meets → Text → Vault × Result (Issued Token) Error
  unfolding post token_from
  renew_token v m secret =
      let (after, answered) =
        post v m (v.place.address ++ text "/v1/auth/token/renew-self") secret no_fields
          (text "renewal") in
      (
        after,
        answered >>= λ response. token_from v response >>= λ issued.
            ok (record issued { value = record issued.value { secret = secret } }),
      )

  -- The counter after the session was asked for a token: the token that was handed to the session's
  -- `obtain`, where it can be renewed, was sent to Vault under a permit.
  unfoldable pub left_by : Vault → Meets → Option (Option Token) → StoreRuntimePolicy
  unfolding renew_token
  left_by v m none = v.concurrency
  left_by v m (some none) = v.concurrency
  left_by v m (some (some held)) =
      if held.renewable then (renew_token v m held.secret).0.concurrency else v.concurrency

  -- `token`: what was supplied, or the session's.
  unfoldable pub token_for : Vault → Meets → ℕ × ℕ → Vault × Result Text Error
  unfolding session_token log_in renew_token left_by describe
  token_for v m (now, later) = elim v.auth [
    | token supplied ↦ (
      v,
      if is_empty supplied
          then err (
              e.auth (
                describe e to_text v.place
                ++ text ": no credentials; call `with_token` or `with_auth`"))
          else ok supplied,
    )
    | _ ↦
        let o =
          session_token latest v.session now later (log_in v m)
            (λ secret. (renew_token v m secret).1) in
        (
          record v { session = o.cache; concurrency = left_by v m o.asked },
          o.answer >>= λ held. ok held.secret,
        )
  ]
