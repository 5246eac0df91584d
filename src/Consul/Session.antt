-- ===== src/Consul/Session.antt =====
-- dynamic-config-consul/src/lib.rs, `token`, `login`, `call` and `get`: under which token a request
-- is made, and the one retry.
pub mod Retry
use mathlib.Core.Option
use dynamic_config_remote.Common.{
  ℕ, Bool, true, false, ◌&&◌, ltb, List, ◌++◌, Option, none, some, Text, text, trim, ◌==◌,
  if◌then◌else◌, Result, ok, err, ◌>>=◌, ok_or, map_err,
}
use dynamic_config_remote.Engine.{Engine}
use dynamic_config_remote.Json.{Json, get_json, as_str, as_u64, and_then}
use dynamic_config_remote.Store.Credential.{Cached, Issued, Outcome, get, invalidate}
use dynamic_config_remote.Consul.{
  Bearer, literal, file, Auth, anonymous, token, login, describe_auth, can_relogin, LoginBody,
  HttpError, is_status, Reply, Agent, Consul, describe, complaint,
}

module _ (e : Engine) (latest : ℕ) where
  open e use {Error}

  -- `CallError`
  pub data CallError : Type 0 where
    forbidden other : Error → CallError

  abbrev pub into_error : CallError → Error
  into_error (forbidden error) = error
  into_error (other error) = error

  unfoldable pub bearer_token : Agent → Bearer → Result Text Error
  bearer_token a (literal t) = ok t
  bearer_token a (file p) = do
    contents ←
        map_err
          (λ error.
            e.remote
              (text "consul: cannot read the bearer token at " ++ (p ++ (text ": " ++ error))))
          (a.bearer_file p)
    ok (trim contents)

  -- `login_body` of a method that logs in.
  unfoldable pub login_body : Agent → Text → Bearer → List (Text × Text) → Result LoginBody Error
  unfolding bearer_token
  login_body a method bearer meta = do
    t ← bearer_token a bearer
    ok (record { auth_method = method; bearer_token = t; meta = meta })

  -- Nanoseconds until the token expires; none where the method sets no end.
  abbrev pub expiration : Json → Option ℕ
  expiration response =
      and_then (and_then (get_json (text "ExpirationTTL") response) as_u64)
        λ nanos. if ltb 0 nanos then some nanos else none

  unfoldable pub issued_by : Consul e → Json → Result (Issued Text) Error
  unfolding complaint
  issued_by c response = do
    secret ←
        ok_or (and_then (get_json (text "SecretID") response) as_str)
          (complaint e c (text "the login response has no `SecretID`"))
    ok (record { value = secret; ttl = expiration response })

  -- A 403 of the login itself is a credential that is not accepted.
  abbrev pub login_error : Consul e → HttpError → Error
  login_error c error =
      let shown =
        describe e c
        ++ (text ": logging in with "
            ++ (describe_auth c.auth ++ (text " failed: " ++ error.shown))) in
      if is_status 403 error then e.auth shown else e.remote shown

  unfoldable pub log_in :
      Consul e → Agent → Text → Bearer → List (Text × Text) → Result (Issued Text) Error
  unfolding login_body issued_by complaint describe
  log_in c a method bearer meta = do
    body ← login_body a method bearer meta
    answered ← map_err (login_error c) (a.login_reply body)
    response ←
        map_err (λ error. complaint e c (text "the login response was not JSON: " ++ error))
          answered
    issued_by c response

  -- `token`: the session, and what it hands to a request. Consul does not extend a token, so what
  -- was held before is not looked at.
  unfoldable pub token_for : Consul e → Agent → ℕ × ℕ → Cached Text × Result (Option Text) Error
  unfolding get log_in
  token_for c a (now, later) = elim c.auth [
    | anonymous ↦ (c.session, ok none)
    | token supplied ↦ (c.session, ok (some supplied))
    | login method bearer meta ↦
        let o = get latest c.session now later (λ previous. log_in c a method bearer meta) in
        (o.cache, o.answer >>= λ secret. ok (some secret))
  ]

  abbrev pub call_error : Consul e → HttpError → CallError
  call_error c error =
      let shown = describe e c ++ (text ": " ++ error.shown) in
      if is_status 403 error then forbidden (e.auth shown) else other (e.remote shown)

  -- `call`: one request, under the token of the moment.
  unfoldable pub call :
      Consul e
      → Agent
      → ℕ × ℕ
      → (Option Text → Result Reply HttpError)
      → Consul e × Result Reply CallError
  unfolding token_for describe
  call c a times reply =
      let (session, held) = token_for c a times in
      (record c { session = session }, map_err other held >>= λ t. map_err (call_error c) (reply t))

  -- A token that stopped working: one fresh login and one retry, not a loop.
  unfoldable pub retried : Consul e → Agent → Consul e × Result Reply Error
  unfolding call
  retried c a =
      let (after, answer) =
        call (record c { session = invalidate c.session }) a a.second_times a.second_reply in
      (after, map_err into_error answer)

  unfoldable pub get_reply : Consul e → Agent → Consul e × Result Reply Error
  unfolding call retried
  get_reply c a =
      let (after, answer) = call c a a.first_times a.first_reply in
      elim answer [
        | ok reply ↦ (after, ok reply)
        | err (other error) ↦ (after, err error)
        | err (forbidden error) ↦
            let again = retried after a in if can_relogin c.auth then again else (after, err error)
      ]
