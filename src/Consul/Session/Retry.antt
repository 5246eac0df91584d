-- ===== src/Consul/Session/Retry.antt =====
-- Under which token the second request of a `get` is made.
use dynamic_config_remote.Common.{
  ℕ, ◌≡◌, ◌⊎◌, inl, inr, refl, sym, ap, ◌∙◌, true, List, Option, some, Text, ok, Result-cases,
  Result-differ, ok_injective, Bool-cases,
}
use dynamic_config_remote.Engine.{Engine}
use dynamic_config_remote.Store.Credential.{Cached, Issued, get, invalidate, current, replaced}
use dynamic_config_remote.Consul.{
  Bearer, Auth, anonymous, token, login, can_relogin, is_status, Reply, Agent, Consul, complaint,
  describe,
}
use dynamic_config_remote.Consul.Session.{issued_by, log_in, token_for, call, retried, get_reply}

module _ (e : Engine) (latest : ℕ) where
  open e use {Error}

  -- A request that was answered with this went out under a token that was issued just then.
  abbrev pub IsFresh : Consul e → Agent → Reply → Type 0
  IsFresh c a reply =
      (method : Text) × (bearer : Bearer) × (meta : List (Text × Text)) × (issued : Issued Text)
      × (c.auth ≡ login method bearer meta)
      × (log_in e latest c a method bearer meta ≡ ok issued)
      × (a.second_reply (some issued.value) ≡ ok reply)

  logs_in :
      (auth : Auth)
      → can_relogin auth ≡ true
      → (method : Text) × (bearer : Bearer) × (meta : List (Text × Text)) × (auth
          ≡ login method bearer meta)
  logs_in anonymous h = cc
  logs_in (token t) h = cc
  logs_in (login method bearer meta) h = (method, bearer, meta, refl)

  -- Logging in does not look at the session.
  log_in_session :
      (c : Consul e) (s : Cached Text) (a : Agent) (method : Text) (bearer : Bearer)
      (meta : List (Text × Text))
      → log_in e latest (record c { session = s }) a method bearer meta
        ≡ log_in e latest c a method bearer meta
  unfolding log_in issued_by complaint describe
  log_in_session c s a method bearer meta = refl

  -- A token that was held before does not come back after the cache was emptied.
  retried-IsFresh :
      (c : Consul e) (a : Agent) (method : Text) (bearer : Bearer) (meta : List (Text × Text))
      (reply : Reply)
      → c.auth ≡ login method bearer meta
      → (retried e latest c a).1 ≡ ok reply
      → IsFresh c a reply
  unfolding retried call token_for get invalidate current replaced
  retried-IsFresh c a method bearer meta reply auth h =
      let emptied : Consul e = record c { session = invalidate c.session } in
      let same = log_in_session c (invalidate c.session) a method bearer meta in
      elim (Result-cases (log_in e latest emptied a method bearer meta)) [
        | inr (error, bad) ↦ absurd (Result-differ (rw (retried, call, token_for, auth, bad) at h))
        | inl (issued, logged) ↦ elim (Result-cases (a.second_reply (some issued.value))) [
          | inr (error, bad) ↦
              absurd (Result-differ (rw (retried, call, token_for, auth, logged, bad) at h))
          | inl (answered, fine) ↦
              let is = ok_injective (rw (retried, call, token_for, auth, logged, fine) at h) in
              (method, bearer, meta, issued, auth, sym same ∙ logged, fine ∙ ap ok is)
        ]
      ]

  retried_after :
      (c : Consul e) (s : Cached Text) (a : Agent) (method : Text) (bearer : Bearer)
      (meta : List (Text × Text)) (reply : Reply)
      → c.auth ≡ login method bearer meta
      → (retried e latest (record c { session = s }) a).1 ≡ ok reply
      → IsFresh c a reply
  retried_after c s a method bearer meta reply auth h =
      let (m, b, md, issued, same, logged, fine) =
        retried-IsFresh (record c { session = s }) a method bearer meta reply auth h in
      (m, b, md, issued, same, sym (log_in_session c s a m b md) ∙ logged, fine)

  -- The first request went out under the token of the moment, or the one retry under a new one.
  pub get_reply-eq-ok :
      (c : Consul e) (a : Agent) (reply : Reply)
      → (get_reply e latest c a).1 ≡ ok reply
      → ((t : Option Text) × ((token_for e latest c a a.first_times).1 ≡ ok t)
          × (a.first_reply t ≡ ok reply))
        ⊎ IsFresh c a reply
  unfolding get_reply call
  get_reply-eq-ok c a reply h = elim (Result-cases (token_for e latest c a a.first_times).1) [
    | inr (error, bad) ↦ absurd (Result-differ (rw (get_reply, call, bad) at h))
    | inl (t, held) ↦ elim (Result-cases (a.first_reply t)) [
      | inl (answered, fine) ↦
          inl (t, held, fine ∙ ap ok (ok_injective (rw (get_reply, call, held, fine) at h)))
      | inr (error, bad) ↦ elim (Bool-cases (is_status 403 error)) [
        | inr otherwise ↦ absurd (Result-differ (rw (get_reply, call, held, bad, otherwise) at h))
        | inl refused ↦ elim (Bool-cases (can_relogin c.auth)) [
          | inr stays ↦
              absurd (Result-differ (rw (get_reply, call, held, bad, refused, stays) at h))
          | inl again ↦
              let (method, bearer, meta, auth) = logs_in c.auth again in
              inr (
                retried_after c (token_for e latest c a a.first_times).0 a method bearer meta reply
                  auth (rw (get_reply, call, held, bad, refused, again) at h))
        ]
      ]
    ]
  ]
