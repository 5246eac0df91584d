-- ===== src/Vault/Reads/Permits.antt =====
-- What a request leaves of the counter of permits.
use dynamic_config_remote.Common.{
  ℕ, ◌<◌, ◌≡◌, sym, ap, subst, ◌∙◌, refl, Option, none, some, Text, Result, Option-cases,
  Result-cases, Bool-cases, inl, inr, arith,
}
use dynamic_config_remote.Engine.{Engine}
use dynamic_config_remote.Json.{Json}
use dynamic_config_remote.Store.Concurrency.{
  StoreRuntimePolicy, admit, give_back, enter, exchange, usize_mod,
}
use dynamic_config_remote.Store.Concurrency.Progress.{admit-give_back}
use dynamic_config_remote.Store.Credential.{invalidate}
use dynamic_config_remote.Vault.{
  Token, Auth, token, app_role, kubernetes, jwt, userpass, ldap, certificate,
}
use dynamic_config_remote.Vault.Requests.{
  HttpError, Meets, Vault, post, renew_token, left_by, token_for, forbidden, other, can_relogin,
}
use dynamic_config_remote.Vault.Reads.{get_once, get_value}

-- A policy that admits nothing more is left as it was.
admit_refused : (p q : StoreRuntimePolicy) → admit p ≡ (q, none) → q ≡ p
unfolding admit enter exchange
admit_refused p q h = ground arith

admit_limit : (p : StoreRuntimePolicy) → (admit p).0.limit ≡ p.limit
unfolding admit enter exchange
admit_limit p = ground arith

module _ (e : Engine) (to_text : Json → Text) (latest : ℕ) where
  post-concurrency :
      (v : Vault e to_text latest) (m : Meets) (to secret : Text) (body : Json) (what : Text)
      → v.concurrency.limit < usize_mod
      → (post e to_text latest v m to secret body what).0.concurrency ≡ v.concurrency
  unfolding post
  post-concurrency v m to secret body what small = elim (Option-cases (admit v.concurrency).1) [
    | inl full ↦
        rw (post, full)
          (admit_refused v.concurrency _ (ap (λ x. ((admit v.concurrency).0, x)) full))
    | inr (permit, admitted) ↦
        rw (post, admitted)
          (admit-give_back v.concurrency _ permit small
            (ap (λ x. ((admit v.concurrency).0, x)) admitted))
  ]

  left_by_lem :
      (v : Vault e to_text latest) (m : Meets) (asked : Option (Option Token))
      → v.concurrency.limit < usize_mod
      → left_by e to_text latest v m asked ≡ v.concurrency
  unfolding left_by renew_token
  left_by_lem v m none small = refl
  left_by_lem v m (some none) small = refl
  left_by_lem v m (some (some held)) small = elim (Bool-cases held.renewable) [
    | inl renewable ↦ rw (left_by, renewable) (post-concurrency v m _ held.secret _ _ small)
    | inr lasting ↦ rw (left_by, lasting) refl
  ]

  token_for-concurrency :
      (v : Vault e to_text latest) (m : Meets) (times : ℕ × ℕ)
      → v.concurrency.limit < usize_mod
      → (token_for e to_text latest v m times).0.concurrency ≡ v.concurrency
  unfolding token_for
  token_for-concurrency v m (now, later) small = asked v.auth refl
    where
      kept : (o : Option (Option Token)) → left_by e to_text latest v m o ≡ v.concurrency
      kept o = left_by_lem v m o small

      asked :
          (auth : Auth)
          → v.auth ≡ auth
          → (token_for e to_text latest v m (now, later)).0.concurrency ≡ v.concurrency
      asked (token supplied) h = rw (token_for, h) refl
      asked (app_role mount role_id secret_id) h = rw (token_for, h) (kept _)
      asked (kubernetes mount role token_path) h = rw (token_for, h) (kept _)
      asked (jwt mount role j) h = rw (token_for, h) (kept _)
      asked (userpass mount username password) h = rw (token_for, h) (kept _)
      asked (ldap mount username password) h = rw (token_for, h) (kept _)
      asked (certificate mount name) h = rw (token_for, h) (kept _)

  get_once-concurrency :
      (v : Vault e to_text latest) (m : Meets) (times : ℕ × ℕ)
      (reply : Text → Result (Result Json Text) HttpError) (what : Text)
      → v.concurrency.limit < usize_mod
      → (get_once e to_text latest v m times reply what).0.concurrency ≡ v.concurrency
  unfolding get_once
  get_once-concurrency v m times reply what small =
      let policy = (admit v.concurrency).0 in
      let holding : Vault e to_text latest = record v { concurrency = policy } in
      let still_small = subst (λ n. n < usize_mod) (sym (admit_limit v.concurrency)) small in
      elim (Option-cases (admit v.concurrency).1) [
        | inl full ↦
            rw (get_once, full)
              (admit_refused v.concurrency _ (ap (λ x. ((admit v.concurrency).0, x)) full))
        | inr (permit, admitted) ↦
            rw (get_once, admitted)
              (ap (λ p. give_back p permit) (token_for-concurrency holding m times still_small)
                ∙ admit-give_back v.concurrency _ permit small
                    (ap (λ x. ((admit v.concurrency).0, x)) admitted))
      ]

  -- Under a limit that a `usize` holds, however a read ends, refused, failed, retried after a login or
  -- answered, every permit that it took is given back, that of a renewal of its token included: what
  -- it leaves of the counter is what it found.
  pub get_value-concurrency :
      (v : Vault e to_text latest) (m : Meets) (what : Text)
      → v.concurrency.limit < usize_mod
      → (get_value e to_text latest v m what).0.concurrency ≡ v.concurrency
  unfolding get_value
  get_value-concurrency v m what small =
      let once = get_once e to_text latest v m m.first_times m.first_reply what in
      let kept = get_once-concurrency v m m.first_times m.first_reply what small in
      let emptied : Vault e to_text latest = record once.0 {
        session = invalidate once.0.session;
      } in
      let again =
        get_once-concurrency emptied m m.second_times m.second_reply what
          (subst (λ (p : StoreRuntimePolicy). p.limit < usize_mod) (sym kept) small) in
      elim (Result-cases once.1) [
        | inl (value, fine) ↦ rw (get_value, fine) kept
        | inr (other error, bad) ↦ rw (get_value, bad) kept
        | inr (forbidden error, bad) ↦ elim (Bool-cases (can_relogin v.auth)) [
          | inl fresh ↦ rw (get_value, bad, fresh) (again ∙ kept)
          | inr stuck ↦ rw (get_value, bad, stuck) kept
        ]
      ]
