-- ===== src/Vault/Session.antt =====
-- The token of a session.
use dynamic_config_remote.Common.{ℕ, ◌≡◌, refl, false, Option, none, some, Text, Result, err, arith}
use dynamic_config_remote.Store.Credential.{Issued, get, replaced}
use dynamic_config_remote.Store.Credential.Renewal.{get_ext}
use dynamic_config_remote.Vault.{Token, Session, obtain, session_token}

module _ {ℓ} {E : Type ℓ} (last : ℕ) (s : Session) (now later : ℕ)
    (login : Result (Issued Token) E) where
  -- A session reports an error only when logging in fails with it: a renewal that fails is not one.
  -- The token that was held is then kept.
  pub session_token-eq-err :
      (renew : Text → Result (Issued Token) E) (e : E)
      → (session_token last s now later login renew).answer ≡ err e
      → (login ≡ err e) × ((session_token last s now later login renew).cache ≡ s)
  unfolding session_token get obtain
  session_token-eq-err renew e h = ground arith

  obtain_unrenewed :
      (renew renew' : Text → Result (Issued Token) E) (held : Option Token)
      → ((t : Token) → held ≡ some t → t.renewable ≡ false)
      → obtain login renew held ≡ obtain login renew' held
  unfolding obtain
  obtain_unrenewed renew renew' none h = refl
  obtain_unrenewed renew renew' (some t) h = rw (h t refl, obtain)

  -- Where the session holds no token, as after `invalidate`, or one that is not renewable, nothing
  -- is renewed: whatever `renew` would answer changes nothing.
  pub session_token-renew_unused :
      (renew renew' : Text → Result (Issued Token) E)
      → ((t : Token) → replaced s ≡ some t → t.renewable ≡ false)
      → session_token last s now later login renew ≡ session_token last s now later login renew'
  unfolding session_token
  session_token-renew_unused renew renew' h =
      get_ext last s now later (obtain login renew) (obtain login renew')
        (obtain_unrenewed renew renew' (replaced s) h)
