-- ===== src/Vault/Tests.antt =====
-- The session at concrete inputs.
use dynamic_config_remote.Common.{
  ℕ, ◌≡◌, refl, Bool, true, false, [], ◌∷◌, none, some, Result, ok, err, Text,
}
use dynamic_config_remote.Store.Credential.{Issued, refresh_within}
use dynamic_config_remote.Vault.{Token, Session, session_token}

abbrev held : Bool → Session
held renewable = record {
  held =
      some
        (record { value = record { secret = 1 ∷ []; renewable = renewable }; expires_at = some 9 });
  margin = refresh_within;
}

abbrev unavailable : Result (Issued Token) ℕ
unavailable = err 503

abbrev no_renewal : Text → Result (Issued Token) ℕ
no_renewal secret = err 403

abbrev renewal : Text → Result (Issued Token) ℕ
renewal secret = ok (record { value = record { secret = secret; renewable = true }; ttl = none })

-- A token that cannot be renewed is replaced by a login, and what fails leaves the session as it was.
a_failed_renewal_falls_back_to_a_login :
    session_token 100 (held true) 5 5 unavailable no_renewal ≡ record {
      cache = held true;
      answer = err 503;
      asked = some (some (record { secret = 1 ∷ []; renewable = true }));
    }
unfolding session_token
a_failed_renewal_falls_back_to_a_login = refl

a_renewable_token_is_renewed :
    (session_token 100 (held true) 5 5 unavailable renewal).answer
    ≡ ok (record { secret = 1 ∷ []; renewable = true })
unfolding session_token
a_renewable_token_is_renewed = refl

a_token_that_is_not_renewable_is_not :
    (session_token 100 (held false) 5 5 unavailable renewal).answer ≡ err 503
unfolding session_token
a_token_that_is_not_renewable_is_not = refl
