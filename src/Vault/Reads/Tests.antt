-- ===== src/Vault/Reads/Tests.antt =====
-- A Vault that refuses a token and takes the next one, and the theorems at concrete inputs.
use dynamic_config_remote.Common.{
  ℕ, ◌+◌, ◌≡◌, refl, [], ◌∷◌, none, some, true, Text, text, text_eq, parse_unsigned, ok, err, arith,
}
use dynamic_config_remote.Engine.Sample.{sample, stored}
use dynamic_config_remote.Json.{
  Json, null, object, string, number, entry, no_entries, get_json, as_u64,
}
use dynamic_config_remote.Store.Attempts.{reporting, untouched, Callback, returned, guarded}
use dynamic_config_remote.Store.Credential.{refresh_within, invalidate}
use dynamic_config_remote.Vault.{userpass}
use dynamic_config_remote.Vault.Secrets.{one, kv2, Place, Granted}
use dynamic_config_remote.Vault.Requests.{HttpError, Meets, Vault}
use dynamic_config_remote.Vault.Reads.{get_value}
use dynamic_config_remote.Vault.Reads.Permits.{get_value-concurrency}
use dynamic_config_remote.Vault.Watch.{Round, Watched, on_round}

abbrev shown : Json → Text
shown (string t) = t
shown other = []

-- A block of one field.
abbrev holding : Text → Json → Json
holding name value = object (entry name value no_entries)

abbrev granted : Json
granted = holding (text "auth") (holding (text "client_token") (string (b't' ∷ [])))

abbrev refusal : HttpError
refusal = record { status = some 403; shown = [] }

-- The first token of a session is refused, and the second one accepted.
abbrev meets : Json → Meets
meets body = record {
  token_file = λ p. err [];
  from_str = λ t. err [];
  login_reply = λ to fields. ok (ok granted);
  post_reply = λ to secret body. err refusal;
  first_reply = λ secret. err refusal;
  second_reply = λ secret. ok (ok body);
  first_times = (1, 1);
  second_times = (2, 2);
}

abbrev place : Place sample shown
place = record {
  address = [];
  mount = text "secret";
  mode = kv2;
  keys = one (b'a' ∷ []);
  key = b'a' ∷ [];
}

abbrev vault : Vault sample shown 100
vault = record {
  place = place;
  auth = userpass [] (b'u' ∷ []) (b'p' ∷ []);
  session = record { held = none; margin = refresh_within };
  concurrency = record { limit = 1; in_flight = 0 };
}

a_refused_token_is_replaced :
    (get_value sample shown 100 vault (meets null) (text "secret")).1 ≡ ok null
unfolding get_value get_json text text_eq invalidate
a_refused_token_is_replaced = refl

-- The token that is held has expired and can be renewed, so a second permit is taken meanwhile.
abbrev renewing : Vault sample shown 100
renewing = record vault {
  session = record {
    held =
        some
          (record { value = record { secret = b's' ∷ []; renewable = true }; expires_at = some 0 });
    margin = refresh_within;
  };
  concurrency = record { limit = 2; in_flight = 0 };
}

get_value-concurrency_example :
    (get_value sample shown 100 renewing (meets null) (text "secret")).0.concurrency
    ≡ renewing.concurrency
get_value-concurrency_example =
    get_value-concurrency sample shown 100 renewing (meets null) (text "secret") (omega arith)

abbrev version : ℕ → Json
version n = holding (text "data") (holding (text "current_version") (number ((b'0' + n) ∷ [])))

abbrev secret : Json
secret = holding (text "data") (holding (text "data") (string (b'v' ∷ [])))

abbrev moved : Round
moved = record { checking = meets (version 8); reading = meets secret; now = 0 }

abbrev accepting : Callback sample stored
accepting earlier x = returned (ok tt)

abbrev lease : Granted → ℕ
lease held = 0

abbrev begun : Watched sample shown 100 stored lease b'j' accepting reporting
begun = record { source = vault; seen = some 7; trace = untouched sample stored }

the_document_is_delivered :
    (on_round sample shown 100 stored lease b'j' accepting reporting begun moved).0.trace.delivered
    ≡ record { body = []; format = b'j'; revision = some 0; lease = none } ∷ []
unfolding on_round get_json text text_eq guarded invalidate parse_unsigned as_u64
the_document_is_delivered = refl
