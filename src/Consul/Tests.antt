-- ===== src/Consul/Tests.antt =====
-- A source over a small agent, and the theorems at concrete inputs.
use dynamic_config_remote.Common.{
  ℕ, ◌*◌, ◌^◌, ◌≡◌, refl, true, false, List, [], ◌∷◌, none, some, Text, text, text_eq, ok, err,
  trim_start_char, decimal, parse_unsigned, contains_char,
}
use dynamic_config_remote.Engine.Sample.{sample, stored, Stored}
use dynamic_config_remote.Json.{Json, string, object, no_entries, entry, entry_of, get_json, as_u64}
use dynamic_config_remote.Store.Attempts.{silent, untouched, Callback, returned, guarded}
use dynamic_config_remote.Store.Credential.{get, invalidate}
use dynamic_config_remote.Consul.{
  one, anonymous, login, literal, Reply, Agent, Consul, url, blocking_url,
}
use dynamic_config_remote.Consul.Session.{log_in, token_for, get_reply}
use dynamic_config_remote.Consul.Entries.{Decoder, watched_text}
use dynamic_config_remote.Consul.Watch.{at_start, follow, on_round, blocking_read}

abbrev latest : ℕ
latest = 10 ^ 18

abbrev plain : Decoder
plain = record { base64 = λ t. ok t; from_utf8 = λ b. ok b }

abbrev entry_at : Text → Json
entry_at body =
    object (entry (text "Key") (string (text "k")) (entry (text "Value") (string body) no_entries))

abbrev answering : Text → Agent
answering body = record {
  bearer_file = λ p. err [];
  login_reply = λ b. err (record { status = none; shown = [] });
  first_reply = λ t. ok (record { index_header = some (text "7"); body = ok (entry_at body ∷ []) });
  second_reply = λ t. err (record { status = none; shown = [] });
  first_times = (1, 2);
  second_times = (3, 4);
}

-- An agent under which the key holds nothing.
abbrev empty : Agent
empty = record (answering []) {
  first_reply = λ t. ok (record { index_header = some (text "3"); body = ok [] });
}

abbrev source : Consul sample
source = record {
  address = text "http://c";
  keys = one (text "k");
  format = some b'j';
  disagreement = none;
  auth = anonymous;
  session = record { held = none; margin = 60 };
  datacenter = some (text "eu");
  timeout = 1;
  wait = 60 * 10 ^ 9;
  agent = false;
  tls = none;
  attempts = silent;
}

a_blocking_query :
    blocking_url sample source (text "/k") true 7
    ≡ text "http://c/v1/kv/k?recurse=true&dc=eu&index=7&wait=60s"
unfolding blocking_url url text trim_start_char contains_char decimal
a_blocking_query = refl

abbrev accepting : Callback sample stored
accepting earlier x = returned (ok tt)

abbrev begun : List Agent
begun = empty ∷ empty ∷ []

abbrev arrived : Stored
arrived = record { body = 6 ∷ []; format = b'j'; revision = some 7; lease = none }

a_change_is_delivered_once :
    (follow sample latest plain stored accepting false b'j'
      (at_start sample latest plain stored accepting false b'j' source (untouched sample stored))
      (answering (5 ∷ []) ∷ answering (6 ∷ []) ∷ answering (6 ∷ []) ∷ [])).0.trace.delivered
    ≡ arrived ∷ []
unfolding follow on_round blocking_read get_reply token_for watched_text get_json entry_of text_eq
    text parse_unsigned guarded
a_change_is_delivered_once = refl

-- The first token is refused, and the second one comes from a login.
abbrev refusing : Agent
refusing = record (answering []) {
  login_reply = λ b. ok (ok (object (entry (text "SecretID") (string (text "s2")) no_entries)));
  first_reply = λ t. err (record { status = some 403; shown = [] });
  second_reply = λ t. ok (record { index_header = t; body = ok [] });
}

abbrev logging_in : Consul sample
logging_in = record source {
  auth = login (text "m") (literal (text "b")) [];
  session = record { held = some (record { value = text "s1"; expires_at = none }); margin = 60 };
}

abbrev second_answer : Reply
second_answer = record { index_header = some (text "s2"); body = ok [] }

the_second_request_succeeds : (get_reply sample latest logging_in refusing).1 ≡ ok second_answer
unfolding get_reply token_for log_in get get_json entry_of text_eq text as_u64 invalidate
the_second_request_succeeds = refl
