-- ===== src/Firestore/Tests.antt =====
-- The unit tests of value.rs, a batch, a watch, and the theorems at concrete inputs.
use dynamic_config_remote.Common.{
  ℕ, ◌≡◌, refl, List, [], ◌∷◌, none, some, Text, text, text_eq, contains_text, join, parse_signed,
  decimal_signed, strip_prefix, length, All, ok, err,
}
use dynamic_config_remote.Engine.Sample.{sample, stored}
use dynamic_config_remote.Json.{
  Json, null, number, string, array, object, no_elements, element, Table, no_entries, entry,
  get_json, as_array,
}
use dynamic_config_remote.Store.Attempts.{reporting, untouched, Callback, returned, guarded}
use dynamic_config_remote.Store.Credential.{new, invalidate}
use dynamic_config_remote.Firestore.{
  one, several, metadata_server, emulator, access_token, Firestore, path_of, Auth,
}
use dynamic_config_remote.Firestore.Values.{to_json}
use dynamic_config_remote.Firestore.Values.Encoded.{encoded_fields, to_json-encoded_fields}
use dynamic_config_remote.Firestore.Session.{HttpError, Meets, call}
use dynamic_config_remote.Firestore.Documents.{batch_of}
use dynamic_config_remote.Firestore.Documents.Order.{Answered, paths_of, batch_of-Answered}
use dynamic_config_remote.Firestore.Watch.{watch}

-- A table of one entry.
abbrev holding : Text → Json → Json
holding name value = object (entry name value no_entries)

an_integer_comes_back_as_a_number :
    to_json (holding (text "port") (holding (text "integerValue") (string (text "5432"))))
    ≡ holding (text "port") (number (text "5432"))
unfolding to_json text text_eq parse_signed decimal_signed
an_integer_comes_back_as_a_number = refl

abbrev ports : Table
ports =
    entry (text "ports")
      (array (element (number (text "1")) (element (number (text "2.5")) no_elements)))
      (entry (text "pool") (holding (text "size") (number (text "-7"))) no_entries)

to_json-encoded_fields_example : to_json (object (encoded_fields ports)) ≡ object ports
to_json-encoded_fields_example = to_json-encoded_fields ports

abbrev source : Auth → Firestore
source auth = record {
  project = text "p";
  database = text "d";
  keys = several ((b'a' ∷ []) ∷ (b'b' ∷ []) ∷ []);
  key = text "db";
  auth = auth;
  session = new;
  endpoint = none;
  attempts = reporting;
}

abbrev shown : Json → Text
shown (object (entry name value table)) = name
shown other = []

abbrev document : Text → Table
document name =
    entry (text "fields") (object no_entries) (entry (text "name") (string name) no_entries)

abbrev found : Text → Json
found name = holding (text "found") (object (document name))

-- The answer is in another order than the call.
abbrev answer : Json
answer = array (
    element (found (text "projects/p/databases/d/documents/b"))
      (element (found (text "projects/p/databases/d/documents/a")) no_elements))

abbrev read : List (Text × Text)
read = ((b'a' ∷ []), text "db") ∷ ((b'b' ∷ []), text "db") ∷ []

the_order_is_the_call's :
    batch_of sample shown (source emulator) ((b'a' ∷ []) ∷ (b'b' ∷ []) ∷ []) answer ≡ ok read
unfolding batch_of get_json text text_eq contains_text strip_prefix path_of
the_order_is_the_call's = refl

batch_of-Answered_example :
    (results : List Json) × (as_array answer ≡ some results)
    × (paths_of read ≡ (b'a' ∷ []) ∷ (b'b' ∷ []) ∷ [])
    × All (Answered sample shown (source emulator) results) read
batch_of-Answered_example =
    batch_of-Answered sample shown (source emulator) ((b'a' ∷ []) ∷ (b'b' ∷ []) ∷ []) answer read
      the_order_is_the_call's

abbrev refusal : HttpError
refusal = record { status = some 401; shown = [] }

abbrev meets : Json → Meets
meets body = record {
  metadata = λ url. ok (ok (holding (text "access_token") (string (b't' ∷ []))));
  first_reply = λ token. err refusal;
  second_reply = λ token. ok (ok body);
  first_times = (1, 1);
  second_times = (2, 2);
}

a_refused_token_is_replaced :
    (call sample 100 (source (metadata_server [])) (meets null)).1 ≡ ok null
unfolding call get_json text text_eq invalidate new
a_refused_token_is_replaced = refl

a_supplied_token_is_not :
    (call sample 100 (source (access_token (b't' ∷ []))) (meets null)).1
    ≡ err (text "firestore p/documents a, b: ")
unfolding call text join
a_supplied_token_is_not = refl

abbrev watched : Firestore
watched = record (source (metadata_server [])) { keys = one (b'a' ∷ []) }

abbrev updated : ℕ → Meets
updated time = meets (
    object (
      entry (text "fields") (object no_entries)
        (entry (text "updateTime") (string (time ∷ [])) no_entries)))

abbrev accepting : Callback sample stored
accepting earlier x = returned (ok tt)

-- The first time is recorded, and each that differs from the one before it delivers.
one_change_is_delivered :
    length
      (watch sample shown 100 stored
        (λ t. 0)
        b'j'
        accepting
        watched
        (updated 7 ∷ updated 7 ∷ updated 8 ∷ [])
        (untouched sample stored)).0.delivered
    ≡ 1
unfolding watch guarded get_json text text_eq invalidate new
one_change_is_delivered = refl
