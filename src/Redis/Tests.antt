-- ===== src/Redis/Tests.antt =====
-- A source over a small server, and the theorems at concrete inputs.
use dynamic_config_remote.Common.{
  ℕ, ◌≡◌, refl, subst, ok_injective, Bool, true, false, ◌&&◌, List, [], ◌∷◌, ◌++◌, Option, none,
  some, Text, text, text_eq, length, is_empty, ◌==◌, if◌then◌else◌, Result, ok, err, contains_char,
  strip_prefix, is_some, contains_text, sort_texts, dedup_texts, text_leb, arith, split_whitespace,
  parse_signed, natural, below_zero, parse_unsigned,
}
use dynamic_config_remote.Engine.Sample.{sample, stored, Stored}
use dynamic_config_remote.Store.Documents.{merged, under_prefix, within_key_budget}
use dynamic_config_remote.Store.Attempts.{reporting, untouched, Callback, returned, guarded}
use dynamic_config_remote.Redis.{
  several, prefix, is_special, globbed, RedisError, Redis, Server, settled_format, fetch, read,
  scan, most_scan_rounds,
}
use dynamic_config_remote.Redis.Glob.{IsGlob, globbed_matches}
use dynamic_config_remote.Redis.Scan.{Hands, IsListing, scan-IsListing}
use dynamic_config_remote.Redis.Fetch.{
  IsServer, IsSnapshot, IsKept, fetch-IsSnapshot, fetch_connection,
}
use dynamic_config_remote.Redis.Watch.{
  Setup, Message, timed_out, notified, checked, prepare, first_database, database, watch, follow,
  Watched,
}
use dynamic_config_remote.Redis.Watch.Deliveries.{Trail, watch-Trail}
use dynamic_config_remote.Redis.Watch.Endurance.{every, follow_outlives}

-- A matcher for patterns of plain and escaped characters and a star at the end.
small_glob : Text → Text → Bool
small_glob [] s = is_empty s
small_glob (c ∷ []) [] = c == b'*'
small_glob (c ∷ []) (d ∷ s) = if c == b'*' then true else d == c && is_empty s
small_glob (c ∷ x ∷ p) [] = false
small_glob (c ∷ x ∷ p) (d ∷ s) =
    let taken = small_glob p s in
    let later = small_glob (x ∷ p) s in if c == b'\\' then d == x && taken else d == c && later

small_glob_star : (s : Text) → small_glob (b'*' ∷ []) s ≡ true
unfolding small_glob
small_glob_star [] = refl
small_glob_star (d ∷ s) = refl

small_glob_plain :
    (c d : ℕ) (p s : Text)
    → is_special c ≡ false
    → small_glob (c ∷ p) (d ∷ s) ≡ (d == c && small_glob p s)
unfolding small_glob
small_glob_plain c d [] s h = ground arith
small_glob_plain c d (x ∷ p) s h = ground arith

small_glob_plain_end : (c : ℕ) (p : Text) → is_special c ≡ false → small_glob (c ∷ p) [] ≡ false
unfolding small_glob
small_glob_plain_end c [] h = ground arith
small_glob_plain_end c (x ∷ p) h = refl

small_glob-IsGlob : IsGlob small_glob
unfolding small_glob
small_glob-IsGlob = record {
  star = small_glob_star;
  escaped = λ c d p s. refl;
  escaped_end = λ c p. refl;
  plain = small_glob_plain;
  plain_end = small_glob_plain_end;
}

globbed_matches_example :
    small_glob (globbed (b'a' ∷ b'[' ∷ []) ++ b'*' ∷ []) (b'a' ∷ b'[' ∷ b'j' ∷ [])
    ≡ is_some (strip_prefix (b'a' ∷ b'[' ∷ []) (b'a' ∷ b'[' ∷ b'j' ∷ []))
globbed_matches_example =
    globbed_matches small_glob small_glob-IsGlob (b'a' ∷ b'[' ∷ []) (b'a' ∷ b'[' ∷ b'j' ∷ [])

a_bracket_is_escaped : globbed (b'a' ∷ b'[' ∷ []) ≡ b'a' ∷ b'\\' ∷ b'[' ∷ []
unfolding globbed
a_bracket_is_escaped = refl

abbrev R : Type 0
R = Redis sample ℕ

-- Two rounds; a key comes in both.
abbrev two_rounds : ℕ → ℕ → Text → Result (ℕ × List Text) RedisError
two_rounds rounds cursor pattern_ =
    if cursor == 0
    then ok (7, (b'p' ∷ b'b' ∷ []) ∷ (b'p' ∷ b'a' ∷ []) ∷ [])
    else ok (0, (b'p' ∷ b'b' ∷ []) ∷ [])

abbrev values : List Text → List (Option Text)
values [] = []
values (key ∷ keys) = some key ∷ values keys

abbrev healthy : Server sample ℕ
healthy = record { opening = ok 1; scan_reply = λ c. two_rounds; mget = λ c keys. ok (values keys) }

length-values : (keys : List Text) → length (values keys) ≡ length keys
length-values [] = refl
length-values (key ∷ keys) = omega (arith, length-values keys)

healthy-IsServer : IsServer sample ℕ healthy
healthy-IsServer c keys vs h =
    subst (λ v. length v ≡ length keys) (ok_injective h) (length-values keys)

abbrev scanning : R
scanning = record {
  connection = none;
  keys = prefix (b'p' ∷ []);
  format = some b'j';
  disagreement = none;
  described = [];
  timeout = 1;
  attempts = reporting;
}

abbrev found : List Text
found = (b'p' ∷ b'a' ∷ []) ∷ (b'p' ∷ b'b' ∷ []) ∷ []

a_key_that_comes_twice_is_listed_once : scan sample ℕ scanning two_rounds (b'p' ∷ []) ≡ ok found
unfolding scan under_prefix strip_prefix within_key_budget dedup_texts sort_texts text_leb text_eq
a_key_that_comes_twice_is_listed_once = refl

scan-IsListing_example :
    IsListing sample ℕ (b'p' ∷ []) found
    × ((all : List Text) × Hands sample ℕ two_rounds (b'p' ∷ []) most_scan_rounds 0 all
        × ((q : Text) → contains_text q found ≡ contains_text q all))
scan-IsListing_example =
    scan-IsListing sample ℕ scanning two_rounds (b'p' ∷ []) found
      a_key_that_comes_twice_is_listed_once

abbrev listed : R
listed = record scanning { keys = several ((5 ∷ b'j' ∷ []) ∷ (6 ∷ []) ∷ []) }

abbrev read_back : Stored
read_back = record { body = 5 ∷ b'j' ∷ 6 ∷ []; format = b'j'; revision = none; lease = none }

both_keys_are_read : (fetch sample ℕ stored listed healthy).1 ≡ ok read_back
unfolding fetch read merged contains_char
both_keys_are_read = refl

fetch-IsSnapshot_example : IsSnapshot sample ℕ stored listed healthy read_back
fetch-IsSnapshot_example =
    fetch-IsSnapshot sample ℕ stored listed healthy read_back healthy-IsServer both_keys_are_read

listed_settled : settled_format sample ℕ listed ≡ ok b'j'
unfolding settled_format
listed_settled = refl

fetch_connection_example :
    ((error : Text)
      → (fetch sample ℕ stored listed healthy).1 ≡ err error
      → ((fetch sample ℕ stored listed healthy).0).connection ≡ none)
    × ((x : Stored)
        → (fetch sample ℕ stored listed healthy).1 ≡ ok x
        → IsKept sample ℕ stored listed healthy
            ((fetch sample ℕ stored listed healthy).0).connection)
fetch_connection_example = fetch_connection sample ℕ stored listed healthy b'j' listed_settled

abbrev accepting : Callback sample stored
accepting earlier x = returned (ok tt)

abbrev setup : Setup sample ℕ
setup = record {
  opening = ok 1;
  config_reply = ok ([] ∷ (b'K' ∷ []) ∷ []);
  subscriber = ok tt;
  client_info = some (text "id=3 db=2");
  subscription = λ c. ok tt;
  slicing = ok tt;
}

the_database_is_found : database (text "id=3 db=2") ≡ some (natural 2)
unfolding database first_database split_whitespace parse_signed parse_unsigned text strip_prefix
the_database_is_found = refl

a_signed_number : parse_signed (text "-12") ≡ some (below_zero 12)
unfolding parse_signed parse_unsigned text
a_signed_number = refl

abbrev set_event : Text
set_event = b's' ∷ []

abbrev messages : List (Message sample ℕ)
messages = timed_out ∷ notified set_event healthy ∷ notified set_event healthy ∷ []

watch-Trail_example :
    Trail sample ℕ stored accepting listed messages []
      (watch sample ℕ stored accepting listed setup messages
        (untouched sample stored)).0.trace.delivered
watch-Trail_example =
    watch-Trail sample ℕ stored accepting listed setup messages (untouched sample stored)
      (healthy-IsServer, (healthy-IsServer, tt))

listed-checked : checked sample ℕ listed ≡ ok ((5 ∷ b'j' ∷ []) ∷ (6 ∷ []) ∷ [])
unfolding checked settled_format
listed-checked = refl

-- The keys were written together, and are one delivery.
one_delivery :
    (watch sample ℕ stored accepting listed setup messages
      (untouched sample stored)).0.trace.delivered
    ≡ read_back ∷ []
unfolding watch checked settled_format prepare first_database split_whitespace parse_signed
    parse_unsigned text strip_prefix contains_char follow fetch read merged guarded text_eq
one_delivery = refl

abbrev start : Watched sample ℕ stored accepting
start = record { source = listed; last = none; trace = untouched sample stored }

follow_outlives_example :
    follow sample ℕ stored accepting true start messages
    ≡ (every sample ℕ stored accepting true start messages, ok tt)
follow_outlives_example =
    follow_outlives sample ℕ stored accepting true start messages (λ earlier x. refl)
      (tt, (tt, (tt, tt)))
