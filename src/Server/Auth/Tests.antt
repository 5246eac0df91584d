-- ===== src/Server/Auth/Tests.antt =====
-- The unit tests of auth.rs, and the theorems at concrete inputs.
use dynamic_config_remote.Common.{
  ◌≡◌, ◌↔◌, refl, true, false, [], ◌∷◌, none, some, Text, text, text_eq, as_bytes, utf8_char,
  IsUnicode, split_once, eq_ignore_ascii_case, trim_start, arith,
}
use dynamic_config_remote.Server.Auth.{
  Token, matches, Principal, may_read, Authenticator, bearer, authenticate,
}
use dynamic_config_remote.Server.Auth.Identity.{matches_iff, Belongs, authenticate-Belongs}

abbrev token : Text → Token
token it = record { secret = it }

abbrev pod : Principal
pod = record { name = text "billing-pod"; applications = text "billing" ∷ [] }

abbrev anyone : Principal
anyone = record { name = text "anyone"; applications = [] }

abbrev roster_of_two : Authenticator
roster_of_two = record {
  clients = (token (text "fedcba"), anyone) ∷ (token (text "abcdef"), pod) ∷ [];
  anonymous = some anyone;
  kubernetes = none;
}

tokens_match_exactly_and_only_exactly :
    (matches (token (text "abcdef")) (text "abcdef") ≡ true)
    × (matches (token (text "abcdef")) (text "abcdeg") ≡ false)
    × (matches (token (text "abcdef")) (text "abcde") ≡ false)
    × (matches (token (text "abcdef")) (text "abcdefg") ≡ false)
    × (matches (token (text "abcdef")) [] ≡ false)
unfolding matches text as_bytes utf8_char
tokens_match_exactly_and_only_exactly = (refl, refl, refl, refl, refl)

a_bearer_header_is_parsed_leniently :
    (bearer (text "Bearer abc") ≡ some (text "abc"))
    × (bearer (text "bearer   abc") ≡ some (text "abc"))
    × (bearer (text "Basic abc") ≡ none)
    × (bearer (text "Bearer ") ≡ none)
    × (bearer (text "Bearer") ≡ none)
unfolding bearer text split_once eq_ignore_ascii_case trim_start text_eq
a_bearer_header_is_parsed_leniently = (refl, refl, refl, refl, refl)

a_grant_is_for_its_applications :
    (may_read pod (text "billing") ≡ true) × (may_read pod (text "shipping") ≡ false)
unfolding may_read text text_eq
a_grant_is_for_its_applications = (refl, refl)

the_pod_is_who_its_token_says : authenticate roster_of_two (some (text "Bearer abcdef")) ≡ some pod
unfolding authenticate text split_once eq_ignore_ascii_case trim_start text_eq as_bytes utf8_char
    matches bearer
the_pod_is_who_its_token_says = refl

abcdef_IsUnicode : IsUnicode (text "abcdef")
unfolding text
abcdef_IsUnicode = ground arith

matches_iff_example :
    (matches (token (text "abcdef")) (text "abcdef") ≡ true) ↔ (text "abcdef" ≡ text "abcdef")
matches_iff_example =
    matches_iff (token (text "abcdef")) (text "abcdef") abcdef_IsUnicode abcdef_IsUnicode

authenticate-Belongs_example :
    (presented : Text) × (bearer (text "Bearer abcdef") ≡ some presented)
    × Belongs presented roster_of_two.clients pod
authenticate-Belongs_example =
    authenticate-Belongs roster_of_two (text "Bearer abcdef") pod refl the_pod_is_who_its_token_says
