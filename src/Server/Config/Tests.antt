-- ===== src/Server/Config/Tests.antt =====
-- The unit tests of validate.rs, and the theorem at a concrete input.
use dynamic_config_remote.Common.{
  ◌≡◌, ◌↔◌, refl, Bool, true, false, List, [], ◌∷◌, ◌++◌, Option, none, some, Text, text, text_eq,
  is_digit, trim, is_whitespace, utf8_len, ok, err, if◌then◌else◌,
}
use dynamic_config_remote.Server.Auth.{token_len, same_as}
use dynamic_config_remote.Server.Names.{is_name}
use dynamic_config_remote.Server.Config.{
  SectionConfig, TlsConfig, ClientConfig, ServerConfig, default_config, no_sections, no_clients,
  duplicate_section, unroutable_section, duplicate_client, duplicate_token, weak_token,
  anonymous_not_allowed, several_anonymous_clients, unserved_grant, exposed_bind, unparsable_bind,
  tls_unsupported, insecure_with_tls, tls_path_missing, revocation_unsupported, SocketAddrs,
  validate,
}
use dynamic_config_remote.Server.Config.Valid.{IsValid, validate_iff-IsValid}

-- Two addresses, of which one is loopback; no other text is one.
abbrev net : SocketAddrs
net = record {
  SocketAddr = Bool;
  parse = λ bind.
      if text_eq bind (text "127.0.0.1:8080")
      then some true
      else if text_eq bind (text "0.0.0.0:8080")
      then some false
      else none;
  is_loopback = λ at. at;
}

abbrev good : Text
good = text "0123456789abcdef0123456789abcdef"

abbrev other : Text
other = text "fedcba9876543210fedcba9876543210"

abbrev section : Text → Text → SectionConfig
section application profile = record {
  application = application;
  profile = profile;
  files = text "config.toml" ∷ [];
  env_prefix = none;
  whole_document = false;
}

abbrev client : Text → Option Text → List Text → ClientConfig
client name token applications = record {
  name = name;
  token = elim token [ none ↦ none | some t ↦ some (record { secret = t }) ];
  applications = applications;
}

abbrev tls : TlsConfig
tls = record {
  certificate = text "/etc/tls/server.pem";
  key = text "/etc/tls/server.key";
  client_ca = none;
  crl = none;
}

abbrev serving : List SectionConfig → List ClientConfig → ServerConfig
serving sections clients = record default_config { sections = sections; clients = clients }

abbrev billing : List SectionConfig
billing = section (text "billing") (text "prod") ∷ []

abbrev pod : ClientConfig
pod = client (text "billing-pod") (some good) (text "billing" ∷ [])

abbrev valid : ServerConfig
valid = serving billing (pod ∷ [])

a_complete_configuration_starts : validate net false valid ≡ ok tt
unfolding validate text default_config is_name is_digit token_len text_eq utf8_len
a_complete_configuration_starts = refl

an_empty_roster_is_refused_at_both_ends :
    (validate net false (serving [] (pod ∷ [])) ≡ err no_sections)
    × (validate net false (serving billing []) ≡ err no_clients)
unfolding validate
an_empty_roster_is_refused_at_both_ends = (refl, refl)

a_duplicate_section_is_refused_but_two_profiles_are_not :
    (validate net false (serving (billing ++ billing) (pod ∷ []))
      ≡ err (duplicate_section (text "billing") (text "prod")))
    × (validate net false (serving (section (text "billing") (text "staging") ∷ billing) (pod ∷ []))
        ≡ ok tt)
unfolding validate text default_config is_name is_digit token_len text_eq utf8_len
a_duplicate_section_is_refused_but_two_profiles_are_not = (refl, refl)

a_section_no_route_could_name_is_refused_at_startup :
    validate net false (serving (section (text "billing") (text ".hidden") ∷ []) (pod ∷ []))
    ≡ err (unroutable_section (text "billing") (text ".hidden") (text "profile"))
unfolding validate text is_name is_digit
a_section_no_route_could_name_is_refused_at_startup = refl

duplicate_client_names_and_tokens_are_refused :
    (validate net false (serving billing (pod ∷ client (text "billing-pod") (some other) [] ∷ []))
      ≡ err (duplicate_client (text "billing-pod")))
    × (validate net false (serving billing (pod ∷ client (text "other") (some good) [] ∷ []))
        ≡ err duplicate_token)
unfolding validate text is_name is_digit token_len text_eq utf8_len same_as
duplicate_client_names_and_tokens_are_refused = (refl, refl)

a_short_token_is_refused :
    validate net false (serving billing (client (text "pod") (some (text "short")) [] ∷ []))
    ≡ err (weak_token (text "pod"))
unfolding validate text is_name is_digit token_len text_eq utf8_len
a_short_token_is_refused = refl

anonymous_access_needs_an_explicit_opt_in :
    (validate net false (serving billing (client (text "anyone") none [] ∷ []))
      ≡ err (anonymous_not_allowed (text "anyone")))
    × (validate net false
          (record (serving billing
            (client (text "anyone") none [] ∷ client (text "also") none [] ∷ [])) {
              allow_anonymous = true;
            })
        ≡ err several_anonymous_clients)
unfolding validate text is_name is_digit text_eq default_config
anonymous_access_needs_an_explicit_opt_in = (refl, refl)

a_grant_nothing_serves_is_refused :
    validate net false (serving billing (client (text "pod") (some good) (text "biling" ∷ []) ∷ []))
    ≡ err (unserved_grant (text "pod") (text "biling"))
unfolding validate text is_name is_digit token_len text_eq utf8_len
a_grant_nothing_serves_is_refused = refl

a_non_loopback_bind_is_refused_without_the_flag :
    (validate net false (record valid { bind = text "0.0.0.0:8080" })
      ≡ err (exposed_bind (text "0.0.0.0:8080")))
    × (validate net false (record valid { bind = text "0.0.0.0:8080"; insecure = true }) ≡ ok tt)
    × (validate net false (record valid { bind = text "localhost:8080" })
        ≡ err (unparsable_bind (text "localhost:8080")))
unfolding validate text is_name is_digit token_len text_eq utf8_len default_config
a_non_loopback_bind_is_refused_without_the_flag = (refl, refl, refl)

a_tls_section_is_refused_by_what_it_says :
    (validate net false (record valid { tls = some tls }) ≡ err tls_unsupported)
    × (validate net true (record valid { bind = text "0.0.0.0:8080"; tls = some tls }) ≡ ok tt)
    × (validate net true (record valid { tls = some tls; insecure = true }) ≡ err insecure_with_tls)
    × (validate net true (record valid { tls = some (record tls { key = text "   " }) })
        ≡ err (tls_path_missing (text "key")))
    × (validate net true
          (record valid { tls = some (record tls { crl = some (text "clients.crl") }) })
        ≡ err revocation_unsupported)
unfolding validate text is_name is_digit token_len text_eq utf8_len default_config is_whitespace
    trim
a_tls_section_is_refused_by_what_it_says = (refl, refl, refl, refl, refl)

validate_iff-IsValid_example : (validate net true valid ≡ ok tt) ↔ IsValid net true valid
validate_iff-IsValid_example = validate_iff-IsValid net true valid
