-- ===== src/Server/Client/Endpoint/Tests.antt =====
-- The unit tests of `Endpoint`, and the theorem at a concrete input.
use dynamic_config_remote.Common.{
  ℕ, ◌≡◌, refl, Bool, true, false, [], Text, text, split_at_text, split_once, rsplit_once,
  strip_prefix, contains_char, eq_ignore_ascii_case, text_eq, trim_end_by, parse_unsigned, ok, inr,
  arith,
}
use dynamic_config_remote.Engine.Sample.{sample}
use dynamic_config_remote.Server.Client.Endpoint.{Endpoint, parse}
use dynamic_config_remote.Server.Client.Endpoint.Spelling.{IsSpellable, spelled, parse-spelled}

abbrev at : Bool → Text → ℕ → Text → Endpoint
at secure host port prefix = record { secure = secure; host = host; port = port; prefix = prefix }

an_endpoint_is_parsed_into_what_is_dialled :
    (parse sample (text "https://config.internal/base/") []
      ≡ ok (at true (text "config.internal") 443 (text "/base")))
    × (parse sample (text "http://127.0.0.1:8080") [] ≡ ok (at false (text "127.0.0.1") 8080 []))
    × (parse sample (text "HTTP://[::1]:8080") [] ≡ ok (at false (text "::1") 8080 []))
unfolding parse text split_at_text split_once rsplit_once strip_prefix contains_char
    eq_ignore_ascii_case text_eq trim_end_by parse_unsigned
an_endpoint_is_parsed_into_what_is_dialled = (refl, refl, refl)

abbrev v6 : Endpoint
v6 = at true (text "::1") 8443 (text "/base")

v6-IsSpellable : IsSpellable v6
unfolding text contains_char trim_end_by
v6-IsSpellable = record {
  first = b':';
  others = text ":1";
  host = refl;
  open_bracket = refl;
  close_bracket = refl;
  slash = refl;
  at_sign = refl;
  port = omega arith;
  prefix = inr (text "base", refl);
  trimmed = refl;
}

parse-spelled_example : parse sample (spelled v6) (text "a server") ≡ ok v6
parse-spelled_example = parse-spelled sample v6 (text "a server") v6-IsSpellable
