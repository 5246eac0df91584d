-- ===== src/Server/Audit/Tests.antt =====
-- The unit tests of audit.rs.
use dynamic_config_remote.Common.{◌≡◌, refl, none, some, text, decimal}
use dynamic_config_remote.Server.Audit.{served, unauthenticated, AuditEntry, line}

abbrev an_entry : AuditEntry
an_entry = record {
  caller = some (text "billing-pod");
  application = some (text "billing");
  profile = some (text "prod");
  endpoint = text "document";
  outcome = served;
  generation = some 7;
}

an_entry_is_one_parsable_line :
    line an_entry
    ≡ text
        "audit caller=billing-pod application=billing profile=prod endpoint=document outcome=served generation=7"
unfolding line text decimal
an_entry_is_one_parsable_line = refl

an_absent_caller_is_a_dash_rather_than_a_gap :
    line (record {
      caller = none;
      application = none;
      profile = none;
      endpoint = text "document";
      outcome = unauthenticated;
      generation = none;
    })
    ≡ text
        "audit caller=- application=- profile=- endpoint=document outcome=unauthenticated generation=-"
unfolding line text decimal
an_absent_caller_is_a_dash_rather_than_a_gap = refl
