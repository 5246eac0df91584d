-- ===== src/Server/Routes/Tests.antt =====
-- Requests to a server, and the theorems at concrete inputs.
use dynamic_config_remote.Common.{
  ◌+◌, ◌≡◌, inl, refl, false, [], ◌∷◌, none, some, Text, text, text_eq, as_bytes, utf8_char,
  split_once, eq_ignore_ascii_case, trim_start, is_digit, utf8_len,
}
use dynamic_config_remote.Server.Auth.{authenticate, may_read, matches, bearer}
use dynamic_config_remote.Server.Names.{is_name}
use dynamic_config_remote.Server.Audit.{AuditEntry}
use dynamic_config_remote.Server.Live.{record_entry, installed, section}
use dynamic_config_remote.Server.Live.Sample.{cells, served, pod, server}
use dynamic_config_remote.Server.Routes.{
  Request, Response, Admitted, admit, document_body, not_found_response,
}
use dynamic_config_remote.Server.Routes.Handlers.{
  Route, document_endpoint, paths_endpoint, endpoint_name, handle, document,
}
use dynamic_config_remote.Server.Routes.Oracle.{denied, handle_no_oracle}
use dynamic_config_remote.Server.Routes.Granted.{Admission, IsChecked}
use dynamic_config_remote.Server.Routes.Audited.{handle_audited}
use dynamic_config_remote.Server.Routes.Values.{handle_values}

abbrev asking : Text → Request
asking application = record {
  authorization = some (text "Bearer abcdef");
  last_event_id = none;
  application = application;
  profile = text "prod";
}

the_pod_is_known : authenticate server.authenticator (some (text "Bearer abcdef")) ≡ some pod
unfolding authenticate bearer matches text split_once eq_ignore_ascii_case trim_start text_eq
    as_bytes utf8_char
the_pod_is_known = refl

abbrev granted : Response cells
granted = (handle cells document_endpoint 3 server (asking (text "billing"))).1

the_pod_gets_its_document : granted.body ≡ document_body (text "billing") (text "prod") 2 served
unfolding handle document authenticate bearer matches text split_once eq_ignore_ascii_case
    trim_start text_eq as_bytes utf8_char is_name is_digit utf8_len may_read section installed
    not_found_response admit
the_pod_gets_its_document = refl

not_yours_and_no_such_thing_are_the_same :
    ((handle cells document_endpoint 3 server (asking (text "shipping"))).1
      ≡ not_found_response cells)
    × ((handle cells document_endpoint 3 server (asking (text "gone"))).1
        ≡ not_found_response cells)
unfolding handle document authenticate bearer matches text split_once eq_ignore_ascii_case
    trim_start text_eq as_bytes utf8_char is_name is_digit utf8_len may_read section installed
    not_found_response admit
not_yours_and_no_such_thing_are_the_same = (refl, refl)

shipping_is_not_granted : may_read pod (text "shipping") ≡ false
unfolding may_read text_eq text
shipping_is_not_granted = refl

handle_no_oracle_example : handle cells paths_endpoint 3 server (asking (text "shipping")) ≡ (
  record_entry cells server
      (denied cells (endpoint_name cells paths_endpoint) pod (asking (text "shipping"))),
  not_found_response cells,
)
handle_no_oracle_example =
    handle_no_oracle cells paths_endpoint 3 server (asking (text "shipping")) pod the_pod_is_known
      (inl shipping_is_not_granted)

handle_audited_example :
    (entry : AuditEntry) × ((handle cells document_endpoint 3 server
        (asking (text "billing"))).0.audit
      ≡ entry ∷ [])
    × IsChecked cells (asking (text "billing")) entry
handle_audited_example = handle_audited cells document_endpoint 3 server (asking (text "billing"))

handle_values_example :
    (◌≡◌ {A = Route cells} document_endpoint document_endpoint)
    × (text "billing" ≡ text "billing")
    × (text "prod" ≡ text "prod")
    × (a : Admitted cells) × Admission cells server (asking (text "billing")) a
    × (installed cells a.section 3 (3 + 1) ≡ some (2, served))
handle_values_example =
    handle_values cells document_endpoint 3 server (asking (text "billing")) (text "billing")
      (text "prod") 2 served the_pod_gets_its_document
