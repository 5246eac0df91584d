-- ===== src/Server/Routes.antt =====
-- dynamic-config-server/src/routes/admit.rs: who may ask, and every way the server says no.
--
-- A request carries what the handlers read of its headers, each a text where `to_str` gives one, and
-- the segments of its path. A response is its status, its headers and its body.
pub mod Handlers
pub mod Oracle
pub mod Audited
pub mod Granted
pub mod Values
mod Tests
use dynamic_config_remote.Common.{
  ℕ, Bool, true, false, not, ◌&&◌, ◌||◌, List, [], ◌∷◌, Option, none, some, Text, text, Result, ok,
  err, if◌then◌else◌,
}
use dynamic_config_remote.Server.Auth.{Principal, authenticate, may_read}
use dynamic_config_remote.Server.Names.{is_name}
use dynamic_config_remote.Server.Audit.{
  Outcome, served, unauthenticated, not_found, malformed, unavailable, AuditEntry,
}
use dynamic_config_remote.Server.Document.{Json}
use dynamic_config_remote.Server.Generations.{Generations}
use dynamic_config_remote.Server.Live.{Cells, Section, Server, section, record_entry}

pub record Request : Type 0 where
  pub authorization : Option Text
  pub last_event_id : Option Text
  pub application : Text
  pub profile : Text

module _ (cells : Cells) where
  pub data Body : Type 0 where
    error_body : Text → Body
    failure_body : Text → Text → Body
    live_body : Body
    ready_body : Bool → Body
    document_body : Text → Text → ℕ → Json → Body
    paths_body : Text → Text → ℕ → List Text → Body
    status_body : Text → Text → cells.Status → Bool → Body
    check_body : Text → Text → cells.Report → Body
    explain_body : Text → Text → Text → cells.Explanation → Body
    event_stream : Generations → cells.Dynamic → Body
    exposition : List (Text × Text × cells.Status) → Body

  pub record Response : Type 0 where
    pub status : ℕ
    pub headers : List (Text × Text)
    pub body : Body

  pub record Admitted : Type 0 where
    pub principal : Principal
    pub section : Section cells
    pub endpoint : Text

  unfoldable pub unauthenticated_response : Response
  unauthenticated_response = record {
    status = 401;
    headers = (text "www-authenticate", text "Bearer") ∷ [];
    body = error_body (text "unauthenticated");
  }

  unfoldable pub not_found_response : Response
  not_found_response = record { status = 404; headers = []; body = error_body (text "not_found") }

  abbrev pub refusal : Outcome → Response
  refusal unauthenticated = unauthenticated_response
  refusal _ = not_found_response

  -- The entry of a request that is about no section, or about one by name.
  abbrev pub entry_at : Text → Outcome → Option Text → Option (Text × Text) → AuditEntry
  entry_at endpoint outcome caller none = record {
    caller = caller;
    application = none;
    profile = none;
    endpoint = endpoint;
    outcome = outcome;
    generation = none;
  }
  entry_at endpoint outcome caller (some (application, profile)) = record {
    caller = caller;
    application = some application;
    profile = some profile;
    endpoint = endpoint;
    outcome = outcome;
    generation = none;
  }

  unfoldable pub refuse :
      Server cells → Text → Outcome → Option Text → Option (Text × Text) → Server cells × Response
  refuse server endpoint outcome caller place =
      (record_entry cells server (entry_at endpoint outcome caller place), refusal outcome)

  -- Authorisation comes first: for an application that is not granted no section is looked up.
  unfoldable pub admit : Server cells → Request → Text → Server cells × Result Admitted Response
  unfolding refuse
  admit server request endpoint = elim (authenticate server.authenticator request.authorization) [
    | none ↦ no (refuse server endpoint unauthenticated none none)
    | some principal ↦
        if not (is_name request.application) || not (is_name request.profile)
        then no (refuse server endpoint malformed (some principal.name) none)
        else if not (may_read principal request.application)
        then no (refuse server endpoint not_found (some principal.name) place)
        else elim (section cells server request.application request.profile) [
          | none ↦ no (refuse server endpoint not_found (some principal.name) place)
          | some found ↦
              (server, ok (record { principal = principal; section = found; endpoint = endpoint }))
        ]
  ]
    where
      place : Option (Text × Text)
      place = some (request.application, request.profile)

      no : Server cells × Response → Server cells × Result Admitted Response
      no (after, response) = (after, err response)

  abbrev pub entry_of : Admitted → Outcome → Option ℕ → AuditEntry
  entry_of admitted outcome generation = record {
    caller = some admitted.principal.name;
    application = some admitted.section.application;
    profile = some admitted.section.profile;
    endpoint = admitted.endpoint;
    outcome = outcome;
    generation = generation;
  }

  unfoldable pub record_served : Server cells → Admitted → ℕ → Server cells
  record_served server admitted generation =
      record_entry cells server (entry_of admitted served (some generation))

  unfoldable pub unready : Server cells → Admitted → Server cells × Response
  unready server admitted = (
    record_entry cells server (entry_of admitted unavailable none),
    record { status = 503; headers = []; body = error_body (text "unavailable") },
  )

  unfoldable pub at_capacity : Server cells → Admitted → Server cells × Response
  at_capacity server admitted = (
    record_entry cells server (entry_of admitted unavailable none),
    record {
      status = 503;
      headers = (text "retry-after", text "5") ∷ [];
      body = error_body (text "unavailable");
    },
  )

  unfoldable pub unavailable_response :
      Server cells → Admitted → cells.Error → Server cells × Response
  unavailable_response server admitted error = (
    record_entry cells server (entry_of admitted unavailable none),
    record {
      status = 500;
      headers = [];
      body = failure_body (cells.kind error) (cells.path error);
    },
  )
