-- ===== src/Server/Routes/Oracle.antt =====
-- "Not yours" and "no such thing" cannot be told apart.
use dynamic_config_remote.Common.{
  ℕ, ◌≡◌, refl, ap, ◌∙◌, false, not, ◌||◌, none, some, Text, ok, err, if◌then◌else◌, Bool-cases,
  inl, inr, ◌⊎◌,
}
use dynamic_config_remote.Server.Auth.{Principal, authenticate, may_read}
use dynamic_config_remote.Server.Names.{is_name}
use dynamic_config_remote.Server.Audit.{not_found, malformed, AuditEntry}
use dynamic_config_remote.Server.Live.{Cells, Server, section, record_entry}
use dynamic_config_remote.Server.Routes.{
  Request, Response, Admitted, not_found_response, entry_at, refuse, admit,
}
use dynamic_config_remote.Server.Routes.Handlers.{
  Route, document_endpoint, paths_endpoint, status_endpoint, check_endpoint, stream_endpoint,
  explain_endpoint, endpoint_name, admitted_then, give_document, give_paths, give_status,
  give_check, give_explanation, give_stream, handle, document, paths, status, check, stream,
  explain,
}

module _ (cells : Cells) where
  -- What a handler goes on with.
  abbrev pub respond :
      Route cells → Request → ℕ → Server cells → Admitted cells → Server cells × Response cells
  respond document_endpoint request = give_document cells
  respond paths_endpoint request = give_paths cells
  respond status_endpoint request = give_status cells
  respond check_endpoint request = give_check cells
  respond stream_endpoint request = give_stream cells request.last_event_id
  respond (explain_endpoint path) request = give_explanation cells path

  -- Every endpoint admits first, under its own name.
  pub handle-admit :
      (e : Route cells) (now : ℕ) (server : Server cells) (request : Request)
      → handle cells e now server request
        ≡ admitted_then cells
            (admit cells server request (endpoint_name cells e))
            (respond e request now)
  unfolding handle document paths status check stream explain
  handle-admit document_endpoint now server request = refl
  handle-admit paths_endpoint now server request = refl
  handle-admit status_endpoint now server request = refl
  handle-admit check_endpoint now server request = refl
  handle-admit stream_endpoint now server request = refl
  handle-admit (explain_endpoint path) now server request = refl

  -- Whoever is not admitted is answered by the refusal, at every endpoint, and whoever is admitted
  -- by the handler.
  pub handle_refused :
      (e : Route cells) (now : ℕ) (server after : Server cells) (request : Request)
      (response : Response cells)
      → admit cells server request (endpoint_name cells e) ≡ (after, err response)
      → handle cells e now server request ≡ (after, response)
  handle_refused e now server after request response h =
      handle-admit e now server request ∙ ap (λ r. admitted_then cells r (respond e request now)) h

  pub handle_admitted :
      (e : Route cells) (now : ℕ) (server : Server cells) (request : Request) (a : Admitted cells)
      → admit cells server request (endpoint_name cells e) ≡ (server, ok a)
      → handle cells e now server request ≡ respond e request now server a
  handle_admitted e now server request a h =
      handle-admit e now server request ∙ ap (λ r. admitted_then cells r (respond e request now)) h

  -- What is recorded of a request that is denied: no more than the request said, and its path only
  -- where it holds names.
  abbrev pub denied : Text → Principal → Request → AuditEntry
  denied endpoint p request =
      if not (is_name request.application) || not (is_name request.profile)
      then entry_at cells endpoint malformed (some p.name) none
      else entry_at cells endpoint not_found (some p.name)
          (some (request.application, request.profile))

  admit_ungranted :
      (server : Server cells) (request : Request) (endpoint : Text) (p : Principal)
      → authenticate server.authenticator request.authorization ≡ some p
      → may_read p request.application ≡ false
      → admit cells server request endpoint
        ≡ (record_entry cells server (denied endpoint p request), err (not_found_response cells))
  unfolding admit refuse
  admit_ungranted server request endpoint p who ungranted =
      elim (Bool-cases (not (is_name request.application) || not (is_name request.profile))) [
        | inl bad ↦ rw (admit, who, bad) refl
        | inr fine ↦ rw (admit, who, fine, ungranted) refl
      ]

  admit_missing :
      (server : Server cells) (request : Request) (endpoint : Text) (p : Principal)
      → authenticate server.authenticator request.authorization ≡ some p
      → section cells server request.application request.profile ≡ none
      → admit cells server request endpoint
        ≡ (record_entry cells server (denied endpoint p request), err (not_found_response cells))
  unfolding admit refuse
  admit_missing server request endpoint p who missing =
      elim (Bool-cases (not (is_name request.application) || not (is_name request.profile))) [
        | inl bad ↦ rw (admit, who, bad) refl
        | inr fine ↦ elim (Bool-cases (may_read p request.application)) [
          | inl granted ↦ rw (admit, who, fine, granted, missing) refl
          | inr ungranted ↦ rw (admit, who, fine, ungranted) refl
        ]
      ]

  -- A caller that is known and is not granted the application gets from every endpoint, whatever the
  -- server serves, what it gets where nothing is served by that name: the same status, headers and
  -- body, and the same line in the audit log, which says no more than the request did.
  pub handle_no_oracle :
      (e : Route cells) (now : ℕ) (server : Server cells) (request : Request) (p : Principal)
      → authenticate server.authenticator request.authorization ≡ some p
      → (may_read p request.application ≡ false)
        ⊎ (section cells server request.application request.profile ≡ none)
      → handle cells e now server request ≡ (
        record_entry cells server (denied (endpoint_name cells e) p request),
        not_found_response cells,
      )
  handle_no_oracle e now server request p who (inl ungranted) =
      handle_refused e now server _ request _
        (admit_ungranted server request (endpoint_name cells e) p who ungranted)
  handle_no_oracle e now server request p who (inr missing) =
      handle_refused e now server _ request _
        (admit_missing server request (endpoint_name cells e) p who missing)
