-- ===== src/Server/Routes/Handlers.antt =====
-- dynamic-config-server/src/routes/{documents,diagnostics,stream,metrics,health,mod}.rs: the handlers.
--
-- A handler reads the section at moments that are its arguments, in the order in which it reads.
use dynamic_config_remote.Common.{
  ℕ, ◌+◌, not, List, [], ◌∷◌, Option, none, some, Text, text, Result, ok, err, if◌then◌else◌,
}
use dynamic_config_remote.Server.Auth.{Principal, authenticate, may_read}
use dynamic_config_remote.Server.Names.{is_key_path}
use dynamic_config_remote.Server.Audit.{served, unauthenticated, not_found, malformed}
use dynamic_config_remote.Server.Document.{leaf_paths}
use dynamic_config_remote.Server.Generations.{last_event_id}
use dynamic_config_remote.Server.Live.{
  Cells, Section, Server, installed, section_is_ready, is_ready, record_entry, streams_enabled,
  open_stream,
}
use dynamic_config_remote.Server.Routes.{
  Request, Body, live_body, ready_body, document_body, paths_body, status_body, check_body,
  explain_body, event_stream, exposition, Response, Admitted, entry_at, refuse, admit,
  record_served, unready, at_capacity, unavailable_response,
}

module _ (cells : Cells) where
  abbrev pub answer : Body cells → Response cells
  answer body = record { status = 200; headers = []; body = body }

  -- The start of every handler of a section.
  abbrev pub admitted_then :
      Server cells × Result (Admitted cells) (Response cells)
      → (Server cells → Admitted cells → Server cells × Response cells)
      → Server cells × Response cells
  admitted_then (after, err response) next = (after, response)
  admitted_then (after, ok admitted) next = next after admitted

  abbrev pub place_of : Admitted cells → Option (Text × Text)
  place_of admitted = some (admitted.section.application, admitted.section.profile)

  -- Each handler of a section, and what it goes on with once the caller is admitted.
  unfoldable pub give_document : ℕ → Server cells → Admitted cells → Server cells × Response cells
  unfolding record_served unready
  give_document now server admitted = elim (installed cells admitted.section now (now + 1)) [
    | none ↦ unready cells server admitted
    | some (generation, it) ↦ (
      record_served cells server admitted generation,
      answer (document_body admitted.section.application admitted.section.profile generation it),
    )
  ]

  unfoldable pub document : ℕ → Server cells → Request → Server cells × Response cells
  unfolding give_document
  document now server request =
      admitted_then (admit cells server request (text "document")) (give_document now)

  unfoldable pub give_paths : ℕ → Server cells → Admitted cells → Server cells × Response cells
  unfolding record_served unready
  give_paths now server admitted = elim (installed cells admitted.section now (now + 1)) [
    | none ↦ unready cells server admitted
    | some (generation, it) ↦ (
      record_served cells server admitted generation,
      answer (
          paths_body admitted.section.application admitted.section.profile generation
            (leaf_paths it)),
    )
  ]

  unfoldable pub paths : ℕ → Server cells → Request → Server cells × Response cells
  unfolding give_paths
  paths now server request =
      admitted_then (admit cells server request (text "paths")) (give_paths now)

  unfoldable pub give_status : ℕ → Server cells → Admitted cells → Server cells × Response cells
  unfolding record_served
  give_status now server admitted =
      let status = cells.status admitted.section.config now in
      (
        record_served cells server admitted (cells.status_generation status),
        answer (
            status_body admitted.section.application admitted.section.profile status
              (section_is_ready cells admitted.section (now + 1) (now + 2))),
      )

  unfoldable pub status : ℕ → Server cells → Request → Server cells × Response cells
  unfolding give_status
  status now server request =
      admitted_then (admit cells server request (text "status")) (give_status now)

  unfoldable pub give_check : ℕ → Server cells → Admitted cells → Server cells × Response cells
  unfolding record_served unavailable_response
  give_check now server admitted = elim (cells.check admitted.section.config now) [
    | err error ↦ unavailable_response cells server admitted error
    | ok report ↦ (
      record_served cells server admitted (cells.generation admitted.section.config (now + 1)),
      answer (check_body admitted.section.application admitted.section.profile report),
    )
  ]

  unfoldable pub check : ℕ → Server cells → Request → Server cells × Response cells
  unfolding give_check
  check now server request =
      admitted_then (admit cells server request (text "check")) (give_check now)

  -- Every value of an explanation is redacted.
  unfoldable pub give_explanation :
      Text → ℕ → Server cells → Admitted cells → Server cells × Response cells
  unfolding record_served unavailable_response refuse
  give_explanation path now server admitted =
      if not (is_key_path path)
      then refuse cells server (text "explain") malformed (some admitted.principal.name)
          (place_of admitted)
      else elim (cells.explain admitted.section.config path now) [
        | err error ↦ unavailable_response cells server admitted error
        | ok explanation ↦ (
          record_served cells server admitted (cells.generation admitted.section.config (now + 1)),
          answer (
              explain_body admitted.section.application admitted.section.profile path
                (cells.redacted explanation)),
        )
      ]

  unfoldable pub explain : Text → ℕ → Server cells → Request → Server cells × Response cells
  unfolding give_explanation
  explain path now server request =
      admitted_then (admit cells server request (text "explain")) (give_explanation path now)

  unfoldable pub give_stream :
      Option Text → ℕ → Server cells → Admitted cells → Server cells × Response cells
  unfolding record_served at_capacity refuse
  give_stream resume now server admitted =
      if not (streams_enabled cells server)
      then refuse cells server (text "stream") not_found (some admitted.principal.name)
          (place_of admitted)
      else let (after, permit) = open_stream cells server in
        if not permit then at_capacity cells after admitted else (
          record_served cells after admitted (cells.generation admitted.section.config now),
          answer (
              event_stream
                (record {
                  application = admitted.section.application;
                  profile = admitted.section.profile;
                  sent = none;
                  resume = last_event_id resume;
                })
                admitted.section.config),
        )

  unfoldable pub stream : ℕ → Server cells → Request → Server cells × Response cells
  unfolding give_stream
  stream now server request =
      admitted_then (admit cells server request (text "stream"))
        (give_stream request.last_event_id now)

  -- The loop of `metrics`: the sections that the caller may read.
  unfoldable pub readable : ℕ → Principal → List (Section cells) → List (Text × Text × cells.Status)
  readable now principal [] = []
  readable now principal (s ∷ sections) =
      let rest = readable (now + 1) principal sections in
      if may_read principal s.application
      then (s.application, s.profile, cells.status s.config now) ∷ rest
      else rest

  unfoldable pub metrics : ℕ → Server cells → Option Text → Server cells × Response cells
  unfolding readable refuse
  metrics now server authorization = elim (authenticate server.authenticator authorization) [
    | none ↦ refuse cells server (text "metrics") unauthenticated none none
    | some principal ↦ (
      record_entry cells server (entry_at cells (text "metrics") served (some principal.name) none),
      record {
        status = 200;
        headers = (text "content-type", text "text/plain; version=0.0.4; charset=utf-8") ∷ [];
        body = exposition (readable now principal server.sections);
      },
    )
  ]

  unfoldable pub healthz : Response cells
  healthz = answer live_body

  unfoldable pub readyz : ℕ → Server cells → Response cells
  readyz now server =
      let ready = is_ready cells server now in
      record { status = if ready then 200 else 503; headers = []; body = ready_body ready }

  -- The routes that name a section.
  pub data Route : Type 0 where
    document_endpoint paths_endpoint status_endpoint : Route
    check_endpoint stream_endpoint : Route
    explain_endpoint : Text → Route

  abbrev pub endpoint_name : Route → Text
  endpoint_name document_endpoint = text "document"
  endpoint_name paths_endpoint = text "paths"
  endpoint_name status_endpoint = text "status"
  endpoint_name check_endpoint = text "check"
  endpoint_name stream_endpoint = text "stream"
  endpoint_name (explain_endpoint path) = text "explain"

  unfoldable pub handle : Route → ℕ → Server cells → Request → Server cells × Response cells
  unfolding document paths status check explain stream
  handle document_endpoint = document
  handle paths_endpoint = paths
  handle status_endpoint = status
  handle check_endpoint = check
  handle stream_endpoint = stream
  handle (explain_endpoint path) = explain path
