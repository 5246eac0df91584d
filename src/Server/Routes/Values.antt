-- ===== src/Server/Routes/Values.antt =====
-- Values leave the server by one door, and only to a caller that may read them.
use dynamic_config_remote.Common.{
  ℕ, ◌+◌, ◌≡◌, ◌≢◌, refl, sym, ap, ◌∙◌, Option, none, some, Text, arith, Option-cases, Result-cases,
  inl, inr,
}
use dynamic_config_remote.Server.Audit.{Outcome}
use dynamic_config_remote.Server.Document.{Json}
use dynamic_config_remote.Server.Live.{Cells, Server, installed}
use dynamic_config_remote.Server.Routes.{
  Request, Body, Admitted, refusal, refuse, document_body, unready, at_capacity,
  unavailable_response, unauthenticated_response, not_found_response,
}
use dynamic_config_remote.Server.Routes.Handlers.{
  Route, document_endpoint, paths_endpoint, status_endpoint, check_endpoint, stream_endpoint,
  explain_endpoint, endpoint_name, give_document, give_paths, give_status, give_check,
  give_explanation, give_stream, handle,
}
use dynamic_config_remote.Server.Routes.Oracle.{handle_refused, handle_admitted, respond}
use dynamic_config_remote.Server.Routes.Granted.{Admission, admit-cases}

module _ (cells : Cells) where
  abbrev pub document_of : Body cells → Option (Text × Text × ℕ × Json)
  document_of (document_body application profile generation it) =
      some (application, profile, generation, it)
  document_of _ = none

  respond_values :
      (e : Route cells) (request : Request) (now : ℕ) (server : Server cells) (a : Admitted cells)
      {v : Text × Text × ℕ × Json}
      → document_of (respond cells e request now server a).1.body ≡ some v
      → (e ≡ document_endpoint)
        × (a.section.application ≡ v.0)
        × (a.section.profile ≡ v.1)
        × (installed cells a.section now (now + 1) ≡ some (v.2, v.3))
  unfolding give_document give_paths give_status give_check give_explanation give_stream unready
      unavailable_response at_capacity refuse not_found_response
  respond_values document_endpoint request now server a h =
      elim (Option-cases (installed cells a.section now (now + 1))) [
        | inl nothing ↦ absurd (ground arith)
        | inr ((generation, it), there) ↦ (refl, ground arith, ground arith, ground arith)
      ]
  respond_values paths_endpoint request now server a h =
      elim (Option-cases (installed cells a.section now (now + 1))) [
        | inl nothing ↦ absurd (ground arith)
        | inr (there, it) ↦ absurd (ground arith)
      ]
  respond_values status_endpoint request now server a h = cc
  respond_values check_endpoint request now server a h =
      elim (Result-cases (cells.check a.section.config now)) [
        | inl (report, good) ↦ absurd (ground arith)
        | inr (error, bad) ↦ absurd (ground arith)
      ]
  respond_values (explain_endpoint path) request now server a h = absurd (ground arith)
  respond_values stream_endpoint request now server a h = absurd (ground arith)

  -- The resolved document is in a response only of the document endpoint, and only to a caller that the
  -- server knows and that may read the application it asked for; it is then the one that the section of
  -- that application and profile has in place, with a generation that was read before it.
  pub handle_values :
      (e : Route cells) (now : ℕ) (server : Server cells) (request : Request)
      (application profile : Text) (generation : ℕ) (it : Json)
      → (handle cells e now server request).1.body ≡ document_body application profile generation it
      → (e ≡ document_endpoint)
        × (application ≡ request.application)
        × (profile ≡ request.profile)
        × (a : Admitted cells) × Admission cells server request a
        × (installed cells a.section now (now + 1) ≡ some (generation, it))
  unfolding not_found_response unauthenticated_response
  handle_values e now server request application profile generation it h =
      elim (admit-cases cells server request (endpoint_name cells e)) [
        | inl (entry, outcome, refused, checked, named) ↦
            let answered =
              ap (λ r. r.1.body) (handle_refused cells e now server _ request _ refused) in
            absurd (no_document outcome (sym answered ∙ h))
        | inr (a, admitted, admission, named) ↦
            let answered =
              ap (λ r. r.1.body) (handle_admitted cells e now server request a admitted) in
            let (door, at_application, at_profile, there) =
              respond_values e request now server a (ap document_of (sym answered ∙ h)) in
            (
              door,
              sym at_application ∙ admission.application,
              sym at_profile ∙ admission.profile,
              a,
              admission,
              there,
            )
      ]
    where
      no_document :
          (outcome : Outcome)
          → (refusal cells outcome).body ≢ document_body application profile generation it
      no_document outcome e = ground arith
