-- ===== src/Server/Routes/Audited.antt =====
-- Every request leaves one line in the audit log, and values leave the server by one door.
use dynamic_config_remote.Common.{
  ℕ, ◌+◌, ◌≡◌, refl, ap, ◌∙◌, ◌∷◌, none, some, arith, Bool-cases, Option-cases, Result-cases, inl,
  inr,
}
use dynamic_config_remote.Server.Names.{is_key_path}
use dynamic_config_remote.Server.Audit.{served, unavailable, AuditEntry}
use dynamic_config_remote.Server.Live.{
  Cells, Server, record_entry, installed, streams_enabled, open_stream, open_round,
}
use dynamic_config_remote.Server.Routes.{
  Request, Admitted, entry_of, refuse, unready, at_capacity, unavailable_response, record_served,
}
use dynamic_config_remote.Server.Routes.Handlers.{
  Route, document_endpoint, paths_endpoint, status_endpoint, check_endpoint, stream_endpoint,
  explain_endpoint, endpoint_name, give_document, give_paths, give_status, give_check,
  give_explanation, give_stream, handle,
}
use dynamic_config_remote.Server.Routes.Oracle.{handle_refused, handle_admitted, respond}
use dynamic_config_remote.Server.Routes.Granted.{IsChecked, admit-cases}

module _ (cells : Cells) where
  -- One entry more, which names the section that a caller was admitted to.
  abbrev Noted : Server cells → Admitted cells → Server cells → Type 0
  Noted before a after =
      (entry : AuditEntry) × (after.audit ≡ entry ∷ before.audit)
      × (entry.application ≡ some a.section.application)
      × (entry.profile ≡ some a.section.profile)

  open_stream_audit : (server : Server cells) → (open_stream cells server).0.audit ≡ server.audit
  unfolding open_stream open_round
  open_stream_audit server = ground arith

  respond-Noted :
      (e : Route cells) (request : Request) (now : ℕ) (server : Server cells) (a : Admitted cells)
      → Noted server a (respond cells e request now server a).0
  unfolding give_document give_paths give_status give_check give_explanation give_stream
      record_served unready unavailable_response at_capacity refuse record_entry
  respond-Noted document_endpoint request now server a =
      elim (Option-cases (installed cells a.section now (now + 1))) [
        | inl nothing ↦ rw (give_document, nothing) (_, refl, refl, refl)
        | inr ((generation, it), there) ↦ rw (give_document, there) (_, refl, refl, refl)
      ]
  respond-Noted paths_endpoint request now server a =
      elim (Option-cases (installed cells a.section now (now + 1))) [
        | inl nothing ↦ rw (give_paths, nothing) (_, refl, refl, refl)
        | inr ((generation, it), there) ↦ rw (give_paths, there) (_, refl, refl, refl)
      ]
  respond-Noted status_endpoint request now server a = (_, refl, refl, refl)
  respond-Noted check_endpoint request now server a =
      elim (Result-cases (cells.check a.section.config now)) [
        | inl (report, good) ↦ rw (give_check, good) (_, refl, refl, refl)
        | inr (error, bad) ↦ rw (give_check, bad) (_, refl, refl, refl)
      ]
  respond-Noted (explain_endpoint path) request now server a =
      elim (Bool-cases (is_key_path path)) [
        | inr bad ↦ rw (give_explanation, bad) (_, refl, refl, refl)
        | inl fine ↦ elim (Result-cases (cells.explain a.section.config path now)) [
          | inl (it, good) ↦ rw (give_explanation, fine, good) (_, refl, refl, refl)
          | inr (error, failed) ↦ rw (give_explanation, fine, failed) (_, refl, refl, refl)
        ]
      ]
  respond-Noted stream_endpoint request now server a =
      elim (Bool-cases (streams_enabled cells server)) [
        | inr off ↦ rw (give_stream, off) (_, refl, refl, refl)
        | inl on ↦ elim (Bool-cases (open_stream cells server).1) [
          | inl permit ↦
              rw (give_stream, on, permit)
                (
                  entry_of cells a served (some (cells.generation a.section.config now)),
                  ap (◌∷◌ (entry_of cells a served (some (cells.generation a.section.config now))))
                      (open_stream_audit server),
                  refl,
                  refl,
                )
          | inr full ↦
              rw (give_stream, on, full)
                (
                  entry_of cells a unavailable none,
                  ap (◌∷◌ (entry_of cells a unavailable none)) (open_stream_audit server),
                  refl,
                  refl,
                )
        ]
      ]

  -- Every request to a section's endpoint, whatever comes of it, leaves exactly one line in the audit
  -- log, newest first. The line has no application and no profile, or those that were asked for, which
  -- are then names.
  pub handle_audited :
      (e : Route cells) (now : ℕ) (server : Server cells) (request : Request)
      → (entry : AuditEntry) × ((handle cells e now server request).0.audit ≡ entry ∷ server.audit)
        × IsChecked cells request entry
  unfolding record_entry
  handle_audited e now server request =
      elim (admit-cases cells server request (endpoint_name cells e)) [
        | inl (entry, outcome, refused, checked, named) ↦ (
          entry,
          ap (λ r. r.0.audit) (handle_refused cells e now server _ request _ refused),
          checked,
        )
        | inr (a, admitted, admission, named) ↦
            let (entry, noted, application, profile) = respond-Noted e request now server a in
            (
              entry,
              ap (λ r. r.0.audit) (handle_admitted cells e now server request a admitted) ∙ noted,
              inr (
                application ∙ ap some admission.application,
                profile ∙ ap some admission.profile,
                admission.application_name,
                admission.profile_name,
              ),
            )
      ]
