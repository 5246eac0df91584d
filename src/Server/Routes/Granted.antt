-- ===== src/Server/Routes/Granted.antt =====
-- Whoever is answered was admitted, and values leave by one door.
use dynamic_config_remote.Common.{
  ◌≡◌, ◌⊎◌, refl, Bool, true, false, not, ◌||◌, none, some, Text, ok, err, arith, Bool-cases,
  Option-cases, inl, inr,
}
use dynamic_config_remote.Server.Auth.{Principal, authenticate, may_read}
use dynamic_config_remote.Server.Names.{is_name}
use dynamic_config_remote.Server.Audit.{Outcome, unauthenticated, not_found, malformed, AuditEntry}
use dynamic_config_remote.Server.Live.{Cells, Server, section, record_entry}
use dynamic_config_remote.Server.Live.Coherent.{section_found}
use dynamic_config_remote.Server.Routes.{Request, Admitted, refusal, entry_at, refuse, admit}

module _ (cells : Cells) where
  -- What is known of a caller that was let in.
  pub record Admission (server : Server cells) (request : Request) (a : Admitted cells)
      : Type 0 where
    pub known : authenticate server.authenticator request.authorization ≡ some a.principal
    pub application_name : is_name request.application ≡ true
    pub profile_name : is_name request.profile ≡ true
    pub granted : may_read a.principal request.application ≡ true
    pub application : a.section.application ≡ request.application
    pub profile : a.section.profile ≡ request.profile

  -- What is recorded of a refusal names a section only by names that were checked.
  abbrev pub IsChecked : Request → AuditEntry → Type 0
  IsChecked request entry =
      ((entry.application ≡ none) × (entry.profile ≡ none))
      ⊎ ((entry.application ≡ some request.application)
          × (entry.profile ≡ some request.profile)
          × (is_name request.application ≡ true)
          × (is_name request.profile ≡ true))

  names_checked : (a b : Bool) → (not a || not b) ≡ false → (a ≡ true) × (b ≡ true)
  names_checked a b h = ground arith

  -- The two ends of `admit`: a refusal that is recorded, and a caller that is let in.
  abbrev pub Ends : Server cells → Request → Text → Type 0
  Ends server request endpoint =
      ((entry : AuditEntry) × (outcome : Outcome) × (admit cells server request endpoint
          ≡ (record_entry cells server entry, err (refusal cells outcome)))
        × IsChecked request entry
        × (entry.endpoint ≡ endpoint))
      ⊎ ((a : Admitted cells) × (admit cells server request endpoint ≡ (server, ok a))
          × Admission server request a
          × (a.endpoint ≡ endpoint))

  pub admit-cases :
      (server : Server cells) (request : Request) (endpoint : Text) → Ends server request endpoint
  unfolding admit refuse
  admit-cases server request endpoint =
      elim (Option-cases (authenticate server.authenticator request.authorization)) [
        | inl nobody ↦ inl (
          entry_at cells endpoint unauthenticated none none,
          unauthenticated,
          rw (admit, nobody) refl,
          inl (refl, refl),
          refl,
        )
        | inr (p, who) ↦
            elim (Bool-cases (not (is_name request.application) || not (is_name request.profile))) [
              | inl bad ↦ inl (
                entry_at cells endpoint malformed (some p.name) none,
                malformed,
                rw (admit, who, bad) refl,
                inl (refl, refl),
                refl,
              )
              | inr fine ↦ named p who fine
            ]
      ]
    where
      named :
          (p : Principal)
          → authenticate server.authenticator request.authorization ≡ some p
          → (not (is_name request.application) || not (is_name request.profile)) ≡ false
          → Ends server request endpoint
      named p who fine =
          let checked =
            names_checked (is_name request.application) (is_name request.profile) fine in
          let missing =
            entry_at cells endpoint not_found (some p.name)
              (some (request.application, request.profile)) in
          elim (Bool-cases (may_read p request.application)) [
            | inr ungranted ↦ inl (
              missing,
              not_found,
              rw (admit, who, fine, ungranted) refl,
              inr (refl, refl, checked.0, checked.1),
              refl,
            )
            | inl granted ↦
                elim (Option-cases (section cells server request.application request.profile)) [
                  | inl nothing ↦ inl (
                    missing,
                    not_found,
                    rw (admit, who, fine, granted, nothing) refl,
                    inr (refl, refl, checked.0, checked.1),
                    refl,
                  )
                  | inr (s, found) ↦
                      let (application, profile) =
                        section_found cells server request.application request.profile s found in
                      inr (
                        record { principal = p; section = s; endpoint = endpoint },
                        rw (admit, who, fine, granted, found) refl,
                        record {
                          known = who;
                          application_name = checked.0;
                          profile_name = checked.1;
                          granted = granted;
                          application = application;
                          profile = profile;
                        },
                        refl,
                      )
                ]
          ]
