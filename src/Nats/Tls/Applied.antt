-- ===== src/Nats/Tls/Applied.antt =====
-- What the options of a connection hold once TLS settings were accepted.
use dynamic_config_remote.Common.{
  ◌≡◌, refl, sym, subst, ◌∙◌, true, false, List, [], ◌∷◌, ◌++◌, Option, none, some, Text,
  if◌then◌else◌, ok, >>=-eq-ok, ok_injective, ensure_iff, Option-cases, arith, ok_or, ok_or-eq-ok,
  Bool-cases, inl, inr,
}
use dynamic_config_remote.Engine.{Engine}
use dynamic_config_remote.Store.Tls.{
  Pem, file, bytes, ClientCertificate, TlsConfig, pem_path, is_empty_tls,
}
use dynamic_config_remote.Nats.Tls.{
  ConnectOptions, unnamed, verified, with_authority, with_client, with_tls_options,
}

pem_path-eq-some : (pem : Pem) (p : Text) → pem_path pem ≡ some p → pem ≡ file p
unfolding pem_path
pem_path-eq-some (file q) p h = cc
pem_path-eq-some (bytes b) p h = cc

module _ (e : Engine) (debug : Text → Text) where
  -- The authority is one that is named by a file, and the file is among the roots.
  abbrev pub Roots : Option Pem → List Text → List Text → Type 0
  Roots none before after = after ≡ before
  Roots (some pem) before after = (p : Text) × (pem ≡ file p) × (after ≡ before ++ p ∷ [])

  -- The client's certificate and key are files, and the ones that are used.
  abbrev pub Presents :
      Option ClientCertificate → Option (Text × Text) → Option (Text × Text) → Type 0
  Presents none before after = after ≡ before
  Presents (some client) before after =
      (certificate : Text) × (key : Text) × (client.certificate ≡ file certificate)
      × (client.key ≡ file key)
      × (after ≡ some (certificate, key))

  abbrev pub Applied : ConnectOptions → TlsConfig → ConnectOptions → Type 0
  Applied before tls after =
      (tls.server_name ≡ none)
      × (tls.skip_verification ≡ false)
      × Roots tls.ca before.root_certificates after.root_certificates
      × Presents tls.client before.client_certificate after.client_certificate
      × (after.tls_required ≡ (if is_empty_tls tls then before.tls_required else true))

  unnamed-eq-ok :
      (described : Text) (tls : TlsConfig)
      → unnamed e debug described tls ≡ ok tt
      → tls.server_name ≡ none
  unnamed-eq-ok described tls h = elim (Option-cases tls.server_name) [
    | inl unset ↦ unset
    | inr (name, set) ↦ let refused = rw set at h in cc
  ]

  with_authority_sound :
      (described : Text) (tls : TlsConfig) (options after : ConnectOptions)
      → with_authority e debug described tls options ≡ ok after
      → Roots tls.ca options.root_certificates after.root_certificates
        × (after.client_certificate ≡ options.client_certificate)
        × (after.tls_required ≡ options.tls_required)
  unfolding with_authority pem_path
  with_authority_sound described tls options after h = elim (Option-cases tls.ca) [
    | inl unset ↦
        let same = ok_injective (rw unset at h) in
        rw unset (
          subst
            (λ (o : ConnectOptions).
              (o.root_certificates ≡ options.root_certificates)
              × (o.client_certificate ≡ options.client_certificate)
              × (o.tls_required ≡ options.tls_required))
            same (refl, refl, refl))
    | inr (ca, given) ↦
        let (p, named, h') = >>=-eq-ok (ok_or (pem_path ca) _) _ (rw given at h) in
        rw given (
          subst
            (λ (o : ConnectOptions).
              Roots (some ca) options.root_certificates o.root_certificates
              × (o.client_certificate ≡ options.client_certificate)
              × (o.tls_required ≡ options.tls_required))
            (ok_injective h')
            ((p, pem_path-eq-some ca p (ok_or-eq-ok _ _ named), refl), refl, refl))
  ]

  with_client_sound :
      (described : Text) (tls : TlsConfig) (options after : ConnectOptions)
      → with_client e debug described tls options ≡ ok after
      → Presents tls.client options.client_certificate after.client_certificate
        × (after.root_certificates ≡ options.root_certificates)
        × (after.tls_required ≡ options.tls_required)
  unfolding with_client pem_path
  with_client_sound described tls options after h = elim (Option-cases tls.client) [
    | inl unset ↦
        let same = ok_injective (rw unset at h) in
        rw unset (
          subst
            (λ (o : ConnectOptions).
              (o.client_certificate ≡ options.client_certificate)
              × (o.root_certificates ≡ options.root_certificates)
              × (o.tls_required ≡ options.tls_required))
            same (refl, refl, refl))
    | inr (client, given) ↦
        let (certificate, one, h₁) =
          >>=-eq-ok (ok_or (pem_path client.certificate) _) _ (rw given at h) in
        let (key, two, h₂) = >>=-eq-ok (ok_or (pem_path client.key) _) _ h₁ in
        rw given (
          subst
            (λ (o : ConnectOptions).
              Presents (some client) options.client_certificate o.client_certificate
              × (o.root_certificates ≡ options.root_certificates)
              × (o.tls_required ≡ options.tls_required))
            (ok_injective h₂)
            (
              (
                certificate,
                key,
                pem_path-eq-some client.certificate certificate (ok_or-eq-ok _ _ one),
                pem_path-eq-some client.key key (ok_or-eq-ok _ _ two),
                refl,
              ),
              refl,
              refl,
            ))
  ]

  -- Settings that are accepted are applied, each of them: no name to verify against, no connection
  -- that is not verified, the authority's file among the roots behind those that were there, the
  -- client's files as its certificate, and TLS required where there are any settings. What cannot be
  -- applied is never dropped.
  pub with_tls_options-Applied :
      (before after : ConnectOptions) (tls : TlsConfig) (described : Text)
      → with_tls_options e debug before tls described ≡ ok after
      → Applied before tls after
  unfolding with_tls_options is_empty_tls
  with_tls_options-Applied before after tls described h =
      let (u, unset, h₁) = >>=-eq-ok (unnamed e debug described tls) _ h in
      let (v, strict, h₂) = >>=-eq-ok (verified e debug described tls) _ h₁ in
      let (rooted, authority, h₃) = >>=-eq-ok (with_authority e debug described tls before) _ h₂ in
      let (certified, client, h₄) = >>=-eq-ok (with_client e debug described tls rooted) _ h₃ in
      let (roots, keeps, required) = with_authority_sound described tls before rooted authority in
      let (presents, kept, required') = with_client_sound described tls rooted certified client in
      let presented =
        subst (λ c. Presents tls.client c certified.client_certificate) keeps presents in
      let all_roots = subst (λ r. Roots tls.ca before.root_certificates r) (sym kept) roots in
      let skips = (ensure_iff _ _).0 strict in
      let Holds : ConnectOptions → Type 0 = λ o.
        Roots tls.ca before.root_certificates o.root_certificates
        × Presents tls.client before.client_certificate o.client_certificate
        × (o.tls_required ≡ (if is_empty_tls tls then before.tls_required else true)) in
      let (all, certificate, tls_used) : Holds after = elim (Bool-cases (is_empty_tls tls)) [
        | inl empty ↦
            subst Holds (ok_injective (rw empty at h₄))
              (all_roots, presented, required' ∙ (required ∙ rw empty refl))
        | inr set ↦ subst Holds (ok_injective (rw set at h₄)) (all_roots, presented, rw set refl)
      ] in
      (unnamed-eq-ok described tls unset, ground (arith, skips), all, certificate, tls_used)
