-- ===== src/Server/Config/Valid.antt =====
-- What `validate` promises about a configuration that it lets start.
use dynamic_config_remote.Common.{
  ℕ, ◌≤◌, ◌≡◌, ◌≢◌, ◌↔◌, ◌⊎◌, inl, inr, refl, Bool, true, false, not, List, [], ◌∷◌, Option, none,
  some, is_empty, All, Apart, arith, ok, >>=-eq-ok, >>=-intro, ensure, Option-cases,
}
use dynamic_config_remote.Server.Config.{
  ServerConfig, TlsConfig, SocketAddrs, Refusal, check_sections, check_clients, check_tokens,
  is_blank, check_client_ca, check_tls, address, check_exposure, validate, no_sections, no_clients,
}
use dynamic_config_remote.Server.Config.Sections.{IsRoutable, SamePlace, check_sections_iff}
use dynamic_config_remote.Server.Config.Clients.{
  IsCredential, IsGranted, SameName, anonymous_clients, check_clients_iff,
}
use dynamic_config_remote.Server.Config.Tokens.{SameToken, check_tokens_iff}

abbrev IsAuthority : Option (List ℕ) → Type 0
IsAuthority none = Unit
IsAuthority (some file) = is_blank file ≡ false

-- TLS that can be served: built in, no revocation list, a file behind each key, and no `insecure`.
abbrev pub IsServable : Bool → Bool → TlsConfig → Type 0
IsServable tls_feature insecure t =
    (tls_feature ≡ true)
    × (t.crl ≡ none)
    × (is_blank t.certificate ≡ false)
    × (is_blank t.key ≡ false)
    × IsAuthority t.client_ca
    × (insecure ≡ false)

-- A server without TLS is on the loopback interface, or is told that something in front has TLS.
abbrev pub IsProtected :
    (net : SocketAddrs) → Bool → Bool → net.SocketAddr → Option TlsConfig → Type 0
IsProtected net tls_feature insecure at none = (net.is_loopback at ≡ true) ⊎ (insecure ≡ true)
IsProtected net tls_feature insecure at (some t) = IsServable tls_feature insecure t

pub record IsValid (net : SocketAddrs) (tls_feature : Bool) (c : ServerConfig) : Type 0 where
  pub serves : c.sections ≢ []
  pub admits : c.clients ≢ []
  pub routable : All IsRoutable c.sections
  pub places : Apart SamePlace c.sections
  pub names : Apart SameName c.clients
  pub credentials : All (λ d. IsCredential c.allow_anonymous d.token) c.clients
  pub anonymous : anonymous_clients c.clients ≤ 1
  pub grants : All (IsGranted c.sections) c.clients
  pub tokens : Apart SameToken c.clients
  pub at : net.SocketAddr
  pub bound : net.parse c.bind ≡ some at
  pub protected : IsProtected net tls_feature c.insecure at c.tls

check_client_ca_iff : (ca : Option (List ℕ)) → (check_client_ca ca ≡ ok tt) ↔ IsAuthority ca
unfolding check_client_ca
check_client_ca_iff none = (λ h. tt, λ h. refl)
check_client_ca_iff (some file) = (λ h. ground arith, λ h. ground arith)

check_tls_iff :
    (tls_feature insecure : Bool) (t : TlsConfig)
    → (check_tls tls_feature insecure t ≡ ok tt) ↔ IsServable tls_feature insecure t
unfolding check_tls
check_tls_iff tls_feature insecure t = (
  λ h. ground (arith, check_client_ca_iff t.client_ca),
  λ h. ground (arith, check_client_ca_iff t.client_ca),
)

module _ (net : SocketAddrs) (tls_feature : Bool) where
  check_exposure_iff :
      (c : ServerConfig) (at : net.SocketAddr)
      → (check_exposure net tls_feature c at ≡ ok tt)
        ↔ IsProtected net tls_feature c.insecure at c.tls
  unfolding check_exposure
  check_exposure_iff c at = elim (Option-cases c.tls) [
    | inl open_ ↦ rw open_ (λ h. ground arith, λ h. ground arith)
    | inr (t, given) ↦ rw given (check_tls_iff tls_feature c.insecure t)
  ]

  given {ℓ} :
      {A : Type ℓ} (xs : List A) (refusal : Refusal)
      → (ensure (not (is_empty xs)) refusal ≡ ok tt) ↔ (xs ≢ [])
  given [] refusal = (λ h e. cc, λ h. absurd (h refl))
  given (x ∷ xs) refusal = (λ h e. cc, λ h. refl)

  address_iff :
      (c : ServerConfig) (at : net.SocketAddr)
      → (address net tls_feature c ≡ ok at) ↔ (net.parse c.bind ≡ some at)
  unfolding address
  address_iff c at = elim (Option-cases (net.parse c.bind)) [
    | inl bad ↦ rw bad (λ h. cc, λ h. cc)
    | inr (there, good) ↦ rw good (λ h. cc, λ h. cc)
  ]

  validate-IsValid :
      (c : ServerConfig) → validate net tls_feature c ≡ ok tt → IsValid net tls_feature c
  unfolding validate
  validate-IsValid c h =
      let (_, serves, h) = >>=-eq-ok (ensure (not (is_empty c.sections)) no_sections) _ h in
      let (_, admits, h) = >>=-eq-ok (ensure (not (is_empty c.clients)) no_clients) _ h in
      let (_, sections, h) = >>=-eq-ok (check_sections [] c.sections) _ h in
      let (_, clients, h) =
        >>=-eq-ok (check_clients c.sections c.allow_anonymous [] 0 c.clients) _ h in
      let (_, tokens, h) = >>=-eq-ok (check_tokens c.clients) _ h in
      let (at, bound, exposure) = >>=-eq-ok (address net tls_feature c) _ h in
      let (routable, places) = (check_sections_iff c.sections).0 sections in
      let (names, credentials, anonymous, grants) =
        (check_clients_iff c.sections c.allow_anonymous c.clients).0 clients in
      record {
        serves = (given c.sections no_sections).0 serves;
        admits = (given c.clients no_clients).0 admits;
        routable = routable;
        places = places;
        names = names;
        credentials = credentials;
        anonymous = anonymous;
        grants = grants;
        tokens = (check_tokens_iff c.clients).0 tokens;
        at = at;
        bound = (address_iff c at).0 bound;
        protected = (check_exposure_iff c at).0 exposure;
      }

  IsValid-validate :
      (c : ServerConfig) → IsValid net tls_feature c → validate net tls_feature c ≡ ok tt
  unfolding validate
  IsValid-validate c v =
      >>=-intro (ensure (not (is_empty c.sections)) no_sections) _ tt
        ((given c.sections no_sections).1 v.serves)
        (>>=-intro (ensure (not (is_empty c.clients)) no_clients) _ tt
          ((given c.clients no_clients).1 v.admits)
          (>>=-intro (check_sections [] c.sections) _ tt
            ((check_sections_iff c.sections).1 (v.routable, v.places))
            (>>=-intro (check_clients c.sections c.allow_anonymous [] 0 c.clients) _ tt
              ((check_clients_iff c.sections c.allow_anonymous c.clients).1
                (v.names, v.credentials, v.anonymous, v.grants))
              (>>=-intro (check_tokens c.clients) _ tt ((check_tokens_iff c.clients).1 v.tokens) (
                >>=-intro (address net tls_feature c) _ v.at ((address_iff c v.at).1 v.bound)
                  ((check_exposure_iff c v.at).1 v.protected))))))

  -- `validate` lets a configuration pass exactly where it serves something to somebody, every section
  -- can be routed to and has a place of its own, every client has a name and a token of its own (one
  -- at most has no token, and only where that is allowed) and grants that lead somewhere, and the
  -- socket is on the loopback interface, behind TLS, or said to be insecure.
  pub validate_iff-IsValid :
      (c : ServerConfig) → (validate net tls_feature c ≡ ok tt) ↔ IsValid net tls_feature c
  validate_iff-IsValid c = (validate-IsValid c, IsValid-validate c)
