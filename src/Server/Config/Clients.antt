-- ===== src/Server/Config/Clients.antt =====
-- The loops over the clients decide that each has a credential of its own and grants that lead
-- somewhere.
use dynamic_config_remote.Common.{
  ℕ, ◌+◌, ◌≤◌, ◌≡◌, ◌↔◌, refl, Bool, true, not, List, [], ◌∷◌, Option, none, some, Text, text_eq,
  text_eq_iff, any, All, All-unzip, All-zip, Apart, arith, ok, >>=-eq-ok, >>=-intro, ensure_iff,
  subst, ensure, Option-cases, inl, inr,
}
use dynamic_config_remote.Server.Auth.{Token, token_len, min_token_len}
use dynamic_config_remote.Server.Config.{
  duplicate_client, SectionConfig, ClientConfig, is_served, check_grants, check_token,
  check_clients,
}

-- How many of the anonymous clients this one is.
abbrev pub anonymity : Option Token → ℕ
anonymity none = 1
anonymity (some token) = 0

abbrev pub anonymous_clients : List ClientConfig → ℕ
anonymous_clients [] = 0
anonymous_clients (c ∷ clients) = anonymity c.token + anonymous_clients clients

-- A token long enough, or leave to come without one.
abbrev pub IsCredential : Bool → Option Token → Type 0
IsCredential allow none = allow ≡ true
IsCredential allow (some token) = min_token_len ≤ token_len token

abbrev pub IsGranted : List SectionConfig → ClientConfig → Type 0
IsGranted sections c = All (λ application. is_served sections application ≡ true) c.applications

abbrev pub SameName : ClientConfig → ClientConfig → Type 0
SameName c d = c.name ≡ d.name

check_token_iff :
    (allow : Bool) (anonymous : ℕ) (c : ClientConfig) (after : ℕ)
    → anonymous ≤ 1
    → (check_token allow anonymous c ≡ ok after) ↔ (
        IsCredential allow c.token
        × (anonymous + anonymity c.token ≤ 1)
        × (after ≡ anonymous + anonymity c.token))
unfolding check_token
check_token_iff allow anonymous c after few = elim (Option-cases c.token) [
  | inl tokenless ↦ rw tokenless (λ h. ground arith, λ h. ground arith)
  | inr (token, it) ↦ rw it (λ h. ground arith, λ h. ground arith)
]

check_grants_iff :
    (sections : List SectionConfig) (client : Text) (applications : List Text)
    → (check_grants sections client applications ≡ ok tt)
      ↔ All (λ application. is_served sections application ≡ true) applications
unfolding check_grants
check_grants_iff sections client [] = (λ h. tt, λ h. refl)
check_grants_iff sections client (application ∷ applications) = (
  λ h. ground (arith, check_grants_iff sections client applications),
  λ h. ground (arith, check_grants_iff sections client applications),
)

abbrev Unnamed : List Text → ClientConfig → Type 0
Unnamed names c = All (λ name. name ≡ c.name → ⊥) names

Unnamed-iff :
    (names : List Text) (c : ClientConfig)
    → (not (any (λ name. text_eq name c.name) names) ≡ true) ↔ Unnamed names c
Unnamed-iff [] c = (λ h. tt, λ h. refl)
Unnamed-iff (name ∷ names) c = (
  λ h. ground (arith, Unnamed-iff names c, text_eq_iff name c.name),
  λ h. ground (arith, Unnamed-iff names c, text_eq_iff name c.name),
)

-- What one turn of the loop asks for.
check_clients_step :
    (sections : List SectionConfig) (allow : Bool) (names : List Text) (anonymous : ℕ)
    (c : ClientConfig) (clients : List ClientConfig)
    → anonymous ≤ 1
    → (check_clients sections allow names anonymous (c ∷ clients) ≡ ok tt) ↔ (
        Unnamed names c
        × IsCredential allow c.token
        × (anonymous + anonymity c.token ≤ 1)
        × IsGranted sections c
        × (check_clients sections allow (c.name ∷ names) (anonymous + anonymity c.token) clients
            ≡ ok tt))
unfolding check_clients
check_clients_step sections allow names anonymous c clients few = (
  λ h.
      let (_, fresh, h') =
        >>=-eq-ok (ensure (not (any (λ name. text_eq name c.name) names)) (duplicate_client c.name))
          _ h in
      let (after, fine, h'') = >>=-eq-ok (check_token allow anonymous c) _ h' in
      let (_, granted, later) = >>=-eq-ok (check_grants sections c.name c.applications) _ h'' in
      let (credential, still, e) = (check_token_iff allow anonymous c after few).0 fine in
      (
        (Unnamed-iff names c).0 ((ensure_iff _ _).0 fresh),
        credential,
        still,
        (check_grants_iff sections c.name c.applications).0 granted,
        subst (λ n. check_clients sections allow (c.name ∷ names) n clients ≡ ok tt) e later,
      ),
  λ (fresh, credential, still, granted, later). rw ((Unnamed-iff names c).1 fresh) (
      >>=-intro (check_token allow anonymous c) _ _
        ((check_token_iff allow anonymous c _ few).1 (credential, still, refl))
        (rw ((check_grants_iff sections c.name c.applications).1 granted) later)),
)

clients_sound :
    (sections : List SectionConfig) (allow : Bool) (names : List Text) (anonymous : ℕ)
    (clients : List ClientConfig)
    → anonymous ≤ 1
    → check_clients sections allow names anonymous clients ≡ ok tt
    → All (Unnamed names) clients
      × Apart SameName clients
      × All (λ c. IsCredential allow c.token) clients
      × (anonymous + anonymous_clients clients ≤ 1)
      × All (IsGranted sections) clients
clients_sound sections allow names anonymous [] few h = (tt, tt, tt, omega arith, tt)
clients_sound sections allow names anonymous (c ∷ clients) few h =
    let (fresh, credential, still, granted, later) =
      (check_clients_step sections allow names anonymous c clients few).0 h in
    let (us, apart, credentials, few', grants) =
      clients_sound sections allow (c.name ∷ names) (anonymous + anonymity c.token) clients still
        later in
    let (apart_c, us') = All-unzip (λ d. SameName c d → ⊥) (Unnamed names) clients us in
    ((fresh, us'), (apart_c, apart), (credential, credentials), omega arith, (granted, grants))

clients_complete :
    (sections : List SectionConfig) (allow : Bool) (names : List Text) (anonymous : ℕ)
    (clients : List ClientConfig)
    → anonymous ≤ 1
    → All (Unnamed names) clients
    → Apart SameName clients
    → All (λ c. IsCredential allow c.token) clients
    → anonymous + anonymous_clients clients ≤ 1
    → All (IsGranted sections) clients
    → check_clients sections allow names anonymous clients ≡ ok tt
unfolding check_clients
clients_complete sections allow names anonymous [] few us apart credentials total grants = refl
clients_complete sections allow names anonymous (c ∷ clients) few (u, us) (apart_c, apart)
      (credential, credentials) total (granted, grants) =
    let still : anonymous + anonymity c.token ≤ 1 = omega arith in
    (check_clients_step sections allow names anonymous c clients few).1 (
      u,
      credential,
      still,
      granted,
      clients_complete sections allow (c.name ∷ names) (anonymous + anonymity c.token) clients still
          (All-zip (λ d. SameName c d → ⊥) (Unnamed names) clients apart_c us) apart credentials
          (omega arith) grants,
    )

All-Unnamed : (clients : List ClientConfig) → All (Unnamed []) clients
All-Unnamed [] = tt
All-Unnamed (c ∷ clients) = (tt, All-Unnamed clients)

-- Every client has a name of its own, a credential, and grants that a section serves; at most one
-- is anonymous.
pub check_clients_iff :
    (sections : List SectionConfig) (allow : Bool) (clients : List ClientConfig)
    → (check_clients sections allow [] 0 clients ≡ ok tt) ↔ (
        Apart SameName clients
        × All (λ c. IsCredential allow c.token) clients
        × (anonymous_clients clients ≤ 1)
        × All (IsGranted sections) clients)
check_clients_iff sections allow clients = (
  λ h.
      let (_, apart, credentials, few, grants) =
        clients_sound sections allow [] 0 clients (omega arith) h in
      (apart, credentials, omega arith, grants),
  λ (apart, credentials, few, grants).
      clients_complete sections allow [] 0 clients (omega arith) (All-Unnamed clients) apart
        credentials (omega arith) grants,
)
