-- ===== src/Server/Config.antt =====
-- dynamic-config-server/src/config/{mod,refusal,validate}.rs: a server's configuration, and what it
-- refuses to start with.
pub mod Sections
pub mod Clients
pub mod Tokens
pub mod Valid
mod Tests
use dynamic_config_remote.Common.{
  ℕ, ◌+◌, Bool, true, false, not, ◌&&◌, ◌||◌, List, [], ◌∷◌, Option, none, some, Text, text,
  text_eq, any, is_some, is_empty, trim, ltb, leb, if◌then◌else◌, Result, ok, err, ◌>>=◌, ensure,
  ok_or,
}
use dynamic_config_remote.Server.Auth.{Token, token_len, same_as, min_token_len}
use dynamic_config_remote.Server.Names.{is_name}

pub record SectionConfig : Type 0 where
  pub application : Text
  pub profile : Text
  pub files : List Text
  pub env_prefix : Option Text
  pub whole_document : Bool

pub record TlsConfig : Type 0 where
  pub certificate : Text
  pub key : Text
  pub client_ca : Option Text
  pub crl : Option Text

pub record ClientConfig : Type 0 where
  pub name : Text
  pub token : Option Token
  pub applications : List Text

pub record KubernetesGrant : Type 0 where
  pub service_account : Text
  pub applications : List Text

pub record KubernetesAuthConfig : Type 0 where
  pub audience : Option Text
  pub grants : List KubernetesGrant

pub record ServerConfig : Type 0 where
  pub bind : Text
  pub insecure : Bool
  pub tls : Option TlsConfig
  pub allow_anonymous : Bool
  pub watch_debounce_ms : ℕ
  pub max_stream_connections : ℕ
  pub sections : List SectionConfig
  pub clients : List ClientConfig
  pub kubernetes : Option KubernetesAuthConfig

unfoldable pub default_config : ServerConfig
default_config = record {
  bind = text "127.0.0.1:8080";
  insecure = false;
  tls = none;
  allow_anonymous = false;
  watch_debounce_ms = 250;
  max_stream_connections = 4096;
  sections = [];
  clients = [];
  kubernetes = none;
}

pub data Refusal : Type 0 where
  no_sections no_clients : Refusal
  duplicate_section : Text → Text → Refusal
  unroutable_section : Text → Text → Text → Refusal
  duplicate_client : Text → Refusal
  duplicate_token : Refusal
  weak_token : Text → Refusal
  anonymous_not_allowed : Text → Refusal
  several_anonymous_clients : Refusal
  unserved_grant : Text → Text → Refusal
  exposed_bind : Text → Refusal
  kubernetes_auth : Text → Refusal
  unparsable_bind : Text → Refusal
  tls_unsupported insecure_with_tls : Refusal
  tls_path_missing : Text → Refusal
  revocation_unsupported : Refusal

-- `seen.contains(&pair)`, the newest first.
unfoldable pub seen_pair : SectionConfig → List SectionConfig → Bool
seen_pair s seen =
    any (λ t. text_eq t.application s.application && text_eq t.profile s.profile) seen

-- The loop over the sections.
unfoldable pub check_sections : List SectionConfig → List SectionConfig → Result (Unit {0}) Refusal
unfolding seen_pair
check_sections seen [] = ok tt
check_sections seen (s ∷ sections) = do
  _ ←
      ensure (is_name s.application)
        (unroutable_section s.application s.profile (text "application"))
  _ ← ensure (is_name s.profile) (unroutable_section s.application s.profile (text "profile"))
  _ ← ensure (not (seen_pair s seen)) (duplicate_section s.application s.profile)
  check_sections (s ∷ seen) sections

unfoldable pub is_served : List SectionConfig → Text → Bool
is_served sections application = any (λ s. text_eq s.application application) sections

unfoldable pub check_grants : List SectionConfig → Text → List Text → Result (Unit {0}) Refusal
unfolding is_served
check_grants sections client [] = ok tt
check_grants sections client (application ∷ applications) = do
  _ ← ensure (is_served sections application) (unserved_grant client application)
  check_grants sections client applications

-- The test of one client's token; the number is of the anonymous clients before it.
unfoldable pub check_token : Bool → ℕ → ClientConfig → Result ℕ Refusal
check_token allow_anonymous anonymous c = elim c.token [
  | none ↦ do
    _ ← ensure allow_anonymous (anonymous_not_allowed c.name)
    _ ← ensure (leb (anonymous + 1) 1) several_anonymous_clients
    ok (anonymous + 1)
  | some token ↦ do
    _ ← ensure (leb min_token_len (token_len token)) (weak_token c.name)
    ok anonymous
]

-- The first loop over the clients.
unfoldable pub check_clients :
    List SectionConfig → Bool → List Text → ℕ → List ClientConfig → Result (Unit {0}) Refusal
unfolding check_token check_grants
check_clients sections allow names anonymous [] = ok tt
check_clients sections allow names anonymous (c ∷ clients) = do
  _ ← ensure (not (any (λ name. text_eq name c.name) names)) (duplicate_client c.name)
  anonymous' ← check_token allow anonymous c
  _ ← check_grants sections c.name c.applications
  check_clients sections allow (c.name ∷ names) anonymous' clients

-- Whether a later client has this token.
unfoldable pub shares_token : Token → List ClientConfig → Bool
shares_token token [] = false
shares_token token (other ∷ clients) = elim other.token [
  | none ↦ shares_token token clients
  | some it ↦ same_as token it || shares_token token clients
]

-- The second loop over the clients.
unfoldable pub check_tokens : List ClientConfig → Result (Unit {0}) Refusal
unfolding shares_token
check_tokens [] = ok tt
check_tokens (c ∷ clients) = elim c.token [
  | none ↦ check_tokens clients
  | some token ↦ do
    _ ← ensure (not (shares_token token clients)) duplicate_token
    check_tokens clients
]

abbrev pub is_blank : Text → Bool
is_blank t = is_empty (trim t)

unfoldable pub check_client_ca : Option Text → Result (Unit {0}) Refusal
check_client_ca none = ok tt
check_client_ca (some it) = ensure (not (is_blank it)) (tls_path_missing (text "client_ca"))

-- What `[server.tls]` may say, in a build that has TLS or has not.
unfoldable pub check_tls : Bool → Bool → TlsConfig → Result (Unit {0}) Refusal
unfolding check_client_ca
check_tls tls_feature insecure t = do
  _ ← ensure tls_feature tls_unsupported
  _ ← ensure (not (is_some t.crl)) revocation_unsupported
  _ ← ensure (not (is_blank t.certificate)) (tls_path_missing (text "certificate"))
  _ ← ensure (not (is_blank t.key)) (tls_path_missing (text "key"))
  _ ← check_client_ca t.client_ca
  ensure (not insecure) insecure_with_tls

-- The standard library's socket addresses: `parse`, and `ip().is_loopback()`.
pub record SocketAddrs : Type 1 where
  pub SocketAddr : Type 0
  pub parse : Text → Option SocketAddr
  pub is_loopback : SocketAddr → Bool

module _ (net : SocketAddrs) (tls_feature : Bool) where
  open net use {SocketAddr}

  unfoldable pub address : ServerConfig → Result SocketAddr Refusal
  address c = ok_or (net.parse c.bind) (unparsable_bind c.bind)

  unfoldable pub check_exposure : ServerConfig → SocketAddr → Result (Unit {0}) Refusal
  unfolding check_tls
  check_exposure c at = elim c.tls [
    | some t ↦ check_tls tls_feature c.insecure t
    | none ↦ ensure (net.is_loopback at || c.insecure) (exposed_bind c.bind)
  ]

  unfoldable pub validate : ServerConfig → Result (Unit {0}) Refusal
  unfolding check_sections check_clients check_tokens address check_exposure
  validate c = do
    _ ← ensure (not (is_empty c.sections)) no_sections
    _ ← ensure (not (is_empty c.clients)) no_clients
    _ ← check_sections [] c.sections
    _ ← check_clients c.sections c.allow_anonymous [] 0 c.clients
    _ ← check_tokens c.clients
    at ← address c
    check_exposure c at
