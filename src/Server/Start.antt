-- ===== src/Server/Start.antt =====
-- dynamic-config-server/src/server.rs, `start_with`: from a configuration to a server.
--
-- Loading the certificate, loading a section with its watch, and finding the cluster are input and
-- output, and arguments here.
pub mod Roster
mod Tests
use dynamic_config_remote.Common.{
  ℕ, Bool, true, false, ◌&&◌, ◌||◌, not, List, [], ◌∷◌, ◌++◌, Option, none, some, Text, text,
  text_eq, split_once, is_empty, ltb, ◌==◌, if◌then◌else◌, Result, ok, err, ◌>>=◌, ensure, ok_or,
  map_err,
}
use dynamic_config_remote.Server.Auth.{Token, Principal, Authenticator}
use dynamic_config_remote.Server.Config.{
  SectionConfig, TlsConfig, ClientConfig, KubernetesGrant, KubernetesAuthConfig, ServerConfig,
  Refusal, kubernetes_auth, SocketAddrs, address, validate,
}
use dynamic_config_remote.Server.Live.{Cells, Section, Server}

abbrev pub principal_of : ClientConfig → Principal
principal_of c = record { name = c.name; applications = c.applications }

-- The loop over the clients: those with a token, in order.
unfoldable pub roster_of : List ClientConfig → List (Token × Principal)
roster_of [] = []
roster_of (c ∷ clients) = elim c.token [
  | none ↦ roster_of clients
  | some token ↦ (token, principal_of c) ∷ roster_of clients
]

-- The same loop: the last one without a token.
unfoldable pub anonymous_of : Option Principal → List ClientConfig → Option Principal
anonymous_of anonymous [] = anonymous
anonymous_of anonymous (c ∷ clients) = elim c.token [
  | none ↦ anonymous_of (some (principal_of c)) clients
  | some token ↦ anonymous_of anonymous clients
]

-- `str`'s order is that of the scalar values; a key of the map is a pair.
unfoldable pub text_lt : Text → Text → Bool
text_lt [] [] = false
text_lt [] (d ∷ t) = true
text_lt (c ∷ s) [] = false
text_lt (c ∷ s) (d ∷ t) = ltb c d || (c == d && text_lt s t)

module _ (cells : Cells) where
  unfoldable pub same_key : Section cells → Section cells → Bool
  same_key s t = text_eq s.application t.application && text_eq s.profile t.profile

  unfoldable pub key_lt : Section cells → Section cells → Bool
  unfolding text_lt
  key_lt s t =
      text_lt s.application t.application
      || (text_eq s.application t.application && text_lt s.profile t.profile)

  -- `BTreeMap::insert`
  unfoldable pub insert_section : Section cells → List (Section cells) → List (Section cells)
  unfolding same_key key_lt
  insert_section s [] = s ∷ []
  insert_section s (t ∷ sections) =
      let rest = insert_section s sections in
      if same_key s t then s ∷ sections else if key_lt s t then s ∷ t ∷ sections else t ∷ rest

-- The loop over the grants of service accounts; `debug` is the `{:?}` of a text.
unfoldable pub account_grants :
    (Text → Text) → List KubernetesGrant → Result (List (Text × Principal)) Refusal
account_grants debug [] = ok []
account_grants debug (g ∷ grants) = elim (split_once b':' g.service_account) [
  | none ↦ err (
      kubernetes_auth (
        text "service_account "
        ++ (debug g.service_account ++ text " — the form is <namespace>:<serviceaccount>")))
  | some (namespace, account) ↦
      if is_empty namespace || is_empty account
      then err (
          kubernetes_auth
            (text "service_account " ++ (debug g.service_account ++ text " names an empty half")))
      else do
        rest ← account_grants debug grants
        ok (
            (
              g.service_account,
              record { name = text "k8s:" ++ g.service_account; applications = g.applications },
            )
            ∷ rest)
]

-- What starting asks of the system: the certificate and key, the first load of a section and its
-- watch, and the cluster's API server.
pub record System (cells : Cells) : Type 1 where
  pub net : SocketAddrs
  pub tls_feature : Bool
  pub kubernetes_feature : Bool
  pub debug : Text → Text
  pub TlsError : Type 0
  pub load_tls : TlsConfig → Option TlsError
  pub LoadError : Type 0
  pub init : SectionConfig → Result cells.Dynamic LoadError
  pub WatchError : Type 0
  pub watch : cells.Dynamic → ℕ → Option WatchError
  pub in_cluster : Option Text → List (Text × Principal) → Result (Text → Option Principal) Text

module _ (cells : Cells) (system : System cells) where
  pub data StartupError : Type 0 where
    refused : Refusal → StartupError
    section_error : Text → Text → system.LoadError → StartupError
    watch_error : Text → Text → system.WatchError → StartupError
    tls_error : system.TlsError → StartupError

  -- A debounce of zero turns watching off.
  unfoldable pub load_section : SectionConfig → ℕ → Result (Section cells) StartupError
  load_section s debounce = do
    config ← map_err (section_error s.application s.profile) (system.init s)
    _ ← watched config
    ok (record { application = s.application; profile = s.profile; config = config })
    where
      watched : cells.Dynamic → Result (Unit {0}) StartupError
      watched config = if debounce == 0 then ok tt else elim (system.watch config debounce) [
        | none ↦ ok tt
        | some error ↦ err (watch_error s.application s.profile error)
      ]

  unfoldable pub load_sections :
      ℕ → List SectionConfig → List (Section cells) → Result (List (Section cells)) StartupError
  unfolding load_section insert_section
  load_sections debounce [] sections = ok sections
  load_sections debounce (s ∷ described) sections = do
    loaded ← load_section s debounce
    load_sections debounce described (insert_section cells loaded sections)

  unfoldable pub load_tls : Option TlsConfig → Result (Unit {0}) StartupError
  load_tls none = ok tt
  load_tls (some t) = elim (system.load_tls t) [ none ↦ ok tt | some error ↦ err (tls_error error) ]

  unfoldable pub verifier_of :
      Option KubernetesAuthConfig → Result (Option (Text → Option Principal)) StartupError
  unfolding account_grants
  verifier_of none = ok none
  verifier_of (some kubernetes) = do
    _ ← ensure (not (is_empty kubernetes.grants)) (
        refused (
          kubernetes_auth
            (text "no grants: an auth mode that admits nobody is a typo, not a policy")))
    grants ← map_err refused (account_grants system.debug kubernetes.grants)
    verify ←
        map_err (λ reason. refused (kubernetes_auth reason))
          (system.in_cluster kubernetes.audience grants)
    ok (some verify)

  unfoldable pub start_with : ServerConfig → Result (Server cells) StartupError
  unfolding roster_of anonymous_of load_sections load_tls verifier_of
  start_with c = do
    _ ← map_err refused (validate system.net system.tls_feature c)
    at ← map_err refused (address system.net system.tls_feature c)
    _ ← if system.tls_feature then load_tls c.tls else ok tt
    sections ← load_sections c.watch_debounce_ms c.sections []
    verify ← if system.kubernetes_feature then verifier_of c.kubernetes else ok none
    ok (record {
      sections = sections;
      authenticator = record {
        clients = roster_of c.clients;
        anonymous = anonymous_of none c.clients;
        kubernetes = verify;
      };
      audit = [];
      max_streams = c.max_stream_connections;
      streams = 0;
    })
