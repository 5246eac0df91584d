-- ===== src/Server/Start/Tests.antt =====
-- Starting a server, and the theorem at a concrete input.
use dynamic_config_remote.Common.{
  ◌≡◌, refl, Bool, true, false, [], ◌∷◌, Option, none, some, Text, text, text_eq, is_digit,
  utf8_len, split_once, eq_ignore_ascii_case, trim_start, All, ok, err, if◌then◌else◌, arith,
}
use dynamic_config_remote.Server.Auth.{Token, token_len, same_as, bearer, authenticate}
use dynamic_config_remote.Server.Names.{is_name}
use dynamic_config_remote.Server.Config.{
  SectionConfig, ClientConfig, ServerConfig, default_config, no_clients, validate,
}
use dynamic_config_remote.Server.Live.{Section, Server}
use dynamic_config_remote.Server.Live.Sample.{cells, served}
use dynamic_config_remote.Server.Start.{System, principal_of, roster_of, refused, start_with}
use dynamic_config_remote.Server.Start.Roster.{IsTokenText, start_with_knows}

abbrev system : System cells
system = record {
  net = record {
    SocketAddr = Bool;
    parse = λ bind. if text_eq bind (text "127.0.0.1:8080") then some true else none;
    is_loopback = λ at. at;
  };
  tls_feature = false;
  kubernetes_feature = false;
  debug = λ t. t;
  TlsError = Text;
  load_tls = λ t. none;
  LoadError = Text;
  init = λ s. ok served;
  WatchError = Text;
  watch = λ d debounce. none;
  in_cluster = λ audience grants. err [];
}

abbrev section : Text → SectionConfig
section profile = record {
  application = text "billing";
  profile = profile;
  files = [];
  env_prefix = none;
  whole_document = true;
}

abbrev good : Text
good = text "0123456789abcdef0123456789abcdef"

abbrev client : Text → Option Token → ClientConfig
client name token = record { name = name; token = token; applications = text "billing" ∷ [] }

abbrev ops : ClientConfig
ops = client (text "ops") (some (record { secret = text "fedcba9876543210fedcba9876543210" }))

abbrev pod : ClientConfig
pod = client (text "pod") (some (record { secret = good }))

abbrev two : ServerConfig
two = record default_config {
  sections = section (text "prod") ∷ section (text "dev") ∷ [];
  clients = ops ∷ pod ∷ [];
}

abbrev loaded : Text → Section cells
loaded profile = record { application = text "billing"; profile = profile; config = served }

-- The sections are in the order of the map.
abbrev started : Server cells
started = record {
  sections = loaded (text "dev") ∷ loaded (text "prod") ∷ [];
  authenticator = record {
    clients = roster_of (ops ∷ pod ∷ []);
    anonymous = none;
    kubernetes = none;
  };
  audit = [];
  max_streams = 4096;
  streams = 0;
}

two_starts : start_with cells system two ≡ ok started
unfolding start_with validate text default_config is_name is_digit token_len text_eq utf8_len
    same_as
two_starts = refl

nobody_starts : start_with cells system (record two { clients = [] }) ≡ err (refused no_clients)
unfolding start_with validate text default_config is_name is_digit token_len text_eq utf8_len
nobody_starts = refl

the_tokens_are_texts : All (λ c. IsTokenText c.token) (ops ∷ pod ∷ [])
unfolding text
the_tokens_are_texts = ground arith

the_header_carries_the_token : bearer (text "Bearer 0123456789abcdef0123456789abcdef") ≡ some good
unfolding bearer text split_once eq_ignore_ascii_case trim_start text_eq
the_header_carries_the_token = refl

start_with_knows_example :
    authenticate started.authenticator (some (text "Bearer 0123456789abcdef0123456789abcdef"))
    ≡ some (principal_of pod)
start_with_knows_example =
    start_with_knows cells system two started (ops ∷ []) [] pod (record { secret = good })
      (text "Bearer 0123456789abcdef0123456789abcdef") two_starts refl refl the_tokens_are_texts
      the_header_carries_the_token
