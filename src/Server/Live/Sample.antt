-- ===== src/Server/Live/Sample.antt =====
-- A cell and a server to run the definitions on: at each moment after the first the same document is
-- installed once more, and the generation follows a moment later.
use dynamic_config_remote.Common.{
  ℕ, zero, suc, ◌-◌, true, [], ◌∷◌, none, some, Text, text, ok, arith,
}
use dynamic_config_remote.Server.Auth.{Principal}
use dynamic_config_remote.Server.Document.{Json, string, object, no_entries, entry}
use dynamic_config_remote.Server.Live.{Cells, Section, Server}
use dynamic_config_remote.Server.Live.Coherent.{Installs}

abbrev pub cells : Cells
cells = record {
  Dynamic = Json;
  current = λ d t. elim t [ zero ↦ none | suc u ↦ some d ];
  generation = λ d t. t - 1;
  Status = ℕ;
  status = λ d t. t - 1;
  status_generation = λ s. s;
  is_healthy = λ s. true;
  Error = Text;
  kind = λ e. e;
  path = λ e. [];
  Report = Text;
  check = λ d t. ok (text "clean");
  Explanation = Text;
  explain = λ d path t. ok (text "***");
  redacted = λ e. e;
}

pub installs : Installs cells
installs = record { number = λ d t. t; lags = λ d t. omega arith; grows = λ d t u h. h }

abbrev pub served : Json
served = object (entry (text "host") (string (text "db")) no_entries)

abbrev pub billing : Section cells
billing = record { application = text "billing"; profile = text "prod"; config = served }

abbrev pub pod : Principal
pod = record { name = text "billing-pod"; applications = text "billing" ∷ text "gone" ∷ [] }

abbrev pub server : Server cells
server = record {
  sections = billing ∷ [];
  authenticator = record {
    clients = (record { secret = text "abcdef" }, pod) ∷ [];
    anonymous = none;
    kubernetes = none;
  };
  audit = [];
  max_streams = 1;
  streams = 0;
}
