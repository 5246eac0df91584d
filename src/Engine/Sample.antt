-- ===== src/Engine/Sample.antt =====
-- An instance of the interface, for tests: a document is a list of numbers, one for each path that
-- it supplies, and parses unless it holds a zero; a key names the format of its last character.
use dynamic_config_remote.Common.{
  ℕ, refl, true, false, ◌||◌, Option, none, some, List, [], ◌∷◌, ◌++◌, Text, contains_char, Result,
  ok, err, ◌==◌, if◌then◌else◌, ==_iff,
}
use dynamic_config_remote.Engine.{Engine, Documents}

abbrev shared : Text → Text → List Text
shared [] w = []
shared (c ∷ v) w =
    let later = shared v w in elim (contains_char c w) [ true ↦ (c ∷ []) ∷ later | false ↦ later ]

abbrev extension : Text → Option ℕ
extension [] = none
extension (c ∷ []) = if c == b'j' || c == b't' then some c else none
extension (c ∷ d ∷ s) = extension (d ∷ s)

abbrev supplied : Text → Text → Option Text
supplied v [] = none
supplied v (c ∷ path) = elim (contains_char c v) [ true ↦ some (c ∷ []) | false ↦ none ]

abbrev parsed : Text → ℕ → Result Text Text
parsed t f = elim (contains_char 0 t) [ true ↦ err [] | false ↦ ok t ]

abbrev rendered : Text → ℕ → Result Text Text
rendered v f = ok v

abbrev pub sample : Engine
sample = record {
  Error = Text;
  remote = λ t. t;
  absent = λ t. t;
  auth = λ t. t;
  display = λ t. t;
  Format = ℕ;
  format_eq = ◌==◌;
  format_eq_iff = ==_iff;
  debug_format = λ f. f ∷ [];
  from_key = extension;
  Value = Text;
  parse = parsed;
  render = rendered;
  merge = λ v w. v ++ w;
  overlapping_paths = shared;
  get = supplied;
}

pub record Stored : Type 0 where
  pub body : Text
  pub format : ℕ
  pub revision : Option ℕ
  pub lease : Option ℕ

abbrev pub stored : Documents sample
stored = record {
  Revision = ℕ;
  counter = λ n. n;
  Lease = ℕ;
  Fetched = Stored;
  fetched = λ t f. record { body = t; format = f; revision = none; lease = none };
  with_revision = λ r x. record x { revision = some r };
  with_lease = λ l x. record x { lease = some l };
  text_of = λ x. x.body;
  format_of = λ x. x.format;
  revision_of = λ x. x.revision;
  lease_of = λ x. x.lease;
  text-fetched = λ t f. refl;
  format-fetched = λ t f. refl;
  revision-fetched = λ t f. refl;
  lease-fetched = λ t f. refl;
  text-with_revision = λ r x. refl;
  format-with_revision = λ r x. refl;
  revision-with_revision = λ r x. refl;
  lease-with_revision = λ r x. refl;
  text-with_lease = λ l x. refl;
  format-with_lease = λ l x. refl;
  revision-with_lease = λ l x. refl;
  lease-with_lease = λ l x. refl;
}
