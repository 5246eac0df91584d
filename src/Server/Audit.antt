-- ===== src/Server/Audit.antt =====
-- dynamic-config-server/src/audit.rs: one line for each request, which has no place for a value.
pub mod Line
mod Tests
use dynamic_config_remote.Common.{ℕ, ◌++◌, List, [], ◌∷◌, Option, none, some, Text, text, decimal}

pub data Outcome : Type 0 where
  served unauthenticated not_found malformed unavailable : Outcome

unfoldable pub as_str : Outcome → Text
as_str served = text "served"
as_str unauthenticated = text "unauthenticated"
as_str not_found = text "not-found"
as_str malformed = text "malformed"
as_str unavailable = text "unavailable"

pub record AuditEntry : Type 0 where
  pub caller : Option Text
  pub application : Option Text
  pub profile : Option Text
  pub endpoint : Text
  pub outcome : Outcome
  pub generation : Option ℕ

abbrev pub field : Option Text → Text
field none = text "-"
field (some value) = value

abbrev pub numbered : Option ℕ → Text
numbered none = text "-"
numbered (some generation) = decimal generation

abbrev pub written : List Text → Text
written [] = []
written (piece ∷ pieces) = piece ++ written pieces

-- The pieces that `Display` writes, one after the other.
unfoldable pub pieces : AuditEntry → List Text
unfolding as_str
pieces entry =
    text "audit caller="
    ∷ field entry.caller
    ∷ text " application="
    ∷ field entry.application
    ∷ text " profile="
    ∷ field entry.profile
    ∷ text " endpoint="
    ∷ entry.endpoint
    ∷ text " outcome="
    ∷ as_str entry.outcome
    ∷ text " generation="
    ∷ numbered entry.generation
    ∷ []

-- `Display`
unfoldable pub line : AuditEntry → Text
unfolding pieces
line entry = written (pieces entry)
