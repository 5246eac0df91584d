-- ===== src/Engine.antt =====
-- The crate dynamic-config, whose source is not in this repository: what the stores use of it, as a
-- parameter. An `Error` is made from a message and can be shown; a `Fetched` is a text in a format,
-- with a revision and a lease where the store has them; a `Value` is a parsed document.
pub mod Sample
use dynamic_config_remote.Common.{
  ℕ, ◌≡◌, ◌↔◌, refl, Bool, true, false, Option, none, some, List, [], ◌∷◌, Text, text_eq,
  text_eq_iff, Result, ok, err,
}

pub record Engine : Type 1 where
  pub Error : Type 0
  pub remote : Text → Error
  pub absent : Text → Error
  pub auth : Text → Error
  pub display : Error → Text
  pub Format : Type 0
  pub format_eq : Format → Format → Bool
  pub format_eq_iff : (f g : Format) → (format_eq f g ≡ true) ↔ (f ≡ g)
  pub debug_format : Format → Text
  pub from_key : Text → Option Format
  pub Value : Type 0
  pub parse : Text → Format → Result Value Error
  pub render : Value → Format → Result Text Error
  pub merge : Value → Value → Value
  pub overlapping_paths : Value → Value → List Text
  pub get : Value → Text → Option Value

-- `Fetched` and its builders, with the laws of a builder: each sets its own field and no other.
pub record Documents (e : Engine) : Type 1 where
  pub Revision : Type 0
  pub counter : ℕ → Revision
  pub Lease : Type 0
  pub Fetched : Type 0
  pub fetched : Text → e.Format → Fetched
  pub with_revision : Revision → Fetched → Fetched
  pub with_lease : Lease → Fetched → Fetched
  pub text_of : Fetched → Text
  pub format_of : Fetched → e.Format
  pub revision_of : Fetched → Option Revision
  pub lease_of : Fetched → Option Lease
  pub text-fetched : (t : Text) (f : e.Format) → text_of (fetched t f) ≡ t
  pub format-fetched : (t : Text) (f : e.Format) → format_of (fetched t f) ≡ f
  pub revision-fetched : (t : Text) (f : e.Format) → revision_of (fetched t f) ≡ none
  pub lease-fetched : (t : Text) (f : e.Format) → lease_of (fetched t f) ≡ none
  pub text-with_revision : (r : Revision) (x : Fetched) → text_of (with_revision r x) ≡ text_of x
  pub format-with_revision :
      (r : Revision) (x : Fetched) → format_of (with_revision r x) ≡ format_of x
  pub revision-with_revision :
      (r : Revision) (x : Fetched) → revision_of (with_revision r x) ≡ some r
  pub lease-with_revision : (r : Revision) (x : Fetched) → lease_of (with_revision r x) ≡ lease_of x
  pub text-with_lease : (l : Lease) (x : Fetched) → text_of (with_lease l x) ≡ text_of x
  pub format-with_lease : (l : Lease) (x : Fetched) → format_of (with_lease l x) ≡ format_of x
  pub revision-with_lease : (l : Lease) (x : Fetched) → revision_of (with_lease l x) ≡ revision_of x
  pub lease-with_lease : (l : Lease) (x : Fetched) → lease_of (with_lease l x) ≡ some l
