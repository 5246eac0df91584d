-- ===== src/Store/Documents/Reports.antt =====
-- The report of a collision, and the two limits on an untrusted list of keys.
use dynamic_config_remote.Common.{
  ℕ, ◌≤◌, ◌≡◌, ◌↔◌, refl, ap, true, false, List, [], ◌∷◌, ◌++◌, none, some, Text, text_eq, inl, inr,
  ok, arith, All, Option-cases, is_some, strip_prefix, strip_prefix-eq-some, strip_prefix-append,
}
use dynamic_config_remote.Engine.{Engine}
use dynamic_config_remote.Store.Documents.{
  before_key, nearest, within_key_budget, under_prefix, most_keys,
}

module _ (e : Engine) where
  open e use {Value}

  -- The key has not come up yet.
  abbrev pub Unseen : Text → List (Text × Value) → Type 0
  Unseen key = All (λ p. text_eq p.0 key ≡ false)

  -- Nothing stands at the path.
  abbrev pub Silent : Text → List (Text × Value) → Type 0
  Silent path = All (λ p. is_some (e.get p.1 path) ≡ false)

  before_key-Unseen :
      (key : Text) (parsed : List (Text × Value)) → Unseen key (before_key e key parsed)
  unfolding before_key
  before_key-Unseen key [] = tt
  before_key-Unseen key ((name, value) ∷ parsed) = ground (arith, before_key-Unseen key parsed)

  nearest-Silent :
      (path : Text) (parsed : List (Text × Value))
      → nearest e path parsed ≡ none
      → Silent path parsed
  unfolding nearest
  nearest-Silent path [] h = tt
  nearest-Silent path ((name, value) ∷ parsed) h = ground (arith, nearest-Silent path parsed)

  pub record Nearest (path : Text) (parsed : List (Text × Value)) (name : Text) : Type 0 where
    pub front : List (Text × Value)
    pub value : Value
    pub back : List (Text × Value)
    pub splits : parsed ≡ front ++ (name, value) ∷ back
    pub supplies : is_some (e.get value path) ≡ true
    pub silent : Silent path back

  nearest-Nearest :
      (path : Text) (parsed : List (Text × Value)) (name : Text)
      → nearest e path parsed ≡ some name
      → Nearest path parsed name
  unfolding nearest
  nearest-Nearest path [] name h = cc
  nearest-Nearest path ((first, value) ∷ parsed) name h =
      elim (Option-cases (nearest e path parsed)) [
        | inl missed ↦ record {
          front = [];
          value = value;
          back = parsed;
          splits = ground arith;
          supplies = ground arith;
          silent = nearest-Silent path parsed missed;
        }
        | inr (found, e') ↦
            let later = nearest-Nearest path parsed name (ground arith) in
            record {
              front = (first, value) ∷ later.front;
              value = later.value;
              back = later.back;
              splits = ap (◌∷◌ (first, value)) later.splits;
              supplies = later.supplies;
              silent = later.silent;
            }
      ]

  -- The earlier key that a report names is the last one before the colliding key whose document has
  -- something at the path, and no key before the colliding one is that key itself.
  pub nearest-before_key :
      (path key name : Text) (parsed : List (Text × Value))
      → nearest e path (before_key e key parsed) ≡ some name
      → Nearest path (before_key e key parsed) name × Unseen key (before_key e key parsed)
  nearest-before_key path key name parsed h =
      (nearest-Nearest path _ name h, before_key-Unseen key parsed)

  -- A key list passes exactly up to the budget, and a key passes exactly under the prefix.
  pub limits_iff :
      (matched : ℕ) (key prefix described : Text)
      → ((within_key_budget e matched described ≡ ok tt) ↔ (matched ≤ most_keys))
        × ((under_prefix e key prefix described ≡ ok tt) ↔ ((rest : Text) × (key ≡ prefix ++ rest)))
  unfolding within_key_budget under_prefix
  limits_iff matched key prefix described = (
    (λ h. ground arith, λ h. ground arith),
    (
      λ h. elim (Option-cases (strip_prefix prefix key)) [
        | inl missed ↦ absurd (ground arith)
        | inr (rest, found) ↦ (rest, strip_prefix-eq-some prefix key rest found)
      ],
      λ h. rw (h.1, strip_prefix-append prefix h.0) refl,
    ),
  )
