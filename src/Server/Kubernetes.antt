-- ===== src/Server/Kubernetes.antt =====
-- dynamic-config-server/src/kubernetes.rs: a service account's token, vouched for by the API server.
--
-- The hash of a token and what a review answers are the hasher's and the API server's, and arguments
-- here; instants are nanoseconds.
pub mod Verdicts
mod Tests
use mathlib.Core.Option
use dynamic_config_remote.Common.{
  ℕ, ◌-◌, ◌*◌, ◌^◌, Bool, true, false, not, List, [], ◌∷◌, Option, none, some, Text, text, text_eq,
  strip_prefix, find, ltb, ◌==◌, if◌then◌else◌,
}
use dynamic_config_remote.Server.Auth.{Principal}

abbrev pub cache_ttl : ℕ
cache_ttl = 60 * 10 ^ 9

-- What is read of a `TokenReview`: whether the token is good, and whose it is.
pub record Reply : Type 0 where
  pub authenticated : Bool
  pub username : Option Text

pub record Verdict : Type 0 where
  pub principal : Option Principal
  pub at : ℕ

pub record KubernetesVerifier : Type 0 where
  pub grants : List (Text × Principal)
  pub cache : List (ℕ × Verdict)

-- `HashMap::get` and `HashMap::insert`.
unfoldable pub lookup : ℕ → List (ℕ × Verdict) → Option Verdict
lookup key [] = none
lookup key ((k, verdict) ∷ cache) = if k == key then some verdict else lookup key cache

unfoldable pub insert : ℕ → Verdict → List (ℕ × Verdict) → List (ℕ × Verdict)
insert key verdict [] = (key, verdict) ∷ []
insert key verdict ((k, old) ∷ cache) =
    let rest = insert key verdict cache in
    if k == key then (key, verdict) ∷ cache else (k, old) ∷ rest

unfoldable pub grant_of : Text → List (Text × Principal) → Option Principal
grant_of subject grants = Option.map (λ g. g.1) (find (λ g. text_eq g.0 subject) grants)

-- `review`: nothing where the API server could not be asked.
unfoldable pub review : List (Text × Principal) → Option Reply → Option Principal
unfolding grant_of
review grants none = none
review grants (some reply) = if not reply.authenticated then none else elim reply.username [
  | none ↦ none
  | some username ↦ elim (strip_prefix (text "system:serviceaccount:") username) [
    | none ↦ none
    | some subject ↦ grant_of subject grants
  ]
]

-- A verdict that is young enough to be reused.
unfoldable pub cached : KubernetesVerifier → ℕ → ℕ → Option Verdict
unfolding lookup
cached v key now = elim (lookup key v.cache) [
  | none ↦ none
  | some verdict ↦ if ltb (now - verdict.at) cache_ttl then some verdict else none
]

-- `verify` of a token with this hash; the last part is whether the API server was asked.
unfoldable pub verify :
    KubernetesVerifier → ℕ → ℕ → ℕ → Option Reply → KubernetesVerifier × Option Principal × Bool
unfolding cached review insert
verify v key now later reply = elim (cached v key now) [
  | some verdict ↦ (v, verdict.principal, false)
  | none ↦
      let principal = review v.grants reply in
      (
        record v { cache = insert key (record { principal = principal; at = later }) v.cache },
        principal,
        true,
      )
]
