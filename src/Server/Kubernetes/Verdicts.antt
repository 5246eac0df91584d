-- ===== src/Server/Kubernetes/Verdicts.antt =====
-- A verdict is a grant, and is reused for a minute.
use dynamic_config_remote.Common.{
  ℕ, ◌++◌, ◌+◌, ◌<◌, ◌≤◌, ◌≡◌, ◌⊎◌, inl, inr, ap, ◌∙◌, true, false, List, [], ◌∷◌, Option, none,
  some, Text, text, text_eq, text_eq_iff, strip_prefix, strip_prefix-eq-some, Option-cases,
  Bool-cases, arith,
}
use dynamic_config_remote.Server.Auth.{Principal}
use dynamic_config_remote.Server.Kubernetes.{
  cache_ttl, Reply, Verdict, KubernetesVerifier, lookup, insert, grant_of, review, cached, verify,
}

-- A grant of this principal to this service account.
abbrev pub Grants : Text → Principal → List (Text × Principal) → Type 0
Grants subject p [] = ⊥
Grants subject p (g ∷ grants) = ((g.0 ≡ subject) × (g.1 ≡ p)) ⊎ Grants subject p grants

grant_of-Grants :
    (subject : Text) (grants : List (Text × Principal)) (p : Principal)
    → grant_of subject grants ≡ some p
    → Grants subject p grants
unfolding grant_of
grant_of-Grants subject [] p h = cc
grant_of-Grants subject (g ∷ grants) p h = elim (Bool-cases (text_eq g.0 subject)) [
  | inl here ↦ inl ((text_eq_iff g.0 subject).0 here, ground arith)
  | inr there ↦ inr (grant_of-Grants subject grants p (ground arith))
]

-- Whoever a review names has a token that the API server vouches for, is a service account and no
-- user or node, and is granted something under its whole name.
pub review-Grants :
    (grants : List (Text × Principal)) (reply : Option Reply) (p : Principal)
    → review grants reply ≡ some p
    → (subject : Text) × (reply
        ≡ some (record {
          authenticated = true;
          username = some (text "system:serviceaccount:" ++ subject);
        }))
      × Grants subject p grants
unfolding review
review-Grants grants none p h = cc
review-Grants grants (some reply) p h = elim (Bool-cases reply.authenticated) [
  | inr bad ↦ absurd (ground arith)
  | inl good ↦ elim (Option-cases reply.username) [
    | inl nameless ↦ absurd (ground arith)
    | inr (username, named) ↦
        elim (Option-cases (strip_prefix (text "system:serviceaccount:") username)) [
          | inl foreign ↦ absurd (ground arith)
          | inr (subject, account) ↦
              let whole =
                strip_prefix-eq-some (text "system:serviceaccount:") username subject account in
              (
                subject,
                ap (λ b. some (record { authenticated = b; username = reply.username })) good
                    ∙ ap (λ u. some (record { authenticated = true; username = u }))
                        (named ∙ ap some whole),
                grant_of-Grants subject grants p (ground arith),
              )
        ]
  ]
]

lookup-insert :
    (key : ℕ) (verdict : Verdict) (cache : List (ℕ × Verdict))
    → lookup key (insert key verdict cache) ≡ some verdict
unfolding lookup insert
lookup-insert key verdict [] = ground arith
lookup-insert key verdict ((k, old) ∷ cache) = ground (arith, lookup-insert key verdict cache)

-- What a call that asked leaves behind.
asked_leaves :
    (v w : KubernetesVerifier) (key now later : ℕ) (reply : Option Reply)
    (principal : Option Principal)
    → verify v key now later reply ≡ (w, principal, true)
    → (w.grants ≡ v.grants)
      × (lookup key w.cache ≡ some (record { principal = principal; at = later }))
unfolding verify
asked_leaves v w key now later reply principal h = elim (Option-cases (cached v key now)) [
  | inr (verdict, young) ↦ absurd (ground arith)
  | inl unknown ↦
      let found =
        lookup-insert key (record { principal = review v.grants reply; at = later }) v.cache in
      ground arith
]

-- What a review has found is the answer for that token for a minute, whatever the API server would
-- say now, and a minute later the API server is asked again.
pub verify_again :
    (v w : KubernetesVerifier) (key now later now' later' : ℕ) (reply reply' : Option Reply)
    (principal : Option Principal)
    → verify v key now later reply ≡ (w, principal, true)
    → (now' < later + cache_ttl → verify w key now' later' reply' ≡ (w, principal, false))
      × (later + cache_ttl ≤ now'
          → ((verify w key now' later' reply').1 ≡ review v.grants reply')
            × ((verify w key now' later' reply').2 ≡ true))
unfolding verify cached
verify_again v w key now later now' later' reply reply' principal h =
    let (grants, found) = asked_leaves v w key now later reply principal h in
    (λ young. ground arith, λ old. ground arith)
