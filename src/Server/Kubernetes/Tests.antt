-- ===== src/Server/Kubernetes/Tests.antt =====
-- The unit tests of kubernetes.rs, and the theorems at concrete inputs.
use dynamic_config_remote.Common.{
  ◌≡◌, refl, ◌++◌, true, List, [], ◌∷◌, Option, none, some, Text, text, text_eq, strip_prefix,
}
use dynamic_config_remote.Server.Auth.{Principal}
use dynamic_config_remote.Server.Kubernetes.{Reply, KubernetesVerifier, review, verify}
use dynamic_config_remote.Server.Kubernetes.Verdicts.{Grants, review-Grants}

abbrev billing : Principal
billing = record { name = text "k8s:prod:billing"; applications = text "billing" ∷ [] }

abbrev grants : List (Text × Principal)
grants = (text "prod:billing", billing) ∷ []

abbrev vouched : Text → Option Reply
vouched username = some (record { authenticated = true; username = some username })

abbrev fresh : KubernetesVerifier
fresh = record { grants = grants; cache = [] }

abbrev after : KubernetesVerifier
after = (verify fresh 7 0 5 (vouched (text "system:serviceaccount:prod:billing"))).0

the_billing_account_is_granted :
    review grants (vouched (text "system:serviceaccount:prod:billing")) ≡ some billing
unfolding review text text_eq strip_prefix
the_billing_account_is_granted = refl

a_user_or_an_ungranted_account_is_nobody :
    (review grants (vouched (text "system:node:prod:billing")) ≡ none)
    × (review grants (vouched (text "system:serviceaccount:prod:other")) ≡ none)
    × (review grants none ≡ none)
unfolding review text text_eq strip_prefix
a_user_or_an_ungranted_account_is_nobody = (refl, refl, refl)

the_first_call_asks :
    verify fresh 7 0 5 (vouched (text "system:serviceaccount:prod:billing"))
    ≡ (after, some billing, true)
unfolding verify review text text_eq strip_prefix
the_first_call_asks = refl

review-Grants_example :
    (subject : Text) × (vouched (text "system:serviceaccount:prod:billing")
      ≡ vouched (text "system:serviceaccount:" ++ subject))
    × Grants subject billing grants
review-Grants_example =
    review-Grants grants (vouched (text "system:serviceaccount:prod:billing")) billing
      the_billing_account_is_granted
