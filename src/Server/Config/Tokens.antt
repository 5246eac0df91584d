-- ===== src/Server/Config/Tokens.antt =====
-- The second loop over the clients decides that no two present the same token.
use dynamic_config_remote.Common.{
  ◌≡◌, ◌↔◌, refl, ap, true, false, List, [], ◌∷◌, Option, none, some, text_eq_iff, All, Apart,
  arith, ok, Option-cases, inl, inr,
}
use dynamic_config_remote.Server.Auth.{Token, same_as}
use dynamic_config_remote.Server.Config.{ClientConfig, shares_token, check_tokens}

-- Both are the same token.
abbrev Shared : Option Token → Option Token → Type 0
Shared this that = (token : Token) × (this ≡ some token) × (that ≡ some token)

abbrev pub SameToken : ClientConfig → ClientConfig → Type 0
SameToken c d = Shared c.token d.token

same_as_iff : (t u : Token) → (same_as t u ≡ true) ↔ (t ≡ u)
unfolding same_as
same_as_iff t u = (
  λ h. ap (λ s. record { secret = s }) ((text_eq_iff t.secret u.secret).0 h),
  λ h. (text_eq_iff t.secret u.secret).1 (ap (λ v. v.secret) h),
)

abbrev Bears : Token → ClientConfig → Type 0
Bears token c = c.token ≡ some token

shares_token_iff :
    (token : Token) (clients : List ClientConfig)
    → (shares_token token clients ≡ false) ↔ All (λ c. Bears token c → ⊥) clients
unfolding shares_token
shares_token_iff token [] = (λ h. tt, λ h. refl)
shares_token_iff token (other ∷ clients) = elim (Option-cases other.token) [
  | inl without ↦ rw without (
    λ h. ground (arith, shares_token_iff token clients),
    λ h. ground (arith, shares_token_iff token clients),
  )
  | inr (it, has) ↦ rw has (
    λ h. ground (arith, shares_token_iff token clients, same_as_iff token it),
    λ h. ground (arith, shares_token_iff token clients, same_as_iff token it),
  )
]

Shared-iff :
    (token : Token) (clients : List ClientConfig)
    → All (λ d. Bears token d → ⊥) clients ↔ All (λ d. Shared (some token) d.token → ⊥) clients
Shared-iff token [] = (λ h. tt, λ h. tt)
Shared-iff token (d ∷ clients) = (
  λ (h, hs). (λ (t, l, r). h (cc), (Shared-iff token clients).0 hs),
  λ (h, hs). (λ bears. h (token, refl, bears), (Shared-iff token clients).1 hs),
)

none-Shared : (clients : List ClientConfig) → All (λ d. Shared none d.token → ⊥) clients
none-Shared [] = tt
none-Shared (d ∷ clients) = (λ (t, l, r). cc, none-Shared clients)

pub check_tokens_iff :
    (clients : List ClientConfig) → (check_tokens clients ≡ ok tt) ↔ Apart SameToken clients
unfolding check_tokens
check_tokens_iff [] = (λ h. tt, λ h. refl)
check_tokens_iff (c ∷ clients) = elim (Option-cases c.token) [
  | inl without ↦ rw without (
    λ h. (none-Shared clients, (check_tokens_iff clients).0 h),
    λ (_, apart). (check_tokens_iff clients).1 apart,
  )
  | inr (token, has) ↦ rw has (
    λ h.
        ground (
          arith,
          check_tokens_iff clients,
          Shared-iff token clients,
          shares_token_iff token clients,
        ),
    λ h.
        ground (
          arith,
          check_tokens_iff clients,
          Shared-iff token clients,
          shares_token_iff token clients,
        ),
  )
]
