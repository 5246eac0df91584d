-- ===== src/Store/Credential/Tests.antt =====
-- The unit tests of credential.rs, and the theorems at concrete inputs.
use dynamic_config_remote.Common.{
  ℕ, ◌+◌, ◌*◌, ◌≡◌, refl, [], ◌∷◌, Option, none, some, arith, Result, ok, All,
}
use dynamic_config_remote.Store.Credential.{
  Issued, Cached, new, current, replaced, get, gets, second, refresh_within,
}
use dynamic_config_remote.Store.Credential.Herd.{requests, gets_herd}

-- The largest instant of the tests.
abbrev last : ℕ
last = 1000000 * second

-- An `obtain` that counts up from what it replaces.
abbrev counting : Option ℕ → Option ℕ → Result (Issued ℕ) ℕ
counting ttl none = ok (record { value = 0; ttl = ttl })
counting ttl (some n) = ok (record { value = n + 1; ttl = ttl })

abbrev empty : Cached ℕ
empty = record { held = none; margin = refresh_within }

abbrev holding : Option ℕ → Cached ℕ
holding at = record { held = some (record { value = 7; expires_at = at }); margin = refresh_within }

new_is_empty : new {T = ℕ} ≡ empty
unfolding new
new_is_empty = refl

-- A time to live that is too large to represent is no expiry.
too_large_a_ttl :
    (get last empty 0 0 (counting (some (2 * last)))).cache.held
    ≡ some (record { value = 0; expires_at = none })
unfolding get
too_large_a_ttl = refl

-- Inside the margin the credential is obtained again.
inside_the_margin :
    requests (gets last empty ((0, 0) ∷ (1, 1) ∷ []) (counting (some (30 * second)))) ≡ 2
unfolding gets
inside_the_margin = refl

abbrev stale : Cached ℕ
stale = holding (some (30 * second))

gets_herd_example :
    (requests (gets last stale ((5, 6) ∷ (7, 7) ∷ (8, 8) ∷ []) (counting none)) ≡ 1)
    × All (λ o. o.answer ≡ ok 8) (gets last stale ((5, 6) ∷ (7, 7) ∷ (8, 8) ∷ []) (counting none))
unfolding current replaced
gets_herd_example =
    gets_herd last (counting none) stale (record { value = 8; ttl = none }) 5 6
      ((7, 7) ∷ (8, 8) ∷ []) (omega arith) refl refl (refl, (refl, tt))
