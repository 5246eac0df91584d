-- ===== src/Store/Documents/Bounds.antt =====
-- What the checks of a listing ensure where they pass.
use dynamic_config_remote.Common.{
  ℕ, ◌≤◌, ◌≡◌, true, Text, is_some, strip_prefix, ok, ensure_iff, arith,
}
use dynamic_config_remote.Engine.{Engine}
use dynamic_config_remote.Store.Documents.{most_keys, within_key_budget, under_prefix}

module _ (e : Engine) where
  pub under_prefix-eq-ok :
      (key p described : Text)
      → under_prefix e key p described ≡ ok tt
      → is_some (strip_prefix p key) ≡ true
  unfolding under_prefix
  under_prefix-eq-ok key p described h = (ensure_iff _ _).0 h

  pub within_key_budget-eq-ok :
      (n : ℕ) (described : Text) → within_key_budget e n described ≡ ok tt → n ≤ most_keys
  unfolding within_key_budget
  within_key_budget-eq-ok n described h = ground (arith, (ensure_iff _ _).0 h)
