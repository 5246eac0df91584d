-- ===== src/Redis/Glob.antt =====
-- What the pattern of a scan matches.
use dynamic_config_remote.Common.{
  ℕ, ◌≡◌, Bool, true, false, ◌&&◌, [], ◌∷◌, ◌++◌, Text, strip_prefix, is_some, ◌==◌, arith,
  Bool-cases, inl, inr,
}
use dynamic_config_remote.Redis.{is_special, globbed}

-- What Redis documents of its glob-style patterns, as far as such a pattern goes: a backslash takes
-- the next character as it is, a `*` at the end matches anything, and a character with no meaning
-- of its own matches itself.
pub record IsGlob (matches : Text → Text → Bool) : Type 0 where
  pub star : (s : Text) → matches (b'*' ∷ []) s ≡ true
  pub escaped : (c d : ℕ) (p s : Text) → matches (b'\\' ∷ c ∷ p) (d ∷ s) ≡ (d == c && matches p s)
  pub escaped_end : (c : ℕ) (p : Text) → matches (b'\\' ∷ c ∷ p) [] ≡ false
  pub plain :
      (c d : ℕ) (p s : Text)
      → is_special c ≡ false
      → matches (c ∷ p) (d ∷ s) ≡ (d == c && matches p s)
  pub plain_end : (c : ℕ) (p : Text) → is_special c ≡ false → matches (c ∷ p) [] ≡ false

-- With the documented meaning of a pattern, the one that a scan asks for matches exactly the keys
-- that begin with the prefix, whatever special characters the prefix holds.
pub globbed_matches :
    (matches : Text → Text → Bool)
    → IsGlob matches
    → (p key : Text) → matches (globbed p ++ b'*' ∷ []) key ≡ is_some (strip_prefix p key)
unfolding globbed strip_prefix
globbed_matches matches g [] key = g.star key
globbed_matches matches g (c ∷ p) [] = elim (Bool-cases (is_special c)) [
  | inl special ↦ rw (globbed, special) (g.escaped_end c (globbed p ++ b'*' ∷ []))
  | inr usual ↦ rw (globbed, usual) (g.plain_end c (globbed p ++ b'*' ∷ []) usual)
]
globbed_matches matches g (c ∷ p) (d ∷ key) =
    let later = globbed_matches matches g p key in
    elim (Bool-cases (is_special c)) [
      | inl special ↦
          rw (globbed, special, g.escaped c d (globbed p ++ b'*' ∷ []) key, later) (ground arith)
      | inr usual ↦
          rw (globbed, usual, g.plain c d (globbed p ++ b'*' ∷ []) key usual, later) (ground arith)
    ]
