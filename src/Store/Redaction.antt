-- ===== src/Store/Redaction.antt =====
-- dynamic-config-store-core/src/lib.rs: a store's URL without its credentials.
pub mod Secrecy
mod Tests
use dynamic_config_remote.Common.{
  ℕ, Bool, List, [], ◌∷◌, ◌++◌, Option, none, some, Text, text, split_at_text, split_once,
  rsplit_once, split, join, map,
}

-- What an authority with no colon means.
pub data LoneAuthority : Type 0 where
  secret username : LoneAuthority

abbrev pub scheme_mark : Text
scheme_mark = b':' ∷ b'/' ∷ b'/' ∷ []

abbrev pub stars : Text
stars = b'*' ∷ b'*' ∷ b'*' ∷ []

-- `{scheme}://{shown}@{tail}`
abbrev pub rejoined : Text → Text → Text → Text
rejoined scheme shown tail = scheme ++ (scheme_mark ++ (shown ++ b'@' ∷ tail))

unfoldable pub hidden : LoneAuthority → Text → Text
hidden lone authority = elim (split_once b':' authority) [
  | some p ↦ p.0 ++ b':' ∷ stars
  | none ↦ elim lone [ secret ↦ stars | username ↦ authority ++ b':' ∷ stars ]
]

unfoldable pub redacted : LoneAuthority → Text → Text
unfolding hidden
redacted lone url = elim (split_at_text scheme_mark url) [
  | none ↦ url
  | some (scheme, rest) ↦ elim (rsplit_once b'@' rest) [
    | none ↦ url
    | some (authority, tail) ↦ rejoined scheme (hidden lone authority) tail
  ]
]

unfoldable pub redacted_list : LoneAuthority → Text → Text
unfolding redacted
redacted_list lone urls = join (b',' ∷ []) (map (redacted lone) (split b',' urls))
