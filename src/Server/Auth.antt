-- ===== src/Server/Auth.antt =====
-- dynamic-config-server/src/auth.rs: who a caller is, and what it may read.
pub mod Identity
mod Tests
use mathlib.Core.Option
use dynamic_config_remote.Common.{
  ℕ, Bool, true, false, not, ◌&&◌, List, [], ◌∷◌, Option, none, some, Text, text, text_eq, length,
  any, is_some, is_empty, as_bytes, bit_or, bit_xor, split_once, eq_ignore_ascii_case, trim_start,
  ◌==◌, utf8_len, if◌then◌else◌,
}

abbrev pub min_token_len : ℕ
min_token_len = 32

-- `Token(String)`
pub record Token : Type 0 where
  pub secret : Text

-- `Token::len`, in bytes.
unfoldable pub token_len : Token → ℕ
token_len t = utf8_len t.secret

-- The loop of `matches`: `difference |= left ^ right` over the bytes that both have.
unfoldable pub differences : ℕ → List ℕ → List ℕ → ℕ
differences difference (left ∷ configured) (right ∷ presented) =
    differences (bit_or difference (bit_xor left right)) configured presented
differences difference [] presented = difference
differences difference (left ∷ configured) [] = difference

-- `u8::from(a != b)`
abbrev pub unequal : ℕ → ℕ → ℕ
unequal a b = if a == b then 0 else 1

unfoldable pub matches : Token → Text → Bool
unfolding differences
matches t presented =
    let configured = as_bytes t.secret in
    let shown = as_bytes presented in
    differences (unequal (length configured) (length shown)) configured shown == 0

unfoldable pub same_as : Token → Token → Bool
same_as t other = text_eq t.secret other.secret

pub record Principal : Type 0 where
  pub name : Text
  pub applications : List Text

unfoldable pub may_read : Principal → Text → Bool
may_read p application = any (λ granted. text_eq granted application) p.applications

-- The verifier of service accounts is one of the builds' features; what it answers for a token is
-- an argument here, and Server/Kubernetes models it.
pub record Authenticator : Type 0 where
  pub clients : List (Token × Principal)
  pub anonymous : Option Principal
  pub kubernetes : Option (Text → Option Principal)

unfoldable pub bearer : Text → Option Text
bearer header = elim (split_once b' ' header) [
  | none ↦ none
  | some (scheme, rest) ↦
      if not (eq_ignore_ascii_case scheme (text "bearer"))
      then none
      else if is_empty (trim_start rest)
      then none
      else some (trim_start rest)
]

-- The loop of `authenticate` goes on after a hit, and keeps the first.
unfoldable pub roster : Text → Option Principal → List (Token × Principal) → Option Principal
unfolding matches
roster presented found [] = found
roster presented found ((token, principal) ∷ clients) =
    roster presented
      (if matches token presented && not (is_some found) then some principal else found) clients

unfoldable pub review : Authenticator → Text → Option Principal → Option Principal
review a presented (some principal) = some principal
review a presented none = elim a.kubernetes [ none ↦ none | some verify ↦ verify presented ]

unfoldable pub authenticate : Authenticator → Option Text → Option Principal
unfolding bearer roster review
authenticate a none = a.anonymous
authenticate a (some header) = elim (bearer header) [
  | none ↦ none
  | some presented ↦ review a presented (roster presented none a.clients)
]
