-- ===== src/Store/Redaction/Secrecy.antt =====
-- What the redacted form of a URL shows, and that it shows nothing more.
use dynamic_config_remote.Common.{
  ℕ, ◌≡◌, refl, ap, subst, ◌∙◌, false, [], ◌∷◌, ◌++◌, none, some, Text, inl, inr, split_at_text,
  split_once, rsplit_once, strip_prefix, strip_prefix-eq-some, contains_char, split_once-append,
  split_once-eq-none, no_char_of_split_once, split_once-eq-some, rsplit_once-append,
  rsplit_once-eq-some, no_char_of_split_once, Option-cases, arith,
}
use dynamic_config_remote.Store.Redaction.{
  LoneAuthority, secret, username, scheme_mark, stars, rejoined, hidden, redacted,
}

split_scheme-eq-some :
    (s scheme rest : Text)
    → split_at_text scheme_mark s ≡ some (scheme, rest)
    → s ≡ scheme ++ (scheme_mark ++ rest)
unfolding split_at_text
split_scheme-eq-some [] scheme rest h = ground arith
split_scheme-eq-some (d ∷ s) scheme rest h =
    elim (Option-cases (strip_prefix scheme_mark (d ∷ s))) [
      | inr (r, found) ↦ ground (arith, strip_prefix-eq-some scheme_mark (d ∷ s) r found)
      | inl missed ↦ elim (Option-cases (split_at_text scheme_mark s)) [
        | inl none_left ↦ ground arith
        | inr ((a, b), later) ↦ ground (arith, split_scheme-eq-some s a b later)
      ]
    ]

-- Whether the mark stands in front of `d ∷ a ++ "://"` does not depend on what follows.
no_mark :
    (d : ℕ) (a rest rest' : Text)
    → strip_prefix scheme_mark (d ∷ (a ++ (scheme_mark ++ rest))) ≡ none
    → strip_prefix scheme_mark (d ∷ (a ++ (scheme_mark ++ rest'))) ≡ none
unfolding strip_prefix
no_mark d [] rest rest' h = ground arith
no_mark d (x ∷ []) rest rest' h = ground arith
no_mark d (x ∷ y ∷ a) rest rest' h = ground arith

-- The text before `://` ends at the first place where it stands, so what follows may change.
split_scheme-append :
    (s scheme rest rest' : Text)
    → split_at_text scheme_mark s ≡ some (scheme, rest)
    → split_at_text scheme_mark (scheme ++ (scheme_mark ++ rest')) ≡ some (scheme, rest')
unfolding split_at_text
split_scheme-append [] scheme rest rest' h = ground arith
split_scheme-append (d ∷ s) scheme rest rest' h =
    elim (Option-cases (strip_prefix scheme_mark (d ∷ s))) [
      | inr (r, found) ↦
          let e : [] ≡ scheme = ground arith in
          subst (λ t. split_at_text scheme_mark (t ++ (scheme_mark ++ rest')) ≡ some (t, rest')) e
            (unfold strip_prefix in refl)
      | inl missed ↦ elim (Option-cases (split_at_text scheme_mark s)) [
        | inl none_left ↦ absurd (ground arith)
        | inr ((a, b), later) ↦
            let e : d ∷ a ≡ scheme = ground arith in
            let unmarked = no_mark d a b rest' (rw (← split_scheme-eq-some s a b later) missed) in
            subst (λ t. split_at_text scheme_mark (t ++ (scheme_mark ++ rest')) ≡ some (t, rest')) e
              (rw (unmarked, split_at_text) (rw (split_scheme-append s a b rest' later) refl))
      ]
    ]

redacted_of :
    (lone : LoneAuthority) (url scheme rest authority tail : Text)
    → split_at_text scheme_mark url ≡ some (scheme, rest)
    → rsplit_once b'@' rest ≡ some (authority, tail)
    → redacted lone url ≡ rejoined scheme (hidden lone authority) tail
unfolding redacted
redacted_of lone url scheme rest authority tail h k = rw (h, k, redacted) refl

hidden_pair :
    (lone : LoneAuthority) (user password : Text)
    → contains_char b':' user ≡ false
    → hidden lone (user ++ b':' ∷ password) ≡ user ++ b':' ∷ stars
unfolding hidden
hidden_pair lone user password h = rw (split_once-append b':' user password h, hidden) refl

hidden_lone :
    (authority : Text)
    → split_once b':' authority ≡ none
    → (hidden secret authority ≡ stars) × (hidden username authority ≡ authority ++ b':' ∷ stars)
unfolding hidden
hidden_lone authority h = (rw (h, hidden) refl, rw (h, hidden) refl)

redacted_plain :
    (lone : LoneAuthority) (url : Text)
    → split_at_text scheme_mark url ≡ none
    → redacted lone url ≡ url
unfolding redacted
redacted_plain lone url h = rw (h, redacted) refl

redacted_anonymous :
    (lone : LoneAuthority) (url scheme rest : Text)
    → split_at_text scheme_mark url ≡ some (scheme, rest)
    → rsplit_once b'@' rest ≡ none
    → redacted lone url ≡ url
unfolding redacted
redacted_anonymous lone url scheme rest h k = rw (h, k, redacted) refl

-- Redacting hides everything between the user and the last `@` of a URL, whatever it holds: the
-- form depends on the password in nothing.
pub redacted_password :
    (lone : LoneAuthority) (url scheme user password tail : Text)
    → split_at_text scheme_mark url ≡ some (scheme, (user ++ b':' ∷ password) ++ b'@' ∷ tail)
    → contains_char b':' user ≡ false
    → contains_char b'@' tail ≡ false
    → redacted lone url ≡ rejoined scheme (user ++ b':' ∷ stars) tail
redacted_password lone url scheme user password tail h no_colon no_at =
    redacted_of lone url scheme ((user ++ b':' ∷ password) ++ b'@' ∷ tail) (user ++ b':' ∷ password)
      tail h (rsplit_once-append b'@' (user ++ b':' ∷ password) tail no_at)
    ∙ ap (λ shown. rejoined scheme shown tail) (hidden_pair lone user password no_colon)

-- Where a lone authority is the credential, nothing of it is shown.
pub redacted_token :
    (url scheme token tail : Text)
    → split_at_text scheme_mark url ≡ some (scheme, token ++ b'@' ∷ tail)
    → contains_char b':' token ≡ false
    → contains_char b'@' tail ≡ false
    → redacted secret url ≡ rejoined scheme stars tail
unfolding hidden
redacted_token url scheme token tail h no_colon no_at =
    redacted_of secret url scheme (token ++ b'@' ∷ tail) token tail h
      (rsplit_once-append b'@' token tail no_at)
    ∙ rw (split_once-eq-none b':' token no_colon, hidden) refl

hidden_idempotent :
    (lone : LoneAuthority) (authority : Text)
    → hidden lone (hidden lone authority) ≡ hidden lone authority
hidden_idempotent lone authority = elim (Option-cases (split_once b':' authority)) [
  | inr ((user, password), found) ↦
      let (splits, no_colon) = split_once-eq-some b':' authority user password found in
      rw splits
        (rw (hidden_pair lone user password no_colon) (hidden_pair lone user stars no_colon))
  | inl alone ↦ lone_case lone alone
]
  where
    lone_case :
        (l : LoneAuthority)
        → split_once b':' authority ≡ none
        → hidden l (hidden l authority) ≡ hidden l authority
    lone_case secret alone = rw (hidden_lone authority alone).0 (unfold hidden split_once in refl)
    lone_case username alone =
        rw (hidden_lone authority alone).1
          (hidden_pair username authority stars (no_char_of_split_once b':' authority alone))

-- Redacting what is redacted changes nothing, for every URL.
pub redacted_idempotent :
    (lone : LoneAuthority) (url : Text) → redacted lone (redacted lone url) ≡ redacted lone url
redacted_idempotent lone url = elim (Option-cases (split_at_text scheme_mark url)) [
  | inl no_scheme ↦ ap (redacted lone) (redacted_plain lone url no_scheme)
  | inr ((scheme, rest), found) ↦ elim (Option-cases (rsplit_once b'@' rest)) [
    | inl no_authority ↦
        ap (redacted lone) (redacted_anonymous lone url scheme rest found no_authority)
    | inr ((authority, tail), split_off) ↦
        let form = redacted_of lone url scheme rest authority tail found split_off in
        let (_, no_at) = rsplit_once-eq-some b'@' rest authority tail split_off in
        let again =
          redacted_of lone (rejoined scheme (hidden lone authority) tail) scheme
            (hidden lone authority ++ b'@' ∷ tail) (hidden lone authority) tail
            (split_scheme-append url scheme rest (hidden lone authority ++ b'@' ∷ tail) found)
            (rsplit_once-append b'@' (hidden lone authority) tail no_at) in
        rw form
          (again ∙ ap (λ shown. rejoined scheme shown tail) (hidden_idempotent lone authority))
  ]
]
