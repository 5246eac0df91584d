-- ===== src/Server/Client/Endpoint/Spelling.antt =====
-- What is written of an endpoint is read back as the same endpoint.
use mathlib.Core.List.{append-nil, append_assoc}
use dynamic_config_remote.Common.{
  ℕ, ◌^◌, ◌<◌, ◌≡◌, ◌⊎◌, refl, ap, ◌∙◌, Bool, true, false, not, ◌&&◌, ◌||◌, [], ◌∷◌, ◌++◌, none,
  some, Text, text, split_at_text, split_once-append, split_once-eq-none, rsplit_once,
  rsplit_once-append, rsplit_once-eq-none, strip_prefix, contains_char, contains_char-append,
  contains_char-decimal, parse_unsigned-decimal, trim_end_by, decimal, is_digit, is_empty,
  eq_ignore_ascii_case, text_eq, ◌==◌, if◌then◌else◌, ok, arith, Bool-cases, inl, inr,
}
use dynamic_config_remote.Engine.{Engine}
use dynamic_config_remote.Server.Client.Endpoint.{
  Endpoint, default_port, with_port, parse_port, bracketed_port, split_authority, scheme_of,
  split_path, authority_of, parse,
}

-- A host that a URL can spell: a name, or an IPv6 address without its brackets.
pub record IsSpellable (e : Endpoint) : Type 0 where
  pub first : ℕ
  pub others : Text
  pub host : e.host ≡ first ∷ others
  pub open_bracket : (first == b'[') ≡ false
  pub close_bracket : contains_char b']' e.host ≡ false
  pub slash : contains_char b'/' e.host ≡ false
  pub at_sign : contains_char b'@' e.host ≡ false
  pub port : e.port < 2 ^ 16
  pub prefix : (e.prefix ≡ []) ⊎ ((path : Text) × (e.prefix ≡ b'/' ∷ path))
  pub trimmed : trim_end_by (λ c. c == b'/') e.prefix ≡ e.prefix

abbrev pub spelled : Endpoint → Text
spelled e =
    text (if e.secure then "https" else "http") ++ (text "://" ++ (authority_of e ++ e.prefix))

-- A port that is left out is the scheme's own.
implied :
    (e : Endpoint)
    → ((e.secure && e.port == 443) || (not e.secure && e.port == 80)) ≡ true
    → default_port e.secure ≡ e.port
implied e h = ground arith

bracketed_lem :
    (secure : Bool) (host tail : Text)
    → contains_char b']' host ≡ false
    → split_authority (b'[' ∷ (host ++ b']' ∷ tail)) secure ≡ bracketed_port secure host tail
unfolding split_authority strip_prefix
bracketed_lem secure host tail h = rw (split_authority, split_once-append b']' host tail h) refl

no_bracket :
    (authority rest : Text) (first : ℕ)
    → authority ≡ first ∷ rest
    → (first == b'[') ≡ false
    → strip_prefix (b'[' ∷ []) authority ≡ none
unfolding strip_prefix
no_bracket authority rest first spells plain = rw (spells, strip_prefix, plain) refl

named_lem :
    (secure : Bool) (authority rest : Text) (first : ℕ)
    → authority ≡ first ∷ rest
    → (first == b'[') ≡ false
    → split_authority authority secure ≡ elim (rsplit_once b':' authority) [
      | some (host, port) ↦ with_port host (parse_port port)
      | none ↦ some (authority, default_port secure)
    ]
unfolding split_authority
named_lem secure authority rest first spells plain =
    rw (split_authority, no_bracket authority rest first spells plain) refl

-- The four forms that an authority is written in.
split_authority-authority_of :
    (e : Endpoint)
    → IsSpellable e
    → split_authority (authority_of e) e.secure ≡ some (e.host, e.port)
unfolding authority_of bracketed_port is_digit
split_authority-authority_of e v =
    let port_read = parse_unsigned-decimal (2 ^ 16) e.port v.port in
    elim (Bool-cases (contains_char b':' e.host)) [
      | inl address ↦
          elim (Bool-cases ((e.secure && e.port == 443) || (not e.secure && e.port == 80))) [
            | inl left_out ↦
                rw (authority_of, address, left_out)
                  (bracketed_lem e.secure e.host [] v.close_bracket
                    ∙ ap (λ port. some (e.host, port)) (implied e left_out))
            | inr written ↦
                rw (authority_of, address, written)
                  (ap (λ t. split_authority (b'[' ∷ t) e.secure)
                      (append_assoc e.host (b']' ∷ []) (b':' ∷ decimal e.port))
                    ∙ bracketed_lem e.secure e.host (b':' ∷ decimal e.port) v.close_bracket
                    ∙ ap (with_port e.host) port_read)
          ]
      | inr name ↦
          elim (Bool-cases ((e.secure && e.port == 443) || (not e.secure && e.port == 80))) [
            | inl left_out ↦
                rw (authority_of, name, left_out)
                  (named_lem e.secure e.host v.others v.first v.host v.open_bracket
                    ∙ rw (rsplit_once-eq-none b':' e.host name)
                        (ap (λ port. some (e.host, port)) (implied e left_out)))
            | inr written ↦
                rw (authority_of, name, written)
                  (named_lem e.secure (e.host ++ b':' ∷ decimal e.port)
                      (v.others ++ b':' ∷ decimal e.port) v.first
                      (ap (λ h. h ++ b':' ∷ decimal e.port) v.host) v.open_bracket
                    ∙ rw
                        (rsplit_once-append b':' e.host (decimal e.port)
                          (contains_char-decimal b':' e.port refl))
                        (ap (with_port e.host) port_read))
          ]
    ]

-- A character that an authority holds where its host does.
authority_plain :
    (e : Endpoint) (c : ℕ)
    → contains_char c e.host ≡ false
    → is_digit c ≡ false
    → ((c == b':') || ((c == b'[') || (c == b']'))) ≡ false
    → contains_char c (authority_of e) ≡ false
unfolding authority_of contains_char
authority_plain e c host digit mark = ground (
  arith,
  contains_char-decimal c e.port digit,
  contains_char-append c e.host (b']' ∷ []),
  contains_char-append c e.host (b':' ∷ decimal e.port),
  contains_char-append c (b'[' ∷ (e.host ++ b']' ∷ [])) (b':' ∷ decimal e.port),
)

split_path-authority_of :
    (e : Endpoint)
    → IsSpellable e
    → split_path (authority_of e ++ e.prefix) ≡ (authority_of e, e.prefix)
unfolding split_path is_digit authority_of
split_path-authority_of e v =
    let no_slash = authority_plain e b'/' v.slash refl refl in
    elim v.prefix [
      | inl without ↦ rw without (
          ap split_path (append-nil (authority_of e))
          ∙ rw (split_path, split_once-eq-none b'/' (authority_of e) no_slash) refl)
      | inr (path, given) ↦
          rw (given, split_path, split_once-append b'/' (authority_of e) path no_slash) refl
    ]

scheme_read :
    (secure : Bool) (rest : Text)
    → (split_at_text
          (text "://")
          (text (if secure then "https" else "http") ++ (text "://" ++ rest))
        ≡ some (text (if secure then "https" else "http"), rest))
      × (scheme_of (text (if secure then "https" else "http")) ≡ some secure)
unfolding split_at_text scheme_of text eq_ignore_ascii_case text_eq
scheme_read true rest = (refl, refl)
scheme_read false rest = (refl, refl)

module _ (en : Engine) where
  -- What is written of an endpoint, its scheme, its authority as the `Host` header has it and its path,
  -- is read back as the same endpoint: bracketed addresses, ports that are left out and paths
  -- included.
  pub parse-spelled :
      (e : Endpoint) (described : Text) → IsSpellable e → parse en (spelled e) described ≡ ok e
  unfolding parse is_digit
  parse-spelled e described v =
      let (splits, scheme) = scheme_read e.secure (authority_of e ++ e.prefix) in
      let at_sign = authority_plain e b'@' v.at_sign refl refl in
      let given : is_empty e.host ≡ false = ap is_empty v.host in
      rw
        (
          parse,
          splits,
          scheme,
          split_path-authority_of e v,
          at_sign,
          split_authority-authority_of e v,
          given,
        )
        (ap
          (λ prefix.
            ok (record { secure = e.secure; host = e.host; port = e.port; prefix = prefix }))
          v.trimmed)
