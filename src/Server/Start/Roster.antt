-- ===== src/Server/Start/Roster.antt =====
-- Whoever is in a configuration that starts is known by its token, as itself.
use dynamic_config_remote.Common.{
  ◌≡◌, refl, sym, ap, ◌∙◌, subst, false, List, [], ◌∷◌, ◌++◌, Option, none, some, Text, All, Apart,
  Option-cases, Bool-cases, inl, inr, IsUnicode, ok, >>=-eq-ok, map_err, map_err-eq-ok,
  ok_injective, if◌then◌else◌,
}
use dynamic_config_remote.Server.Auth.{Token, matches, bearer, roster, authenticate}
use dynamic_config_remote.Server.Auth.Identity.{matches_iff, roster_found}
use dynamic_config_remote.Server.Config.{ClientConfig, ServerConfig, validate, address}
use dynamic_config_remote.Server.Config.Tokens.{SameToken}
use dynamic_config_remote.Server.Config.Valid.{validate_iff-IsValid}
use dynamic_config_remote.Server.Live.{Cells, Server}
use dynamic_config_remote.Server.Start.{
  System, principal_of, roster_of, start_with, load_tls, load_sections, verifier_of, refused,
}

-- A token is a Rust string.
abbrev pub IsTokenText : Option Token → Type 0
IsTokenText none = Unit
IsTokenText (some token) = IsUnicode token.secret

at_middle {κ} :
    (P : ClientConfig → Type κ) (front back : List ClientConfig) (c : ClientConfig)
    → All P (front ++ c ∷ back)
    → P c
at_middle P [] back c h = h.0
at_middle P (d ∷ front) back c h = at_middle P front back c h.1

-- Another client's token does not match.
mismatch :
    (d c : ClientConfig) (other token : Token)
    → d.token ≡ some other
    → c.token ≡ some token
    → IsUnicode other.secret
    → IsUnicode token.secret
    → (SameToken d c → ⊥)
    → matches other token.secret ≡ false
mismatch d c other token has bears ho ht apart = elim (Bool-cases (matches other token.secret)) [
  | inr miss ↦ miss
  | inl hit ↦
      let same : other ≡ token =
        ap (λ s. record { secret = s }) ((matches_iff other token.secret ho ht).0 hit) in
      absurd (apart (token, has ∙ ap some same, bears))
]

roster-roster_of :
    (front back : List ClientConfig) (c : ClientConfig) (token : Token)
    → c.token ≡ some token
    → All (λ d. IsTokenText d.token) (front ++ c ∷ back)
    → Apart SameToken (front ++ c ∷ back)
    → roster token.secret none (roster_of (front ++ c ∷ back)) ≡ some (principal_of c)
unfolding roster_of roster
roster-roster_of [] back c token bears (here, texts) apart =
    let unicode : IsUnicode token.secret = subst IsTokenText bears here in
    let hit = (matches_iff token token.secret unicode unicode).1 refl in
    rw (roster_of, bears, roster, hit) (roster_found token.secret (principal_of c) (roster_of back))
roster-roster_of (d ∷ front) back c token bears (here, texts) (apart_d, apart) =
    let later = roster-roster_of front back c token bears texts apart in
    elim (Option-cases d.token) [
      | inl without ↦ rw (roster_of, without) later
      | inr (other, has) ↦
          let unicode : IsUnicode token.secret =
            subst IsTokenText bears (at_middle (λ d. IsTokenText d.token) front back c texts) in
          let miss =
            mismatch d c other token has bears (subst IsTokenText has here) unicode
              (at_middle (λ y. SameToken d y → ⊥) front back c apart_d) in
          rw (roster_of, has, roster, miss) later
    ]

module _ (cells : Cells) (system : System cells) where
  -- What a server that started has of its configuration.
  start_with_lem :
      (c : ServerConfig) (server : Server cells)
      → start_with cells system c ≡ ok server
      → (validate system.net system.tls_feature c ≡ ok tt)
        × (server.authenticator.clients ≡ roster_of c.clients)
  unfolding start_with
  start_with_lem c server h =
      let (_, valid, h) =
        >>=-eq-ok (map_err refused (validate system.net system.tls_feature c)) _ h in
      let (at, bound, h) =
        >>=-eq-ok (map_err refused (address system.net system.tls_feature c)) _ h in
      let (_, tls, h) =
        >>=-eq-ok (if system.tls_feature then load_tls cells system c.tls else ok tt) _ h in
      let (sections, loaded, h) =
        >>=-eq-ok (load_sections cells system c.watch_debounce_ms c.sections []) _ h in
      let (verify, granted, h) =
        >>=-eq-ok
          (if system.kubernetes_feature then verifier_of cells system c.kubernetes else ok none) _
          h in
      (map_err-eq-ok refused _ valid, ap (λ s. s.authenticator.clients) (sym (ok_injective h)))

  -- Every client of a configuration that a server started with is known by its token, and as itself:
  -- with the applications that the configuration grants it, whatever the other clients are and
  -- wherever it stands among them.
  pub start_with_knows :
      (c : ServerConfig) (server : Server cells) (front back : List ClientConfig)
      (client : ClientConfig) (token : Token) (header : Text)
      → start_with cells system c ≡ ok server
      → c.clients ≡ front ++ client ∷ back
      → client.token ≡ some token
      → All (λ d. IsTokenText d.token) c.clients
      → bearer header ≡ some token.secret
      → authenticate server.authenticator (some header) ≡ some (principal_of client)
  unfolding authenticate
  start_with_knows c server front back client token header started place bears texts carried =
      let (valid, clients) = start_with_lem c server started in
      let apart = ((validate_iff-IsValid system.net system.tls_feature c).0 valid).tokens in
      let found =
        roster-roster_of front back client token bears
          (subst (All (λ d. IsTokenText d.token)) place texts)
          (subst (Apart SameToken) place apart) in
      let known : roster token.secret none server.authenticator.clients
          ≡ some (principal_of client) =
        ap (roster token.secret none) (clients ∙ ap roster_of place) ∙ found in
      rw (authenticate, carried, known) refl
