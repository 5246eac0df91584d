-- ===== src/Server/Auth/Identity.antt =====
-- A caller is who its token says, and nobody else.
use dynamic_config_remote.Common.{
  ℕ, ◌≡◌, ◌↔◌, refl, ap, subst, true, false, List, [], ◌∷◌, ◌++◌, none, some, Text, length, All,
  as_bytes, bit_or, bit_xor, bit_or-eq-zero, bit_xor-eq-zero_iff, IsUnicode, as_bytes_injective,
  arith, ==_iff, Bool-cases, Option-cases, inl, inr,
}
use dynamic_config_remote.Server.Auth.{
  Token, Principal, Authenticator, differences, unequal, matches, bearer, roster, review,
  authenticate,
}

-- Nothing differs exactly where nothing differed before and the bytes that both have agree.
differences_sound :
    (difference : ℕ) (configured presented : List ℕ)
    → differences difference configured presented ≡ 0
    → length configured ≡ length presented
    → (difference ≡ 0) × (configured ≡ presented)
unfolding differences
differences_sound difference [] [] h same = (h, refl)
differences_sound difference [] (r ∷ presented) h same = absurd (omega arith)
differences_sound difference (l ∷ configured) [] h same = absurd (omega arith)
differences_sound difference (l ∷ configured) (r ∷ presented) h same =
    let (none_yet, rest) =
      differences_sound (bit_or difference (bit_xor l r)) configured presented h (omega arith) in
    let (before, here) = bit_or-eq-zero difference (bit_xor l r) none_yet in
    (before, cc ((bit_xor-eq-zero_iff l r).0 here, rest))

differences_start :
    (difference : ℕ) (configured presented : List ℕ)
    → differences difference configured presented ≡ 0
    → difference ≡ 0
unfolding differences
differences_start difference [] presented h = h
differences_start difference (l ∷ configured) [] h = h
differences_start difference (l ∷ configured) (r ∷ presented) h =
    (bit_or-eq-zero difference (bit_xor l r)
      (differences_start (bit_or difference (bit_xor l r)) configured presented h)).0

differences_self : (bytes : List ℕ) → differences 0 bytes bytes ≡ 0
unfolding differences
differences_self [] = refl
differences_self (b ∷ bytes) = rw ((bit_xor-eq-zero_iff b b).1 refl) (differences_self bytes)

unequal-eq-zero : (a b : ℕ) → unequal a b ≡ 0 → a ≡ b
unequal-eq-zero a b h = ground arith

unequal_self : (a : ℕ) → unequal a a ≡ 0
unequal_self a = ground arith

bytes_alike :
    (configured presented : List ℕ)
    → differences (unequal (length configured) (length presented)) configured presented ≡ 0
    → configured ≡ presented
bytes_alike configured presented h =
    let alike =
      differences_start (unequal (length configured) (length presented)) configured presented h in
    (differences_sound (unequal (length configured) (length presented)) configured presented h
      (unequal-eq-zero (length configured) (length presented) alike)).1

bytes_self : (bytes : List ℕ) → differences (unequal (length bytes) (length bytes)) bytes bytes ≡ 0
bytes_self bytes = rw (unequal_self (length bytes)) (differences_self bytes)

-- The comparison in constant time is equality of the whole tokens.
pub matches_iff :
    (t : Token) (presented : Text)
    → IsUnicode t.secret
    → IsUnicode presented
    → (matches t presented ≡ true) ↔ (t.secret ≡ presented)
unfolding matches
matches_iff t presented ht hp = (
  λ h.
      as_bytes_injective t.secret presented ht hp
        (bytes_alike (as_bytes t.secret) (as_bytes presented) ((==_iff _ 0).0 h)),
  λ e. subst (λ shown. matches t shown ≡ true) e ((==_iff _ 0).1 (bytes_self (as_bytes t.secret))),
)

-- The roster keeps what was found first.
pub roster_found :
    (presented : Text) (p : Principal) (clients : List (Token × Principal))
    → roster presented (some p) clients ≡ some p
unfolding roster
roster_found presented p [] = refl
roster_found presented p ((token, principal) ∷ clients) =
    ground (arith, roster_found presented p clients)

-- The client that a token belongs to: the first whose token it is.
pub record Belongs (presented : Text) (clients : List (Token × Principal)) (p : Principal)
    : Type 0 where
  pub front : List (Token × Principal)
  pub token : Token
  pub back : List (Token × Principal)
  pub splits : clients ≡ front ++ (token, p) ∷ back
  pub hit : matches token presented ≡ true
  pub first : All (λ c. matches c.0 presented ≡ false) front

roster-Belongs :
    (presented : Text) (clients : List (Token × Principal)) (p : Principal)
    → roster presented none clients ≡ some p
    → Belongs presented clients p
unfolding roster
roster-Belongs presented [] p h = cc
roster-Belongs presented ((token, principal) ∷ clients) p h =
    elim (Bool-cases (matches token presented)) [
      | inl hit ↦
          let same : principal ≡ p = ground (arith, roster_found presented principal clients) in
          record {
            front = [];
            token = token;
            back = clients;
            splits = ap (λ q. (token, q) ∷ clients) same;
            hit = hit;
            first = tt;
          }
      | inr miss ↦
          let later = roster-Belongs presented clients p (ground arith) in
          record {
            front = (token, principal) ∷ later.front;
            token = later.token;
            back = later.back;
            splits = ap (◌∷◌ (token, principal)) later.splits;
            hit = later.hit;
            first = (miss, later.first);
          }
    ]

-- A caller that presents a header is, without a verifier of service accounts, a client whose token
-- the header carries, the first such in the roster: never the anonymous caller, whatever its grants.
pub authenticate-Belongs :
    (a : Authenticator) (header : Text) (p : Principal)
    → a.kubernetes ≡ none
    → authenticate a (some header) ≡ some p
    → (presented : Text) × (bearer header ≡ some presented) × Belongs presented a.clients p
unfolding authenticate review
authenticate-Belongs a header p no_verifier h = elim (Option-cases (bearer header)) [
  | inl malformed ↦ absurd (ground arith)
  | inr (presented, carried) ↦ elim (Option-cases (roster presented none a.clients)) [
    | inl unknown ↦ absurd (ground arith)
    | inr (q, found) ↦ (presented, carried, roster-Belongs presented a.clients p (ground arith))
  ]
]
