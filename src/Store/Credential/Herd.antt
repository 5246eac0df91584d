-- ===== src/Store/Credential/Herd.antt =====
-- The thundering herd: callers that arrive together make one request.
use dynamic_config_remote.Common.{
  ℕ, ◌+◌, ◌<◌, ◌≡◌, refl, true, List, [], ◌∷◌, Option, none, some, arith, Result, ok, All,
}
use dynamic_config_remote.Store.Credential.{
  Issued, Cached, is_stale, expiry, current, replaced, Outcome, installed, get, gets,
}
use dynamic_config_remote.Store.Credential.Renewal.{reusable}

abbrev request {ℓ} : {T : Type ℓ} → Option (Option T) → ℕ
request none = 0
request (some handed) = 1

-- How many of the calls asked the store.
abbrev pub requests {ℓ κ} : {T : Type ℓ} {E : Type κ} → List (Outcome T E) → ℕ
requests [] = 0
requests (o ∷ os) = request o.asked + requests os

module _ {ℓ κ} {T : Type ℓ} {E : Type κ} (last : ℕ) (obtain : Option T → Result (Issued T) E) where
  get_current :
      (c : Cached T) (v : T) (now later : ℕ)
      → current c now ≡ some v
      → get last c now later obtain ≡ record { cache = c; answer = ok v; asked = none }
  unfolding get
  get_current c v now later h = rw (h, get)

  get_obtained :
      (c : Cached T) (issued : Issued T) (now later : ℕ)
      → current c now ≡ none
      → obtain (replaced c) ≡ ok issued
      → get last c now later obtain ≡ record {
        cache = installed last c issued later;
        answer = ok issued.value;
        asked = some (replaced c);
      }
  unfolding get
  get_obtained c issued now later h got = rw (h, got, get)

  -- While what is held is current at each reading, nobody asks and everybody has it.
  gets-current :
      (c : Cached T) (v : T) (times : List (ℕ × ℕ))
      → All (λ t. current c t.0 ≡ some v) times
      → (requests (gets last c times obtain) ≡ 0)
        × All (λ o. o.answer ≡ ok v) (gets last c times obtain)
  unfolding gets
  gets-current c v [] h = (refl, tt)
  gets-current c v ((now, later) ∷ times) (h, hs) =
      let (none_asked, answered) = gets-current c v times hs in
      rw (get_current c v now later h, gets) (omega (arith, none_asked), (refl, answered))

  current_of_reusable :
      (c : Cached T) (issued : Issued T) (later now : ℕ)
      → 0 < c.margin
      → reusable last c.margin later issued.ttl now ≡ true
      → current (installed last c issued later) now ≡ some issued.value
  unfolding current installed expiry is_stale
  current_of_reusable c issued later now pos h = ground arith

  reusable-All :
      (c : Cached T) (issued : Issued T) (later : ℕ) (times : List (ℕ × ℕ))
      → 0 < c.margin
      → All (λ t. reusable last c.margin later issued.ttl t.0 ≡ true) times
      → All (λ t. current (installed last c issued later) t.0 ≡ some issued.value) times
  reusable-All c issued later [] pos h = tt
  reusable-All c issued later (t ∷ times) pos (h, hs) =
      (current_of_reusable c issued later t.0 pos h, reusable-All c issued later times pos hs)

  -- However many callers find a cache whose credential is missing or stale, one request is made,
  -- and every one of them has its credential, as long as it stays reusable: the lock is held across
  -- obtaining.
  pub gets_herd :
      (c : Cached T) (issued : Issued T) (now later : ℕ) (times : List (ℕ × ℕ))
      → 0 < c.margin
      → current c now ≡ none
      → obtain (replaced c) ≡ ok issued
      → All (λ t. reusable last c.margin later issued.ttl t.0 ≡ true) times
      → (requests (gets last c ((now, later) ∷ times) obtain) ≡ 1)
        × All (λ o. o.answer ≡ ok issued.value) (gets last c ((now, later) ∷ times) obtain)
  unfolding gets
  gets_herd c issued now later times pos stale got h =
      let (none_asked, answered) =
        gets-current (installed last c issued later) issued.value times
          (reusable-All c issued later times pos h) in
      rw (get_obtained c issued now later stale got, gets)
        (omega (arith, none_asked), (refl, answered))
