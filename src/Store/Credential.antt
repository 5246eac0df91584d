-- ===== src/Store/Credential.antt =====
-- dynamic-config-store-core/src/credential.rs: a credential that expires, and when to get another;
-- and the session of dynamic-config-vault/src/auth.rs on top of it.
--
-- An `Instant` is a number of nanoseconds; `last` is the largest one that the platform can
-- represent, where `checked_add` gives up. The lock is held across obtaining, so a call of `get` is
-- one step on the held credential. The two readings of the clock in `get` are arguments: `now` for
-- the test of staleness, `later` after obtaining. A call also answers what it handed to `obtain`,
-- if it called it.
pub mod Renewal
pub mod Herd
mod Tests
use dynamic_config_remote.Common.{
  ℕ, ◌+◌, ◌-◌, ◌*◌, ◌^◌, Bool, true, false, List, [], ◌∷◌, Option, none, some, ltb, leb,
  if◌then◌else◌, Result, ok, err, map,
}

-- One second, in nanoseconds.
abbrev pub second : ℕ
second = 10 ^ 9

abbrev pub refresh_within : ℕ
refresh_within = 60 * second

pub record Issued {ℓ} (T : Type ℓ) : Type ℓ where
  pub value : T
  pub ttl : Option ℕ

pub record Held {ℓ} (T : Type ℓ) : Type ℓ where
  pub value : T
  pub expires_at : Option ℕ

pub record Cached {ℓ} (T : Type ℓ) : Type ℓ where
  pub held : Option (Held T)
  pub margin : ℕ

-- What a call of `get` leaves behind and answers, and what it handed to `obtain`, if it did.
pub record Outcome {ℓ κ} (T : Type ℓ) (E : Type κ) : Type (ℓ ⊔ κ) where
  pub cache : Cached T
  pub answer : Result T E
  pub asked : Option (Option T)

-- `expires_at.saturating_duration_since(now) < margin`
unfoldable pub is_stale {ℓ} : {T : Type ℓ} → ℕ → ℕ → Held T → Bool
is_stale margin now h = elim h.expires_at [ none ↦ false | some at ↦ ltb (at - now) margin ]

-- `Instant::checked_add`
unfoldable pub checked_add : ℕ → ℕ → ℕ → Option ℕ
checked_add last now ttl = if leb (now + ttl) last then some (now + ttl) else none

-- `ttl.and_then(|ttl| Instant::now().checked_add(ttl))`
unfoldable pub expiry : ℕ → ℕ → Option ℕ → Option ℕ
unfolding checked_add
expiry last now none = none
expiry last now (some ttl) = checked_add last now ttl

module _ {ℓ} {T : Type ℓ} where
  unfoldable pub with_margin : ℕ → Cached T
  with_margin margin = record { held = none; margin = margin }

  unfoldable pub new : Cached T
  unfolding with_margin
  new = with_margin refresh_within

  unfoldable pub invalidate : Cached T → Cached T
  invalidate c = record c { held = none }

  -- The credential that `get` answers with and does not replace.
  unfoldable pub current : Cached T → ℕ → Option T
  unfolding is_stale
  current c now = elim c.held [
    | none ↦ none
    | some h ↦ if is_stale c.margin now h then none else some h.value
  ]

  -- What `obtain` is handed.
  unfoldable pub replaced : Cached T → Option T
  replaced c = elim c.held [ none ↦ none | some h ↦ some h.value ]

  unfoldable pub installed : ℕ → Cached T → Issued T → ℕ → Cached T
  unfolding expiry
  installed last c issued later = record c {
    held = some (record { value = issued.value; expires_at = expiry last later issued.ttl });
  }

  unfoldable pub get {κ} :
      {E : Type κ} → ℕ → Cached T → ℕ → ℕ → (Option T → Result (Issued T) E) → Outcome T E
  unfolding current replaced installed
  get last c now later obtain = elim (current c now) [
    | some value ↦ record { cache = c; answer = ok value; asked = none }
    | none ↦ elim (obtain (replaced c)) [
      | err e ↦ record { cache = c; answer = err e; asked = some (replaced c) }
      | ok issued ↦ record {
        cache = installed last c issued later;
        answer = ok issued.value;
        asked = some (replaced c);
      }
    ]
  ]

  -- The threads that arrive one after the other, each with its two readings of the clock.
  unfoldable pub gets {κ} :
      {E : Type κ}
      → ℕ
      → Cached T
      → List (ℕ × ℕ)
      → (Option T → Result (Issued T) E)
      → List (Outcome T E)
  unfolding get
  gets last c [] obtain = []
  gets last c ((now, later) ∷ times) obtain =
      let o = get last c now later obtain in o ∷ gets last o.cache times obtain
