-- ===== src/Store/Credential/Renewal.antt =====
-- When a credential is reused, replaced and kept.
use dynamic_config_remote.Common.{
  ℕ, ◌+◌, ◌≤◌, ◌<◌, ◌≡◌, Bool, true, false, ◌||◌, Option, none, some, arith, inl, inr, ltb, leb,
  if◌then◌else◌, Result, ok, err, Option-cases,
}
use dynamic_config_remote.Store.Credential.{
  Issued, Held, Cached, is_stale, expiry, current, replaced, installed, get,
}

-- Whether a credential with this time to live, obtained at `later`, still stands at `now`.
abbrev pub reusable : ℕ → ℕ → ℕ → Option ℕ → ℕ → Bool
reusable last margin later none now = true
reusable last margin later (some ttl) now =
    ltb last (later + ttl) || leb (now + margin) (later + ttl)

-- The credential does not expire, or has at least the margin left to live.
abbrev pub IsAlive : ℕ → ℕ → Option ℕ → Type 0
IsAlive margin now none = Unit
IsAlive margin now (some at) = now + margin ≤ at

fresh-IsAlive {ℓ} :
    {T : Type ℓ} (margin now : ℕ) (h : Held T)
    → 0 < margin
    → is_stale margin now h ≡ false
    → IsAlive margin now h.expires_at
unfolding is_stale
fresh-IsAlive margin now h pos fresh = elim (Option-cases h.expires_at) [
  | inl never ↦ rw never tt
  | inr (at, e) ↦ rw e (ground arith)
]

current-IsAlive {ℓ} :
    {T : Type ℓ} (c : Cached T) (now : ℕ) (v : T)
    → 0 < c.margin
    → current c now ≡ some v
    → (h : Held T) × (c.held ≡ some h) × (h.value ≡ v) × IsAlive c.margin now h.expires_at
unfolding current
current-IsAlive c now v pos e = elim (Option-cases c.held) [
  | inl empty ↦ absurd (ground arith)
  | inr (h, held) ↦ (h, held, ground arith, fresh-IsAlive c.margin now h pos (ground arith))
]

module _ {ℓ κ} {T : Type ℓ} {E : Type κ} (last : ℕ) (c : Cached T) (now later : ℕ)
    (obtain : Option T → Result (Issued T) E) where
  -- A credential that is handed out without asking the store does not expire, or has at least the
  -- margin left to live.
  pub get_unasked-IsAlive :
      (v : T)
      → 0 < c.margin
      → (get last c now later obtain).asked ≡ none
      → (get last c now later obtain).answer ≡ ok v
      → (h : Held T) × (c.held ≡ some h) × (h.value ≡ v) × IsAlive c.margin now h.expires_at
  unfolding get
  get_unasked-IsAlive v pos a e = current-IsAlive c now v pos (ground arith)

  -- Failing to obtain leaves what was held in place, and a later call is handed it again.
  pub get_failed :
      (e : E) (now' later' : ℕ) (obtain' : Option T → Result (Issued T) E)
      → (get last c now later obtain).answer ≡ err e
      → current c now' ≡ none
      → ((get last c now later obtain).cache ≡ c)
        × ((get last (get last c now later obtain).cache now' later' obtain').asked
            ≡ some (replaced c))
  unfolding get
  get_failed e now' later' obtain' h stale = ground arith

  -- What the next call does after a credential was obtained: it answers with that credential and
  -- asks nobody as long as it is reusable, and otherwise hands it to `obtain` to be renewed.
  pub get_then_get :
      (issued : Issued T) (now' later' : ℕ) (obtain' : Option T → Result (Issued T) E)
      → 0 < c.margin
      → current c now ≡ none
      → obtain (replaced c) ≡ ok issued
      → (get last (get last c now later obtain).cache now' later' obtain').asked
        ≡ (if reusable last c.margin later issued.ttl now' then none else some (some issued.value))
  unfolding get current is_stale installed expiry replaced
  get_then_get issued now' later' obtain' pos none_current got = ground arith

  -- A call reads what `obtain` answers at the credential that it replaces, and nothing else of it.
  pub get_ext :
      (obtain' : Option T → Result (Issued T) E)
      → obtain (replaced c) ≡ obtain' (replaced c)
      → get last c now later obtain ≡ get last c now later obtain'
  unfolding get
  get_ext obtain' h = ground arith
