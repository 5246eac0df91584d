-- ===== src/Common/Outcomes.antt =====
-- `Result<T, E>` and the >>=-intros of the `?` operator.
use mathlib.Core.Path.{◌≡◌, refl, ap}
use mathlib.Core.Logic.{◌⊎◌, ◌↔◌, inl, inr}
use mathlib.Core.Bool.{Bool, true, false}
use mathlib.Core.Option.{Option, none, some}

pub data Result {ℓ κ} (A : Type ℓ) (E : Type κ) : Type (ℓ ⊔ κ) where
  ok : A → Result A E
  err : E → Result A E

-- The `?` operator: an error leaves the function.
infixl 5 ◌>>=◌
abbrev pub ◌>>=◌ {ℓ κ μ} :
    {E : Type μ} {A : Type ℓ} {B : Type κ} → Result A E → (A → Result B E) → Result B E
r >>= next = elim r [ err failure ↦ err failure | ok value ↦ next value ]

-- An early `return Err(e)` unless the test holds.
abbrev pub ensure {ℓ} : {E : Type ℓ} → Bool → E → Result (Unit {0}) E
ensure true e = ok tt
ensure false e = err e

abbrev pub ok_or {ℓ κ} : {A : Type ℓ} {E : Type κ} → Option A → E → Result A E
ok_or none e = err e
ok_or (some a) e = ok a

abbrev pub map_err {ℓ κ μ} :
    {A : Type ℓ} {E : Type κ} {F : Type μ} → (E → F) → Result A E → Result A F
map_err f (ok a) = ok a
map_err f (err e) = err (f e)

pub Result-cases {ℓ κ} :
    {A : Type ℓ} {E : Type κ} (r : Result A E) → ((a : A) × (r ≡ ok a)) ⊎ ((e : E) × (r ≡ err e))
Result-cases (ok a) = inl (a, refl)
Result-cases (err e) = inr (e, refl)

-- A >>=-intro that succeeds went through its first step.
pub >>=-eq-ok {ℓ κ μ} :
    {E : Type μ} {A : Type ℓ} {B : Type κ} (first : Result A E) (next : A → Result B E) {last : B}
    → (first >>= next) ≡ ok last
    → (value : A) × (first ≡ ok value) × (next value ≡ ok last)
>>=-eq-ok (err failure) next succeeds = cc
>>=-eq-ok (ok value) next succeeds = (value, refl, succeeds)

pub Result-differ {ℓ κ} :
    {A : Type ℓ} {E : Type κ} {a : A} {b : E} → ◌≡◌ {A = Result A E} (err b) (ok a) → ⊥
Result-differ h = cc

pub ok_injective {ℓ κ} :
    {A : Type ℓ} {E : Type κ} {a b : A} → ◌≡◌ {A = Result A E} (ok a) (ok b) → a ≡ b
ok_injective h = cc

pub map_err-eq-ok {ℓ κ μ} :
    {A : Type ℓ} {E : Type κ} {F : Type μ} (f : E → F) (r : Result A E) {a : A}
    → map_err f r ≡ ok a
    → r ≡ ok a
map_err-eq-ok f (ok a) h = cc
map_err-eq-ok f (err e) h = cc

-- And it succeeds where each of its steps does.
pub >>=-intro {ℓ κ μ} :
    {E : Type μ} {A : Type ℓ} {B : Type κ} (first : Result A E) (next : A → Result B E) (value : A)
    {last : B}
    → first ≡ ok value
    → next value ≡ ok last
    → (first >>= next) ≡ ok last
>>=-intro first next value here later = rw here later

pub ensure_iff {ℓ} :
    {E : Type ℓ} (test : Bool) (failure : E) → (ensure test failure ≡ ok tt) ↔ (test ≡ true)
ensure_iff true failure = (λ h. refl, λ h. refl)
ensure_iff false failure = (λ h. cc, λ h. cc)

pub ok_or-eq-ok {ℓ κ} :
    {A : Type ℓ} {E : Type κ} {a : A}
    → (o : Option A) (error : E) → ok_or o error ≡ ok a
    → o ≡ some a
ok_or-eq-ok none error h = cc
ok_or-eq-ok (some b) error h = ap some (ok_injective h)
