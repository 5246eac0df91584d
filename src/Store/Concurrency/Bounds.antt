-- ===== src/Store/Concurrency/Bounds.antt =====
-- The ceiling holds in every interleaving.
use dynamic_config_remote.Common.{
  ℕ, zero, suc, ◌+◌, ◌≤◌, ◌<◌, ◌≡◌, refl, sym, Bool, List, [], ◌∷◌, some, get_elem?, set, arith,
  inl, inr, Option-cases,
}
use dynamic_config_remote.Store.Concurrency.{
  StoreRuntimePolicy, unbounded, counted, Phase, outside, looping, refused, admitted, act, World,
  Action, step, run, start, new, all_outside, counts, permits, usize_mod,
}

-- The counter is the number of permits that are out, and no more than the limit.
pub record IsBounded (limit : ℕ) (w : World) : Type 0 where
  pub same : w.policy.limit ≡ limit
  pub counted_exactly : w.policy.in_flight ≡ permits w.threads
  pub within : w.policy.in_flight ≤ limit
  pub representable : limit < usize_mod

permits-set :
    (phases : List Phase) (i : ℕ) (old new : Phase)
    → get_elem? phases i ≡ some old
    → permits (set phases i new) + counts old ≡ permits phases + counts new
permits-set [] i old new h = cc
permits-set (x ∷ xs) zero old new h = ground arith
permits-set (x ∷ xs) (suc i) old new h = omega (arith, permits-set xs i old new h)

-- What one action does to the counter, whatever the other threads hold.
act_balance :
    (p : StoreRuntimePolicy) (phase : Phase) (spurious : Bool)
    → counts phase ≤ p.in_flight
    → p.in_flight ≤ p.limit
    → p.limit < usize_mod
    → let r = act p phase spurious in
      (r.0.in_flight + counts phase ≡ p.in_flight + counts r.1)
      × (r.0.in_flight ≤ p.limit)
      × (r.0.limit ≡ p.limit)
unfolding act
act_balance p outside spurious c h l = ground arith
act_balance p (looping held) spurious c h l = ground arith
act_balance p refused spurious c h l = ground arith
act_balance p (admitted unbounded) spurious c h l = ground arith
act_balance p (admitted counted) spurious c h l = ground arith

counts-le-permits :
    (phases : List Phase) (i : ℕ) (phase : Phase)
    → get_elem? phases i ≡ some phase
    → counts phase ≤ permits phases
counts-le-permits [] i phase h = cc
counts-le-permits (x ∷ xs) zero phase h = ground arith
counts-le-permits (x ∷ xs) (suc i) phase h = omega (arith, counts-le-permits xs i phase h)

step-IsBounded :
    (limit : ℕ) (w : World) (a : Action) → IsBounded limit w → IsBounded limit (step w a)
unfolding step
step-IsBounded limit w a v = elim (Option-cases (get_elem? w.threads a.thread)) [
  | inl missing ↦ rw (missing, step) v
  | inr (phase, found) ↦
      let held = counts-le-permits w.threads a.thread phase found in
      let balance =
        act_balance w.policy phase a.spurious (omega (arith, held, v.counted_exactly))
          (omega (arith, v.within, v.same)) (omega (arith, v.representable, v.same)) in
      let moved = permits-set w.threads a.thread phase (act w.policy phase a.spurious).1 found in
      rw (found, step)
        (record {
          same = omega (arith, balance, v.same);
          counted_exactly = omega (arith, moved, balance, v.counted_exactly);
          within = omega (arith, balance, v.same);
          representable = v.representable;
        })
]

run-IsBounded :
    (limit : ℕ) (w : World) (schedule : List Action)
    → IsBounded limit w
    → IsBounded limit (run w schedule)
unfolding run
run-IsBounded limit w [] v = v
run-IsBounded limit w (a ∷ rest) v =
    run-IsBounded limit (step w a) rest (step-IsBounded limit w a v)

permits-all_outside : (n : ℕ) → permits (all_outside n) ≡ 0
permits-all_outside zero = refl
permits-all_outside (suc n) = omega (arith, permits-all_outside n)

start-IsBounded : (limit threads : ℕ) → limit < usize_mod → IsBounded limit (start limit threads)
unfolding start
start-IsBounded limit threads h = record {
  same = refl;
  counted_exactly = sym (permits-all_outside threads);
  within = omega arith;
  representable = h;
}

-- From a new policy, whatever the number of threads and the interleaving, spurious failures
-- included: the counter is exactly the number of permits that are out, so neither the increment nor
-- the decrement ever wraps, and it is at most the limit.
pub run-start-IsBounded :
    (limit threads : ℕ) (schedule : List Action)
    → limit < usize_mod
    → IsBounded limit (run (start limit threads) schedule)
run-start-IsBounded limit threads schedule h =
    run-IsBounded limit (start limit threads) schedule (start-IsBounded limit threads h)
