-- ===== src/Store/Concurrency.antt =====
-- dynamic-config-store-core/src/concurrency.rs: a ceiling on the requests in flight.
--
-- Any number of threads share one atomic counter. An action is one atomic access: the load that
-- `admit` starts with, one round of its compare-and-swap loop (the test of the loaded value is
-- local to the thread), or the `fetch_sub` of a permit's `drop`. A schedule is a list of actions,
-- each with the thread that makes it, so it is any interleaving, and a `compare_exchange_weak` may
-- also fail for no reason.
pub mod Bounds
pub mod Progress
mod Tests
use dynamic_config_remote.Common.{
  ℕ, ◌+◌, ◌-◌, ◌%◌, ◌^◌, Bool, true, false, ◌&&◌, not, List, [], ◌∷◌, Option, none, some, leb, ◌==◌,
  if◌then◌else◌, get_elem?, set, length,
}

abbrev pub max_in_flight : ℕ
max_in_flight = 10

-- The values of a `usize`.
abbrev pub usize_mod : ℕ
usize_mod = 2 ^ 64

pub record StoreRuntimePolicy : Type 0 where
  pub limit : ℕ
  pub in_flight : ℕ

unfoldable pub new : ℕ → StoreRuntimePolicy
new limit = record { limit = limit; in_flight = 0 }

unfoldable pub default : StoreRuntimePolicy
unfolding new
default = new max_in_flight

-- An `InFlight`: an unbounded policy has nothing to give back.
pub data InFlight : Type 0 where
  unbounded counted : InFlight

-- Where a thread stands: outside, in the loop of `admit` with the value it read, told *no*, or with
-- a permit.
pub data Phase : Type 0 where
  outside : Phase
  looping : ℕ → Phase
  refused : Phase
  admitted : InFlight → Phase

-- `admit` up to its first load.
unfoldable pub enter : StoreRuntimePolicy → Phase
enter p = if p.limit == 0 then admitted unbounded else looping p.in_flight

-- One round of the loop of `admit`: the test, and the exchange, which may fail spuriously.
unfoldable pub exchange : StoreRuntimePolicy → ℕ → Bool → StoreRuntimePolicy × Phase
exchange p held spurious =
    if leb p.limit held
    then (p, refused)
    else if held == p.in_flight && not spurious
    then (record p { in_flight = (held + 1) % usize_mod }, admitted counted)
    else (p, looping p.in_flight)

-- `drop` of a permit; `fetch_sub` wraps.
unfoldable pub give_back : StoreRuntimePolicy → InFlight → StoreRuntimePolicy
give_back p unbounded = p
give_back p counted = record p { in_flight = (p.in_flight + usize_mod - 1) % usize_mod }

-- `admit` with no other thread at work.
unfoldable pub admit : StoreRuntimePolicy → StoreRuntimePolicy × Option InFlight
unfolding enter exchange
admit p = settle (enter p)
  where
    verdict : StoreRuntimePolicy × Phase → StoreRuntimePolicy × Option InFlight
    verdict (q, admitted permit) = (q, some permit)
    verdict (q, _) = (q, none)

    settle : Phase → StoreRuntimePolicy × Option InFlight
    settle (looping held) = verdict (exchange p held false)
    settle phase = verdict (p, phase)

-- One action of a thread. A thread that was refused goes on with something else.
unfoldable pub act : StoreRuntimePolicy → Phase → Bool → StoreRuntimePolicy × Phase
unfolding enter exchange give_back
act p outside spurious = (p, enter p)
act p (looping held) spurious = exchange p held spurious
act p refused spurious = (p, outside)
act p (admitted permit) spurious = (give_back p permit, outside)

pub record World : Type 0 where
  pub policy : StoreRuntimePolicy
  pub threads : List Phase

pub record Action : Type 0 where
  pub thread : ℕ
  pub spurious : Bool

-- A thread that is not there does nothing.
unfoldable pub step : World → Action → World
unfolding act
step w a = elim (get_elem? w.threads a.thread) [
  | none ↦ w
  | some phase ↦
      let r = act w.policy phase a.spurious in
      record { policy = r.0; threads = set w.threads a.thread r.1 }
]

unfoldable pub run : World → List Action → World
unfolding step
run w [] = w
run w (a ∷ rest) = run (step w a) rest

abbrev pub all_outside : ℕ → List Phase
all_outside ℕ.zero = []
all_outside (ℕ.suc n) = outside ∷ all_outside n

unfoldable pub start : ℕ → ℕ → World
unfolding new
start limit threads = record { policy = new limit; threads = all_outside threads }

-- The permits of a bounded policy that are out.
abbrev pub counts : Phase → ℕ
counts (admitted counted) = 1
counts (admitted unbounded) = 0
counts outside = 0
counts refused = 0
counts (looping held) = 0

abbrev pub permits : List Phase → ℕ
permits [] = 0
permits (phase ∷ phases) = counts phase + permits phases
