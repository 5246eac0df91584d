-- ===== src/Store/Concurrency/Tests.antt =====
-- The unit tests of concurrency.rs, and the theorems at concrete inputs.
use dynamic_config_remote.Common.{ℕ, ◌≡◌, refl, false, List, [], ◌∷◌, arith}
use dynamic_config_remote.Store.Concurrency.{
  counted, refused, admitted, default, Action, run, start,
}
use dynamic_config_remote.Store.Concurrency.Bounds.{IsBounded, run-start-IsBounded}

abbrev goes : ℕ → Action
goes thread = record { thread = thread; spurious = false }

-- Three threads race for two permits: the third one read a stale counter, and is refused.
abbrev race : List Action
race = goes 0 ∷ goes 1 ∷ goes 2 ∷ goes 0 ∷ goes 1 ∷ goes 1 ∷ goes 2 ∷ goes 2 ∷ []

race_threads : (run (start 2 3) race).threads ≡ admitted counted ∷ admitted counted ∷ refused ∷ []
unfolding run start
race_threads = refl

the_default_is_ten : default.limit ≡ 10
unfolding default
the_default_is_ten = refl

run-start-IsBounded_example : IsBounded 2 (run (start 2 3) race)
run-start-IsBounded_example = run-start-IsBounded 2 3 race (omega arith)
