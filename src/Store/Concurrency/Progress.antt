-- ===== src/Store/Concurrency/Progress.antt =====
-- What `admit` answers, and that its loop ends.
use dynamic_config_remote.Common.{ℕ, ◌<◌, ◌≡◌, ◌≢◌, false, some, arith}
use dynamic_config_remote.Store.Concurrency.{
  StoreRuntimePolicy, InFlight, looping, exchange, give_back, admit, usize_mod,
}

-- A permit that is dropped gives the counter back as it was, bounded or not.
pub admit-give_back :
    (p q : StoreRuntimePolicy) (permit : InFlight)
    → p.limit < usize_mod
    → admit p ≡ (q, some permit)
    → give_back q permit ≡ p
unfolding admit give_back
admit-give_back p q permit h e = ground arith

-- Two rounds of the loop with no other thread between them and no spurious failure end it, whatever
-- value the first one starts from.
pub exchange_twice_settles :
    (p : StoreRuntimePolicy) (held again : ℕ)
    → (exchange p held false).1 ≡ looping again
    → (n : ℕ) → (exchange (exchange p held false).0 again false).1 ≢ looping n
unfolding exchange
exchange_twice_settles p held again e n = ground arith
