-- ===== src/Store/Attempts/Traces.antt =====
-- What a report leaves as it was.
use dynamic_config_remote.Common.{◌≡◌, refl}
use dynamic_config_remote.Engine.{Engine, Documents}
use dynamic_config_remote.Store.Attempts.{Attempts, silent, reporting, Trace, failed}

module _ (e : Engine) (d : Documents e) where
  pub delivered-failed :
      (attempts : Attempts) (error : e.Error) (t : Trace e d)
      → (failed e d attempts error t).delivered ≡ t.delivered
  delivered-failed silent error t = refl
  delivered-failed reporting error t = refl
