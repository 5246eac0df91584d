-- ===== src/Store/Attempts.antt =====
-- dynamic-config-store-core/src/attempts.rs, and `guarded` of dynamic-config-store-core/src/lib.rs:
-- what a watch reports, and how it calls its callback.
--
-- What the rest of the program sees of a watch is its trace: the documents that the callback was
-- called with and the errors that the sink was told, newest first. A callback has a state of its
-- own, so what it answers may depend on every document that it had before.
pub mod Traces
use dynamic_config_remote.Common.{
  Bool, true, false, List, [], ◌∷◌, Text, text, ◌++◌, Result, ok, err, if◌then◌else◌,
}
use dynamic_config_remote.Engine.{Engine, Documents}

-- `Attempts(Option<RemoteSink>)`: whether there is a sink to report to.
pub data Attempts : Type 0 where
  silent reporting : Attempts

abbrev pub is_reporting : Attempts → Bool
is_reporting silent = false
is_reporting reporting = true

module _ (e : Engine) (d : Documents e) where
  open e use {Error}
  open d use {Fetched}

  pub record Trace : Type 0 where
    pub delivered : List Fetched
    pub reported : List Error

  abbrev pub untouched : Trace
  untouched = record { delivered = []; reported = [] }

  pub data Returned : Type 0 where
    returned : Result (Unit {0}) Error → Returned
    panicked : Returned

  abbrev pub Callback : Type 0
  Callback = List Fetched → Fetched → Returned

  abbrev pub failed : Attempts → Error → Trace → Trace
  failed attempts error t =
      if is_reporting attempts then record t { reported = error ∷ t.reported } else t

  -- A callback that panics is one that failed.
  unfoldable pub caught : Returned → Text → Result (Unit {0}) Error
  caught (returned answer) described = answer
  caught panicked described =
      err (e.remote (described ++ text ": the watch callback panicked; the watch is stopped"))

  unfoldable pub guarded : Callback → Fetched → Text → Trace → Trace × Result (Unit {0}) Error
  unfolding caught
  guarded on_change document described t = (
    record t { delivered = document ∷ t.delivered },
    caught (on_change t.delivered document) described,
  )
