-- ===== src/Nats/Watch.antt =====
-- dynamic-config-nats/src/lib.rs, `Nats::watch`: the entries that a bucket streams for a key.
pub mod Written
use mathlib.Core.Option
use dynamic_config_remote.Common.{
  ℕ, Bool, true, false, List, [], ◌∷◌, ◌++◌, Option, none, some, Text, text, if◌then◌else◌, Result,
  ok, err, ◌>>=◌, map_err,
}
use dynamic_config_remote.Engine.{Engine, Documents}
use dynamic_config_remote.Store.Attempts.{Attempts, Trace, Callback, failed, guarded}
use dynamic_config_remote.Nats.{Nats, describe, complaint, settled_format, single_key}

-- `Operation`
pub data Operation : Type 0 where
  put delete purge : Operation

pub record Entry : Type 0 where
  pub operation : Operation
  pub value : List ℕ
  pub revision : ℕ

module _ (e : Engine) (from_utf8 : List ℕ → Result Text Text) (debug_duration : ℕ → Text)
    (d : Documents e) (on_change : Callback e d) (n : Nats e from_utf8 debug_duration) where
  open e use {Error, Format}

  abbrev pub Ended : Type 0
  Ended = Trace e d × Result (Unit {0}) Error

  -- `failing`: the error is reported and returned.
  abbrev pub failing : Trace e d → Error → Ended
  failing trace error = (failed e d n.attempts error trace, err error)

  unfoldable pub document : Format → Text → ℕ → d.Fetched
  document format body revision = d.with_revision (d.counter revision) (d.fetched body format)

  unfoldable pub on_put : Format → Trace e d → Entry → Ended
  unfolding document guarded complaint describe
  on_put format trace entry = elim (from_utf8 entry.value) [
    | err error ↦
        failing trace
          (complaint e from_utf8 debug_duration n (text "the value is not UTF-8: " ++ error))
    | ok body ↦
        guarded e d on_change (document format body entry.revision)
          (describe e from_utf8 debug_duration n) trace
  ]

  -- One item of the stream: an entry that puts nothing is passed over.
  unfoldable pub on_entry : Format → Trace e d → Result Entry Text → Ended
  unfolding on_put complaint
  on_entry format trace (err error) =
      failing trace (complaint e from_utf8 debug_duration n (text "the watch failed: " ++ error))
  on_entry format trace (ok entry) = elim entry.operation [
    | put ↦ on_put format trace entry
    | delete ↦ (trace, ok tt)
    | purge ↦ (trace, ok tt)
  ]

  -- The end of the list is the end of the stream, which is a failure.
  unfoldable pub follow : Format → Trace e d → List (Result Entry Text) → Ended
  unfolding on_entry complaint
  follow format trace [] =
      failing trace
        (complaint e from_utf8 debug_duration n (text "the watch ended; the stream was closed"))
  follow format trace (entry ∷ entries) =
      let (after, ended) = on_entry format trace entry in
      let rest = follow format after entries in
      elim ended [ err error ↦ (after, err error) | ok _ ↦ rest ]

  -- What refuses the source itself, before the store is asked anything.
  unfoldable pub checked : Result Format Error
  unfolding settled_format single_key
  checked = do
    format ← settled_format e from_utf8 debug_duration n
    _ ← single_key e from_utf8 debug_duration n
    ok format

  unfoldable pub watch : Result (List (Result Entry Text)) Text → Trace e d → Ended
  unfolding checked follow complaint
  watch opened trace = elim checked [
    | err error ↦ (trace, err error)
    | ok format ↦ elim opened [
      | err error ↦
          failing trace (complaint e from_utf8 debug_duration n (text "cannot watch: " ++ error))
      | ok entries ↦ follow format trace entries
    ]
  ]
