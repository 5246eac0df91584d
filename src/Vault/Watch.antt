-- ===== src/Vault/Watch.antt =====
-- dynamic-config-vault/src/lib.rs, `Vault::watch`: a secret that is followed by its version counter.
--
-- Each round of the loop is what its two requests meet, and the wall clock; the end of the list is
-- where the watch is stopped. How long a round waits is `Pace`'s, of the crate dynamic-config.
pub mod Seen
use mathlib.Core.Option
use dynamic_config_remote.Common.{
  ℕ, Bool, true, false, List, [], ◌∷◌, Option, none, some, Text, ◌==◌, if◌then◌else◌, Result, ok,
  err,
}
use dynamic_config_remote.Engine.{Engine, Documents}
use dynamic_config_remote.Json.{Json}
use dynamic_config_remote.Store.Attempts.{Attempts, Trace, Callback, failed, guarded}
use dynamic_config_remote.Vault.Secrets.{Granted, describe, single_path}
use dynamic_config_remote.Vault.Requests.{Meets, Vault}
use dynamic_config_remote.Vault.Reads.{CheckError, not_kv2, transient, current_version, read}

pub record Round : Type 0 where
  pub checking : Meets
  pub reading : Meets
  pub now : ℕ

module _ (e : Engine) (to_text : Json → Text) (latest : ℕ) (d : Documents e)
    (lease : Granted → d.Lease) (json : e.Format) (on_change : Callback e d)
    (attempts : Attempts) where
  open e use {Error}
  open d use {Fetched}

  pub record Watched : Type 0 where
    pub source : Vault e to_text latest
    pub seen : Option ℕ
    pub trace : Trace e d

  abbrev pub report : Watched → Error → Watched
  report w error = record w { trace = failed e d attempts error w.trace }

  unfoldable pub deliver : Watched → Fetched → Watched × Result (Unit {0}) Error
  unfolding guarded describe
  deliver w document =
      let (trace, answer) =
        guarded e d on_change document (describe e to_text w.source.place) w.trace in
      (record w { trace = trace }, answer)

  -- The counter moved. What was seen is taken from the read, and stays where it was if that fails.
  unfoldable pub on_move : Watched → Round → Watched × Result (Unit {0}) Error
  unfolding read deliver
  on_move w round =
      let (source, answer) = read e to_text latest d lease json round.now w.source round.reading in
      let after : Watched = record w { source = source } in
      elim answer [
        | err error ↦ (report after error, ok tt)
        | ok (document, version) ↦ deliver (record after { seen = some version }) document
      ]

  -- The counter of a check. The first one is recorded and delivers nothing.
  unfoldable pub on_version : Watched → Round → ℕ → Watched × Result (Unit {0}) Error
  unfolding on_move
  on_version w round version =
      let moved = on_move w round in
      elim w.seen [
        | none ↦ (record w { seen = some version }, ok tt)
        | some seen ↦ if seen == version then (w, ok tt) else moved
      ]

  unfoldable pub on_round : Watched → Round → Watched × Result (Unit {0}) Error
  unfolding current_version on_version
  on_round w round =
      let (source, answer) = current_version e to_text latest w.source round.checking in
      let after : Watched = record w { source = source } in
      elim answer [
        | ok version ↦ on_version after round version
        | err (not_kv2 error) ↦ (report after error, err error)
        | err (transient error) ↦ (report after error, ok tt)
      ]

  unfoldable pub follow : Watched → List Round → Watched × Result (Unit {0}) Error
  unfolding on_round
  follow w [] = (w, ok tt)
  follow w (round ∷ rounds) =
      let (after, ended) = on_round w round in
      let rest = follow after rounds in elim ended [ err error ↦ (after, err error) | ok _ ↦ rest ]

  -- `watch`: a source of several paths is refused, and nothing is reported.
  unfoldable pub watch :
      Vault e to_text latest → List Round → Trace e d → Trace e d × Result (Unit {0}) Error
  unfolding single_path follow
  watch v rounds trace = elim (single_path e to_text v.place) [
    | err error ↦ (trace, err error)
    | ok p ↦
        let (after, answer) = follow (record { source = v; seen = none; trace = trace }) rounds in
        (after.trace, answer)
  ]
