-- ===== src/S3/Watch.antt =====
-- dynamic-config-s3/src/lib.rs, `S3::watch`: an object that is followed by its tag.
--
-- Each round of the loop is what its two requests are answered with; the end of the list is where
-- the watch is stopped. How long a round waits is `Pace`'s, of the crate dynamic-config.
pub mod Seen
use mathlib.Core.Option
use dynamic_config_remote.Common.{
  ℕ, ◌+◌, ◌-◌, Bool, true, false, List, [], ◌∷◌, Option, none, some, Text, text_eq, ltb,
  if◌then◌else◌, Result, ok, err, ◌>>=◌,
}
use dynamic_config_remote.Engine.{Engine, Documents}
use dynamic_config_remote.Store.Attempts.{Trace, Callback, failed, guarded}
use dynamic_config_remote.S3.{Bucket, Source, describe, settled_format, single_key}
use dynamic_config_remote.S3.Reads.{etag, read}

pub record Round : Type 0 where
  pub checking : Bucket
  pub reading : Bucket

-- `current.or(Some(tag))`
abbrev pub tag_or : Option Text → Text → Option Text
tag_or (some current) tag = some current
tag_or none tag = some tag

module _ (e : Engine) (from_utf8 : List ℕ → Result Text Text) (d : Documents e)
    (opaque : Text → d.Revision) (on_change : Callback e d) (s : Source e from_utf8) where
  open e use {Error}
  open d use {Fetched}

  pub record Watched : Type 0 where
    pub seen : Option Text
    pub trace : Trace e d

  abbrev pub report : Watched → Error → Watched
  report w error = record w { trace = failed e d s.attempts error w.trace }

  unfoldable pub deliver : Watched → Fetched → Watched × Result (Unit {0}) Error
  unfolding guarded describe
  deliver w document =
      let (trace, answer) = guarded e d on_change document (describe e from_utf8 s) w.trace in
      (record w { trace = trace }, answer)

  -- The tag moved. What was seen is taken from the read, and stays where it was if that fails.
  unfoldable pub on_move : Watched → Round → Text → Watched × Result (Unit {0}) Error
  unfolding read deliver
  on_move w round tag = elim (read e from_utf8 d opaque s round.reading) [
    | err error ↦ (report w error, ok tt)
    | ok (document, current) ↦ deliver (record w { seen = tag_or current tag }) document
  ]

  -- The tag of a check. The first one is recorded and delivers nothing.
  unfoldable pub on_tag : Watched → Round → Text → Watched × Result (Unit {0}) Error
  unfolding on_move text_eq
  on_tag w round tag =
      let moved = on_move w round tag in
      elim w.seen [
        | none ↦ (record w { seen = some tag }, ok tt)
        | some seen ↦ if text_eq seen tag then (w, ok tt) else moved
      ]

  unfoldable pub on_round : Watched → Round → Watched × Result (Unit {0}) Error
  unfolding etag on_tag
  on_round w round = elim (etag e from_utf8 s round.checking) [
    | ok tag ↦ on_tag w round tag
    | err error ↦ (report w error, ok tt)
  ]

  unfoldable pub follow : Watched → List Round → Watched × Result (Unit {0}) Error
  unfolding on_round
  follow w [] = (w, ok tt)
  follow w (round ∷ rounds) =
      let (after, ended) = on_round w round in
      let rest = follow after rounds in elim ended [ err error ↦ (after, err error) | ok _ ↦ rest ]

  -- What refuses the source itself, before the bucket is asked anything.
  unfoldable pub checked : Result (Unit {0}) Error
  unfolding settled_format single_key
  checked = do _ ← settled_format e from_utf8 s; _ ← single_key e from_utf8 s; ok tt

  unfoldable pub watch : List Round → Trace e d → Trace e d × Result (Unit {0}) Error
  unfolding checked follow
  watch rounds trace = elim checked [
    | err error ↦ (trace, err error)
    | ok _ ↦
        let (after, answer) = follow (record { seen = none; trace = trace }) rounds in
        (after.trace, answer)
  ]
