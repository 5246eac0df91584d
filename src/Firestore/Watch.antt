-- ===== src/Firestore/Watch.antt =====
-- dynamic-config-firestore/src/lib.rs, `Firestore::watch`: a document that is followed by its
-- `updateTime`.
--
-- Each round of the loop is what its request meets; the end of the list is where the watch is
-- stopped.
use dynamic_config_remote.Common.{
  ℕ, List, [], ◌∷◌, Option, none, some, Text, text, text_eq, if◌then◌else◌, Result, ok, err, ◌>>=◌,
}
use dynamic_config_remote.Engine.{Engine, Documents}
use dynamic_config_remote.Json.{Json}
use dynamic_config_remote.Store.Attempts.{Trace, Callback, failed, guarded}
use dynamic_config_remote.Firestore.{Firestore, describe, complaint}
use dynamic_config_remote.Firestore.Session.{Meets, call}
use dynamic_config_remote.Firestore.Documents.{section_of, single_path}

module _ (e : Engine) (to_text : Json → Text) (latest : ℕ) (d : Documents e)
    (opaque : Text → d.Revision) (json : e.Format) (on_change : Callback e d) where
  open e use {Error}
  open d use {Fetched}

  -- `read`: the document and its time, which is an opaque revision.
  unfoldable pub read : Firestore → Meets → Firestore × Result (Fetched × Option Text) Error
  unfolding single_path call section_of
  read f m = elim (single_path e to_text f) [
    | err error ↦ (f, err error)
    | ok p ↦
        let (after, answer) = call e latest f m in
        (
          after,
          answer >>= λ body. section_of e to_text f body p >>= λ s.
              ok (elim s.1 as (λ o. Fetched × Option Text) [
                | some updated ↦
                    (d.with_revision (opaque updated) (d.fetched s.0 json), some updated)
                | none ↦ (d.fetched s.0 json, none)
              ]),
        )
  ]

  pub record Watched : Type 0 where
    pub source : Firestore
    pub seen : Option Text
    pub trace : Trace e d

  abbrev pub report : Watched → Error → Watched
  report w error = record w { trace = failed e d w.source.attempts error w.trace }

  unfoldable pub deliver : Watched → Fetched → Watched × Result (Unit {0}) Error
  unfolding guarded describe
  deliver w document =
      let (trace, answer) = guarded e d on_change document (describe w.source) w.trace in
      (record w { trace = trace }, answer)

  -- A document and its time. The first one is recorded and delivers nothing.
  unfoldable pub on_time : Watched → Fetched → Text → Watched × Result (Unit {0}) Error
  unfolding deliver text_eq
  on_time w document updated =
      let after : Watched = record w { seen = some updated } in
      let delivered = deliver after document in
      elim w.seen [
        | none ↦ (after, ok tt)
        | some seen ↦ if text_eq seen updated then (w, ok tt) else delivered
      ]

  -- No change of a document without a time would ever be seen.
  unfoldable pub on_document : Watched → Fetched → Option Text → Watched × Result (Unit {0}) Error
  unfolding on_time complaint
  on_document w document (some updated) = on_time w document updated
  on_document w document none =
      let error = complaint e w.source (
        text
          "the document has no `updateTime`, so changes cannot be detected; is this a real Firestore?") in
      (report w error, err error)

  unfoldable pub on_round : Watched → Meets → Watched × Result (Unit {0}) Error
  unfolding read on_document
  on_round w round =
      let (source, answer) = read w.source round in
      let after : Watched = record w { source = source } in
      elim answer [
        | err error ↦ (report after error, ok tt)
        | ok (document, updated) ↦ on_document after document updated
      ]

  unfoldable pub follow : Watched → List Meets → Watched × Result (Unit {0}) Error
  unfolding on_round
  follow w [] = (w, ok tt)
  follow w (round ∷ rounds) =
      let (after, ended) = on_round w round in
      let rest = follow after rounds in elim ended [ err error ↦ (after, err error) | ok _ ↦ rest ]

  unfoldable pub watch : Firestore → List Meets → Trace e d → Trace e d × Result (Unit {0}) Error
  unfolding single_path follow
  watch f rounds trace = elim (single_path e to_text f) [
    | err error ↦ (trace, err error)
    | ok p ↦
        let (after, answer) = follow (record { source = f; seen = none; trace = trace }) rounds in
        (after.trace, answer)
  ]
