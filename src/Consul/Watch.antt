-- ===== src/Consul/Watch.antt =====
-- dynamic-config-consul/src/lib.rs, `Consul::watch`: a key or a subtree that is followed by blocking
-- queries.
--
-- Each round of the loop is what its query meets; the end of the list is where the watch is stopped.
-- How long a failed round waits is `Pace`'s, of the crate dynamic-config.
mod Changing
pub mod Primed
use mathlib.Core.Option
use dynamic_config_remote.Common.{
  ℕ, ◌^◌, Bool, true, false, ◌||◌, List, [], ◌∷◌, Option, none, some, Text, text, text_eq, ltb,
  parse_unsigned, if◌then◌else◌, Result, ok, err, ◌>>=◌, map_err,
}
use dynamic_config_remote.Engine.{Engine, Documents}
use dynamic_config_remote.Json.{Json, and_then, unwrap_or}
use dynamic_config_remote.Store.Attempts.{Trace, Callback, failed, guarded}
use dynamic_config_remote.Store.Tls.{TlsConfig}
use dynamic_config_remote.Consul.{
  Reply, Agent, Consul, describe, complaint, settled_format, watched,
}
use dynamic_config_remote.Consul.Session.{get_reply}
use dynamic_config_remote.Consul.Entries.{Decoder, not_json, agent_of, watched_text}

-- `Answered`
pub record Answered : Type 0 where
  pub index : ℕ
  pub entries : List Json

module _ (e : Engine) (latest : ℕ) (decoder : Decoder) where
  open e use {Error, Format}

  -- The index that an answer carries, or the one that was sent.
  unfoldable pub index_of : ℕ → Reply → ℕ
  index_of sent reply = unwrap_or (and_then reply.index_header (parse_unsigned (2 ^ 64))) sent

  unfoldable pub blocking_read : Consul e → Agent → ℕ → Consul e × Result Answered Error
  unfolding get_reply index_of complaint
  blocking_read c a sent =
      let (after, answered) = get_reply e latest c a in
      (
        after,
        answered >>= λ reply. map_err (not_json e latest decoder c) reply.body >>= λ entries.
            ok (record { index = index_of sent reply; entries = entries }),
      )

  -- An index that went backwards is a restart, and is not waited on.
  abbrev pub next_index : ℕ → ℕ → ℕ
  next_index index answered = if ltb answered index then 0 else answered

  module _ (d : Documents e) (on_change : Callback e d) (recurse : Bool) (format : Format) where
    open d use {Fetched}

    pub record Watched : Type 0 where
      pub source : Consul e
      pub index : ℕ
      pub last : Option Text
      pub priming : Bool
      pub trace : Trace e d

    abbrev pub report : Watched → Error → Watched
    report w error = record w { trace = failed e d w.source.attempts error w.trace }

    abbrev pub is_last : Option Text → Text → Bool
    is_last none t = false
    is_last (some seen) t = text_eq seen t

    unfoldable pub deliver : Watched → Text → Watched × Result (Unit {0}) Error
    unfolding guarded describe
    deliver w t =
        let document = d.with_revision (d.counter w.index) (d.fetched t format) in
        let (trace, answer) = guarded e d on_change document (describe e w.source) w.trace in
        (record w { trace = trace }, answer)

    -- The text of an answer: the first one primes the comparison and is delivered to nobody.
    unfoldable pub on_text : Watched → Text → Watched × Result (Unit {0}) Error
    unfolding deliver
    on_text w t =
        let after : Watched = record w { last = some t; priming = false } in
        if w.priming || is_last w.last t then (after, ok tt) else deliver after t

    -- An answer that came: what cannot become a document ends the watch, and a key that holds
    -- nothing is a failed attempt.
    unfoldable pub on_answer : Watched → Answered → Watched × Result (Unit {0}) Error
    unfolding on_text watched_text complaint
    on_answer w answered =
        let at : Watched = record w { index = next_index w.index answered.index } in
        elim (watched_text e latest decoder d w.source recurse format answered.entries) [
          | err error ↦ (report at error, err error)
          | ok found ↦ elim found [
            | none ↦
                (report at (complaint e w.source (text "the watched key holds no value")), ok tt)
            | some t ↦ on_text at t
          ]
        ]

    unfoldable pub on_round : Watched → Agent → Watched × Result (Unit {0}) Error
    unfolding on_answer blocking_read
    on_round w a =
        let (source, answered) = blocking_read w.source a w.index in
        let after : Watched = record w { source = source } in
        elim answered [
          | err error ↦ (report after error, ok tt)
          | ok answer ↦ on_answer after answer
        ]

    unfoldable pub follow : Watched → List Agent → Watched × Result (Unit {0}) Error
    unfolding on_round
    follow w [] = (w, ok tt)
    follow w (round ∷ rounds) =
        let (after, ended) = on_round w round in
        let rest = follow after rounds in
        elim ended [ err error ↦ (after, err error) | ok _ ↦ rest ]

    abbrev pub at_start : Consul e → Trace e d → Watched
    at_start c trace = record { source = c; index = 0; last = none; priming = true; trace = trace }

  -- What refuses the source itself, before the agent is asked anything.
  unfoldable pub checked :
      Consul e → (TlsConfig → Result (Unit {0}) Error) → Result (Format × Bool) Error
  unfolding settled_format watched agent_of
  checked c build = do
    format ← settled_format e c
    followed ← watched e c
    _ ← agent_of e latest decoder c build
    ok (format, followed.1)

  module _ (d : Documents e) (on_change : Callback e d) where
    -- `watch`: a refusal of the source is returned and not reported.
    unfoldable pub watch :
        Consul e
        → (TlsConfig → Result (Unit {0}) Error)
        → List Agent
        → Trace e d
        → Trace e d × Result (Unit {0}) Error
    unfolding checked follow
    watch c build rounds trace = elim (checked c build) [
      | err error ↦ (trace, err error)
      | ok (format, recurse) ↦
          let (after, answer) =
            follow d on_change recurse format (at_start d on_change recurse format c trace)
              rounds in
          (after.trace, answer)
    ]
