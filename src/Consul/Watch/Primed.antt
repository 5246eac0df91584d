-- ===== src/Consul/Watch/Primed.antt =====
-- How a watch begins, and what it does not deliver.
use dynamic_config_remote.Common.{
  ℕ, ◌≡◌, ◌⊎◌, Bool, true, false, List, [], ◌∷◌, Option, none, some, Text, Result, ok, err,
}
use dynamic_config_remote.Engine.{Engine, Documents}
use dynamic_config_remote.Store.Attempts.{Callback}
use dynamic_config_remote.Consul.{Agent, Consul}
use dynamic_config_remote.Consul.Entries.{Decoder, watched_text}
use dynamic_config_remote.Consul.Watch.{Answered, blocking_read, next_index, Watched}

module _ (e : Engine) (latest : ℕ) (decoder : Decoder) (d : Documents e) (on_change : Callback e d)
    (recurse : Bool) (format : e.Format) where
  open e use {Error}
  open d use {Fetched}

  abbrev W : Type 0
  W = Watched e latest decoder d on_change recurse format

  -- An answer that holds no document: the query fails, or the key holds nothing.
  abbrev pub FindsNothing : Consul e → ℕ → Agent → Type 0
  FindsNothing c index a =
      let read = blocking_read e latest decoder c a index in
      ((error : Error) × (read.1 ≡ err error))
      ⊎ ((answered : Answered) × (read.1 ≡ ok answered)
          × (watched_text e latest decoder d read.0 recurse format answered.entries ≡ ok none))

  -- An answer of which this is made: a text, nothing, or the error that it cannot become a document.
  abbrev pub Finds : Consul e → ℕ → Agent → Result (Option Text) Error → Type 0
  Finds c index a found =
      let read = blocking_read e latest decoder c a index in
      (answered : Answered) × (read.1 ≡ ok answered)
      × (watched_text e latest decoder d read.0 recurse format answered.entries ≡ found)

  -- The index that the next query sends.
  abbrev pub index_after : ℕ → Result Answered Error → ℕ
  index_after index (err error) = index
  index_after index (ok answered) = next_index e latest decoder index answered.index

  -- None of these queries finds a document.
  abbrev pub NoneFinds : Consul e → ℕ → List Agent → Type 0
  NoneFinds c index [] = Unit
  NoneFinds c index (a ∷ rounds) =
      let read = blocking_read e latest decoder c a index in
      FindsNothing c index a × NoneFinds read.0 (index_after index read.1) rounds

  abbrev IsPriming : W → Type 0
  IsPriming w = (w.priming ≡ true) × (w.trace.delivered ≡ [])

  -- What a round makes of what its query finds, where no document was found before: a text is what the
  -- next one is compared with.
  abbrev pub Remembers : W → Agent → W → Type 0
  Remembers w a after =
      FindsNothing w.source w.index a
      ⊎ (((error : Error) × Finds w.source w.index a (err error))
          ⊎ ((t : Text) × Finds w.source w.index a (ok (some t))
              × (after.last ≡ some t)
              × (after.priming ≡ false)))
