-- ===== src/Consul/Watch/Changing.antt =====
-- What a watch delivers.
use dynamic_config_remote.Common.{
  ℕ, ◌≡◌, inl, inr, refl, sym, ◌∙◌, subst, Bool, true, false, List, [], ◌∷◌, Option, none, some,
  Text, text_eq, text_eq_iff, ap, Result-cases, Bool-cases,
}
use dynamic_config_remote.Engine.{Engine, Documents}
use dynamic_config_remote.Store.Attempts.{Callback, untouched, guarded}
use dynamic_config_remote.Store.Attempts.Traces.{delivered-failed}
use dynamic_config_remote.Consul.{Agent, Consul}
use dynamic_config_remote.Consul.Entries.{Decoder, watched_text}
use dynamic_config_remote.Consul.Watch.{
  Answered, blocking_read, next_index, Watched, report, is_last, deliver, on_text, on_answer,
  on_round, follow, at_start,
}

module _ (e : Engine) (latest : ℕ) (decoder : Decoder) (d : Documents e) (on_change : Callback e d)
    (recurse : Bool) (format : e.Format) where
  open e use {Error}
  open d use {Fetched}

  abbrev W : Type 0
  W = Watched e latest decoder d on_change recurse format

  -- No two documents that were delivered one after the other have the same text.
  abbrev pub Changing : List Fetched → Type 0
  Changing [] = Unit
  Changing (x ∷ []) = Unit
  Changing (x ∷ y ∷ xs) = (text_eq (d.text_of y) (d.text_of x) ≡ false) × Changing (y ∷ xs)

  -- What was delivered last is what the next text is compared with.
  abbrev IsCurrent : Bool → Option Text → List Fetched → Type 0
  IsCurrent priming seen [] = Unit
  IsCurrent priming seen (x ∷ xs) =
      (priming ≡ false) × (seen ≡ some (d.text_of x)) × Changing (x ∷ xs)

  abbrev Holds : W → Type 0
  Holds w = IsCurrent w.priming w.last w.trace.delivered

  report-Holds :
      (w : W) (error : Error)
      → Holds w
      → Holds (report e latest decoder d on_change recurse format w error)
  report-Holds w error h =
      subst (IsCurrent w.priming w.last)
        (sym (delivered-failed e d w.source.attempts error w.trace)) h

  text_delivered :
      (t : Text) (index : ℕ)
      → d.text_of (d.with_revision (d.counter index) (d.fetched t format)) ≡ t
  text_delivered t index = d.text-with_revision _ _ ∙ d.text-fetched t format

  Changing-cons :
      (xs : List Fetched) (t : Text) (x : Fetched) (seen : Option Text)
      → d.text_of x ≡ t
      → IsCurrent false seen xs
      → is_last e latest decoder d on_change recurse format seen t ≡ false
      → Changing (x ∷ xs)
  Changing-cons [] t x seen same h new = tt
  Changing-cons (y ∷ xs) t x seen same (primed, saw, changing) new = (
    subst (λ u. text_eq (d.text_of y) u ≡ false) (sym same)
        (subst (λ o. is_last e latest decoder d on_change recurse format o t ≡ false) saw new),
    changing,
  )

  undelivered : (seen : Option Text) (xs : List Fetched) → IsCurrent true seen xs → xs ≡ []
  undelivered seen [] h = refl
  undelivered seen (x ∷ xs) (primed, saw, changing) = cc

  seen_again :
      (o : Option Text) (t : Text)
      → is_last e latest decoder d on_change recurse format o t ≡ true
      → o ≡ some t
  seen_again none t h = cc
  seen_again (some s) t h = ap some ((text_eq_iff s t).0 h)

  on_text-Holds :
      (w : W) (t : Text)
      → Holds w
      → Holds (on_text e latest decoder d on_change recurse format w t).0
  unfolding on_text deliver guarded
  on_text-Holds w t h = elim (Bool-cases w.priming) [
    | inl priming ↦
        let nothing =
          undelivered w.last w.trace.delivered
            (subst (λ b. IsCurrent b w.last w.trace.delivered) priming h) in
        rw (on_text, priming) (subst (IsCurrent false (some t)) (sym nothing) tt)
    | inr primed ↦
        let current = subst (λ b. IsCurrent b w.last w.trace.delivered) primed h in
        elim (Bool-cases (is_last e latest decoder d on_change recurse format w.last t)) [
          | inl same ↦
              rw (on_text, primed, same)
                (subst (λ o. IsCurrent false o w.trace.delivered) (seen_again w.last t same)
                  current)
          | inr new ↦
              let said = text_delivered t w.index in
              rw (on_text, primed, new)
                (
                  refl,
                  ap some (sym said),
                  Changing-cons w.trace.delivered t _ w.last said current new,
                )
        ]
  ]

  on_answer-Holds :
      (w : W) (answered : Answered)
      → Holds w
      → Holds (on_answer e latest decoder d on_change recurse format w answered).0
  unfolding on_answer
  on_answer-Holds w answered h =
      let at : W = record w { index = next_index e latest decoder w.index answered.index } in
      elim (Result-cases
        (watched_text e latest decoder d w.source recurse format answered.entries)) [
          | inr (error, bad) ↦ rw (on_answer, bad) (report-Holds at error h)
          | inl (none, fine) ↦ rw (on_answer, fine) (report-Holds at _ h)
          | inl (some t, fine) ↦ rw (on_answer, fine) (on_text-Holds at t h)
        ]

  on_round-Holds :
      (w : W) (a : Agent)
      → Holds w
      → Holds (on_round e latest decoder d on_change recurse format w a).0
  unfolding on_round
  on_round-Holds w a h =
      let read = blocking_read e latest decoder w.source a w.index in
      let after : W = record w { source = read.0 } in
      elim (Result-cases read.1) [
        | inr (error, bad) ↦ rw (on_round, bad) (report-Holds after error h)
        | inl (answer, fine) ↦ rw (on_round, fine) (on_answer-Holds after answer h)
      ]

  follow-Holds :
      (w : W) (rounds : List Agent)
      → Holds w
      → Holds (follow e latest decoder d on_change recurse format w rounds).0
  unfolding follow
  follow-Holds w [] h = h
  follow-Holds w (a ∷ rounds) h =
      let step = on_round e latest decoder d on_change recurse format w a in
      let after = on_round-Holds w a h in
      elim (Result-cases step.1) [
        | inl (u, on) ↦ rw (follow, on) (follow-Holds step.0 rounds after)
        | inr (error, over) ↦ rw (follow, over) after
      ]

  Holds-Changing :
      (priming : Bool) (seen : Option Text) (xs : List Fetched)
      → IsCurrent priming seen xs
      → Changing xs
  Holds-Changing priming seen [] h = tt
  Holds-Changing priming seen (x ∷ xs) (primed, saw, changing) = changing

  -- Whatever the queries meet, restarts of the agent, failures and deleted keys included, the
  -- callback never has the same text twice in a row.
  pub follow-Changing :
      (c : Consul e) (rounds : List Agent)
      → Changing
          (follow e latest decoder d on_change recurse format
            (at_start e latest decoder d on_change recurse format c (untouched e d))
            rounds).0.trace.delivered
  follow-Changing c rounds =
      let start = at_start e latest decoder d on_change recurse format c (untouched e d) in
      let final = (follow e latest decoder d on_change recurse format start rounds).0 in
      Holds-Changing final.priming final.last final.trace.delivered (follow-Holds start rounds tt)
