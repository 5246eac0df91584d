-- ===== src/Server/Generations/Ascent.antt =====
-- A connection hears of every generation it has to, and of none twice.
use dynamic_config_remote.Common.{
  ℕ, ◌^◌, trim-decimal, parse_unsigned-decimal, ◌<◌, ◌≡◌, ◌≢◌, refl, true, false, List, [], ◌∷◌,
  Option, none, some, All, arith, Option-cases, Bool-cases, inl, inr, subst, sym, ◌⊎◌, ◌↔◌, ◌++◌,
}
use dynamic_config_remote.Server.Generations.{
  Generations, Event, Look, is_news, event_of, poll_next, events, last_event_id,
}

-- A generation that may follow what was sent, and what the client said it holds.
abbrev pub Follows : Option ℕ → Option ℕ → ℕ → Type 0
Follows (some sent) resume generation = sent < generation
Follows none resume generation = (0 < generation) × (resume ≢ some generation)

abbrev pub Ascends : Option ℕ → Option ℕ → List Event → Type 0
Ascends sent resume [] = Unit
Ascends sent resume (e ∷ es) =
    Follows sent resume e.generation × Ascends (some e.generation) resume es

is_news-Follows :
    (g : Generations) (generation : ℕ)
    → (is_news g generation ≡ true) ↔ Follows g.sent g.resume generation
unfolding is_news
is_news-Follows g generation = elim (Option-cases g.sent) [
  | inl opening ↦ elim (Option-cases g.resume) [
    | inl fresh ↦ rw (opening, fresh) (λ h. ground arith, λ h. ground arith)
    | inr (resumed, claimed) ↦ rw (opening, claimed) (λ h. ground arith, λ h. ground arith)
  ]
  | inr (sent, later) ↦ rw later (λ h. ground arith, λ h. ground arith)
]

-- What one poll does: an event is of a generation that was looked at and may follow, and is the last
-- thing sent from then on; with no event nothing that was looked at may follow.
poll_next_lem :
    (g : Generations) (looks : List Look)
    → ((poll_next g looks ≡ (g, none)))
      ⊎ ((generation : ℕ) × (poll_next g looks
            ≡ (record g { sent = some generation }, some (event_of g generation)))
          × Follows g.sent g.resume generation)
unfolding poll_next
poll_next_lem g [] = inl refl
poll_next_lem g (look ∷ looks) = elim (Bool-cases (is_news g look.generation)) [
  | inl news ↦ inr (look.generation, ground arith, (is_news-Follows g look.generation).0 news)
  | inr old ↦ elim (Bool-cases look.changed) [
    | inl changed ↦ rw (old, changed) (poll_next_lem g looks)
    | inr still ↦ inl (ground arith)
  ]
]

-- On one connection the first event is of a generation that is not zero and not the one that the client
-- said it holds, and every later one is of a greater generation than the one before it.
pub events-Ascends :
    (g : Generations) (wakes : List (List Look)) → Ascends g.sent g.resume (events g wakes)
unfolding events
events-Ascends g [] = tt
events-Ascends g (looks ∷ wakes) = elim (poll_next_lem g looks) [
  | inl quiet ↦ onward quiet (events-Ascends g wakes)
  | inr (generation, sent, follows) ↦
      onward sent (follows, events-Ascends (record g { sent = some generation }) wakes)
]
  where
    onward :
        {r : Generations × Option Event}
        → poll_next g looks ≡ r
        → Ascends g.sent g.resume
            (elim r.1 [ none ↦ events r.0 wakes | some event ↦ event ∷ events r.0 wakes ])
        → Ascends g.sent g.resume (events g (looks ∷ wakes))
    onward e later =
        subst
          (λ r.
            Ascends g.sent g.resume
              (elim r.1 [ none ↦ events r.0 wakes | some event ↦ event ∷ events r.0 wakes ]))
          (sym e) later

-- A generation that the connection has to hear of goes out in the first round that sees it: polling
-- ends without an event only where nothing that it looked at was news.
pub poll_next_misses_nothing :
    (g : Generations) (seen : List Look) (look : Look) (looks : List Look)
    → All (λ l. (l.changed ≡ true) × (is_news g l.generation ≡ false)) seen
    → Follows g.sent g.resume look.generation
    → (poll_next g (seen ++ look ∷ looks)).1 ≡ some (event_of g look.generation)
unfolding poll_next
poll_next_misses_nothing g [] look looks h follows =
    let news = (is_news-Follows g look.generation).1 follows in ground arith
poll_next_misses_nothing g (l ∷ seen) look looks ((changed, old), h) follows =
    let later = poll_next_misses_nothing g seen look looks h follows in ground arith

-- The id of an event, sent back as `Last-Event-ID`, is the generation of the event.
pub last_event_id-event_of :
    (g : Generations) (generation : ℕ)
    → generation < 2 ^ 64
    → last_event_id (some (event_of g generation).id) ≡ some generation
unfolding last_event_id event_of
last_event_id-event_of g generation below =
    rw (trim-decimal generation) (parse_unsigned-decimal (2 ^ 64) generation below)
