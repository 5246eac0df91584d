-- ===== src/Server/Generations.antt =====
-- dynamic-config-server/src/routes/stream.rs, `Generations`: the events of one connection.
--
-- Each round of the loop of `poll_next` looks at the section once: it reads the generation, and polls
-- the cell for a change. Polling ends with an event or with `Pending`, and the body's owner polls again
-- when it is woken.
pub mod Ascent
mod Tests
use dynamic_config_remote.Common.{
  ℕ, ◌^◌, Bool, true, false, not, List, [], ◌∷◌, Option, none, some, Text, text, trim,
  parse_unsigned, decimal, ltb, ◌==◌, if◌then◌else◌,
}

-- `section` and `changes` are handles of the same cell, which answers with the looks.
pub record Generations : Type 0 where
  pub application : Text
  pub profile : Text
  pub sent : Option ℕ
  pub resume : Option ℕ

pub record Event : Type 0 where
  pub id : Text
  pub event : Text
  pub application : Text
  pub profile : Text
  pub generation : ℕ

unfoldable pub last_event_id : Option Text → Option ℕ
last_event_id none = none
last_event_id (some value) = parse_unsigned (2 ^ 64) (trim value)

unfoldable pub is_news : Generations → ℕ → Bool
is_news g generation = if generation == 0 then false else elim g.sent [
  | some sent ↦ ltb sent generation
  | none ↦ elim g.resume [ some resumed ↦ not (generation == resumed) | none ↦ true ]
]

unfoldable pub event_of : Generations → ℕ → Event
event_of g generation = record {
  id = decimal generation;
  event = text "generation";
  application = g.application;
  profile = g.profile;
  generation = generation;
}

pub record Look : Type 0 where
  pub generation : ℕ
  pub changed : Bool

-- Nobody looks after the last of the looks.
unfoldable pub poll_next : Generations → List Look → Generations × Option Event
unfolding is_news event_of
poll_next g [] = (g, none)
poll_next g (look ∷ looks) =
    let rest = poll_next g looks in
    if is_news g look.generation
    then (record g { sent = some look.generation }, some (event_of g look.generation))
    else if look.changed
    then rest
    else (g, none)

-- A connection, from one wake-up to the next.
unfoldable pub events : Generations → List (List Look) → List Event
unfolding poll_next
events g [] = []
events g (looks ∷ wakes) =
    let (after, polled) = poll_next g looks in
    elim polled [ none ↦ events after wakes | some event ↦ event ∷ events after wakes ]
