-- ===== src/Server/Generations/Tests.antt =====
-- Connections of a change stream, and the theorems at concrete inputs.
use dynamic_config_remote.Common.{ℕ, ◌≡◌, refl, false, List, [], ◌∷◌, Option, none, some, text, map}
use dynamic_config_remote.Server.Generations.{Generations, Look, is_news, events}
use dynamic_config_remote.Server.Generations.Ascent.{Ascends, events-Ascends}

abbrev resuming : Option ℕ → Generations
resuming resume = record {
  application = text "billing";
  profile = text "prod";
  sent = none;
  resume = resume;
}

abbrev saw : ℕ → Look
saw generation = record { generation = generation; changed = false }

abbrev sent : Option ℕ → List ℕ → List ℕ
sent resume generations =
    map (λ e. e.generation) (events (resuming resume) (map (λ g. saw g ∷ []) generations))

-- A client that says nothing hears where it stands; a generation is told once; one that comes back to
-- a process that has started over hears of it.
a_client_hears_of_each_generation_once :
    (sent none (0 ∷ 3 ∷ 3 ∷ 5 ∷ []) ≡ 3 ∷ 5 ∷ [])
    × (sent (some 3) (3 ∷ 4 ∷ []) ≡ 4 ∷ [])
    × (sent (some 50) (1 ∷ 2 ∷ []) ≡ 1 ∷ 2 ∷ [])
unfolding events
a_client_hears_of_each_generation_once = (refl, refl, refl)

events-Ascends_example :
    Ascends none (some 3) (events (resuming (some 3)) ((saw 3 ∷ []) ∷ (saw 4 ∷ []) ∷ []))
events-Ascends_example = events-Ascends (resuming (some 3)) ((saw 3 ∷ []) ∷ (saw 4 ∷ []) ∷ [])

three_is_old : is_news (resuming (some 3)) 3 ≡ false
unfolding is_news
three_is_old = refl
