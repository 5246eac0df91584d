-- ===== src/Server/Client/Watch/Tests.antt =====
-- Watches, and the theorems at concrete inputs.
use dynamic_config_remote.Common.{
  ℕ, ◌≡◌, ◌⊎◌, refl, Bool, true, false, List, [], ◌∷◌, none, some, Text, text, text_eq,
  split_at_text, strip_prefix, Result, ok, err, arith,
}
use dynamic_config_remote.Engine.Sample.{sample, stored, Stored}
use dynamic_config_remote.Server.Client.Watch.{
  StreamEvent, Watcher, Arrival, closed, broken, arrived, Connection, answered, streaming, is_known,
  on_event, reconnecting, at_start, watch,
}
use dynamic_config_remote.Server.Client.Watch.Delivery.{
  IsCurrent, on_event_resume, reconnecting-IsCurrent,
}
use dynamic_config_remote.Server.Client.Watch.Outage.{IsRefused, IsSettled, every, watch_outlives}

abbrev same : Stored → Stored → Bool
same x y = text_eq x.body y.body

abbrev fresh : Watcher sample stored same
fresh = record { resume = none; last = none; delivered = []; reported = [] }

abbrev body : ℕ → Stored
body c = record { body = c ∷ []; format = b'j'; revision = none; lease = none }

abbrev event : ℕ → StreamEvent
event id = record { id = some (id ∷ []); «data» = []; carried = true }

abbrev change : ℕ → ℕ → Arrival sample stored same
change id c = arrived (event id) (ok (body c)) (ok tt)

-- The first connection opens at 1 and breaks off after a change; the second one is refused; the third
-- sees the same document once more and then another.
abbrev connections : List (Connection sample stored same)
connections =
    streaming (change 1 b'a' ∷ change 2 b'b' ∷ broken [] ∷ [])
    ∷ answered 401 []
    ∷ streaming (change 3 b'b' ∷ change 4 b'c' ∷ closed ∷ [])
    ∷ []

the_opening_is_not_delivered_and_the_rest_is_once :
    ((reconnecting sample stored same fresh connections).0.delivered ≡ body b'c' ∷ body b'b' ∷ [])
    × ((reconnecting sample stored same fresh connections).0.resume ≡ some (4 ∷ []))
unfolding reconnecting text_eq
the_opening_is_not_delivered_and_the_rest_is_once = (refl, refl)

reconnecting-IsCurrent_example :
    IsCurrent sample stored same (reconnecting sample stored same fresh connections).0
reconnecting-IsCurrent_example =
    reconnecting-IsCurrent sample stored same fresh connections (refl, tt)

abbrev url : Text
url = text "http://config"

abbrev described : Text
described = text "server"

abbrev built : Result (Unit {0}) Text
built = err (text "no roots")

a_url_without_a_scheme_ends_the_watch :
    (watch sample stored same (ok tt) (text "config") described built connections).0.delivered ≡ []
unfolding watch split_at_text strip_prefix text
a_url_without_a_scheme_ends_the_watch = refl

watch_outlives_example :
    ((error : Text) × IsRefused sample stored same (ok tt) url described built error
      × (watch sample stored same (ok tt) url described built connections
          ≡ (at_start sample stored same, err error)))
    ⊎ (IsSettled sample stored same (ok tt) url described built
        × (watch sample stored same (ok tt) url described built connections
            ≡ (every sample stored same (at_start sample stored same) connections, ok tt)))
watch_outlives_example =
    watch_outlives sample stored same (ok tt) url described built connections
      ((refl, (refl, (tt, tt))), ((λ h. omega arith), ((refl, (refl, (tt, tt))), tt)))

on_event_resume_example :
    ((on_event sample stored same false fresh (event 2) (ok (body b'b')) (ok tt)).0.resume ≡ none)
    ⊎ ((◌≡◌ {A = Bool} false true)
        ⊎ ((fetched : Stored) × (◌≡◌ {A = Result Stored Text} (ok (body b'b')) (ok fetched))
            × ((is_known sample stored same none fetched ≡ true)
                ⊎ ((◌≡◌ {A = Result (Unit {0}) Text} (ok tt) (ok tt))
                    × ((on_event sample stored same false fresh
                          (event 2)
                          (ok (body b'b'))
                          (ok tt)).0.delivered
                        ≡ fetched ∷ [])))))
on_event_resume_example =
    on_event_resume sample stored same false fresh (event 2) (ok (body b'b')) (ok tt)
