-- ===== src/Store/Transform/Tests.antt =====
-- The unit tests of transform.rs, and the theorem at a concrete input.
use dynamic_config_remote.Common.{◌≡◌, refl, [], ◌∷◌, some, Text, text, ok, err}
use dynamic_config_remote.Engine.Sample.{sample, stored, Stored}
use dynamic_config_remote.Store.Transform.{
  Transform, Source, transformed_fetch, describe, transformed_watch,
}
use dynamic_config_remote.Store.Transform.Carried.{Rewrites, transformed_watch-Rewrites}

-- Fails on a text that is empty.
abbrev marked : Transform sample stored
marked = record {
  apply = λ t. elim t [ [] ↦ err (text "empty") | c ∷ s ↦ ok (9 ∷ c ∷ s) ];
  description = text "mark";
}

abbrev body : Text → Stored
body t = record { body = t; format = b'j'; revision = some 3; lease = some 4 }

abbrev source : Source sample stored
source = record {
  fetch = ok (body (5 ∷ []));
  deliveries = body (5 ∷ []) ∷ body [] ∷ body (6 ∷ []) ∷ [];
  ends = ok tt;
  description = text "store";
}

the_document_is_rewritten_and_everything_else_is_carried :
    transformed_fetch sample stored source marked ≡ ok (body (9 ∷ 5 ∷ []))
unfolding transformed_fetch
the_document_is_rewritten_and_everything_else_is_carried = refl

the_description_names_both_halves : describe sample stored source marked ≡ text "store through mark"
unfolding describe text
the_description_names_both_halves = refl

a_transform_that_fails_ends_the_watch :
    transformed_watch sample stored source.deliveries source.ends marked (λ f. ok tt)
    ≡ (err (text "empty"), body (9 ∷ 5 ∷ []) ∷ [])
unfolding transformed_watch
a_transform_that_fails_ends_the_watch = refl

transformed_watch-Rewrites_example :
    Rewrites sample stored marked
      (λ f. ok tt)
      source.deliveries
      source.ends
      (transformed_watch sample stored source.deliveries source.ends marked (λ f. ok tt)).0
      (transformed_watch sample stored source.deliveries source.ends marked (λ f. ok tt)).1
transformed_watch-Rewrites_example =
    transformed_watch-Rewrites sample stored marked (λ f. ok tt) source.deliveries source.ends
