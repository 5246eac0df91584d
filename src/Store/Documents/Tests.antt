-- ===== src/Store/Documents/Tests.antt =====
-- The unit tests of documents.rs over a small instance of the engine, and the theorems at concrete
-- inputs.
use dynamic_config_remote.Common.{
  ◌≡◌, ◌↔◌, refl, List, [], ◌∷◌, none, some, Text, ok, contains_char, text_eq,
}
use dynamic_config_remote.Engine.Sample.{sample, stored, Stored}
use dynamic_config_remote.Store.Documents.{refused, folded, merged, before_key, nearest}
use dynamic_config_remote.Store.Documents.Merge.{Parses, Fits, merge_all, folded-eq-ok_iff}

abbrev sections : List (Text × Text)
sections = (1 ∷ [], 5 ∷ []) ∷ (2 ∷ [], 6 ∷ []) ∷ (3 ∷ [], 7 ∷ []) ∷ []

abbrev whole : Stored
whole = record { body = 5 ∷ 6 ∷ 7 ∷ []; format = b'j'; revision = none; lease = none }

three_sections : merged sample stored sections b'j' refused [] ≡ ok whole
unfolding merged contains_char
three_sections = refl

one_document_is_untouched :
    merged sample stored ((1 ∷ [], 0 ∷ []) ∷ []) b'j' refused []
    ≡ ok (record { body = 0 ∷ []; format = b'j'; revision = none; lease = none })
unfolding merged
one_document_is_untouched = refl

folded-eq-ok_iff_example :
    (folded sample b'j' refused [] (1 ∷ [], 5 ∷ []) ((2 ∷ [], 6 ∷ []) ∷ []) ≡ ok (5 ∷ 6 ∷ [])) ↔ (
      (v : Text) × (vs : List Text) × Parses sample b'j' []
        ((1 ∷ [], 5 ∷ []) ∷ (2 ∷ [], 6 ∷ []) ∷ [])
        (v ∷ vs)
      × Fits sample b'j' [] refused v vs
      × ((5 ∷ 6 ∷ []) ≡ merge_all sample b'j' [] v vs))
folded-eq-ok_iff_example =
    folded-eq-ok_iff sample b'j' [] refused (1 ∷ [], 5 ∷ []) ((2 ∷ [], 6 ∷ []) ∷ []) (5 ∷ 6 ∷ [])

abbrev trees : List (Text × Text)
trees = (1 ∷ [], 5 ∷ []) ∷ (2 ∷ [], 5 ∷ []) ∷ (3 ∷ [], 6 ∷ []) ∷ (4 ∷ [], 5 ∷ []) ∷ []

the_nearest_is_named : nearest sample (5 ∷ []) (before_key sample (4 ∷ []) trees) ≡ some (2 ∷ [])
unfolding nearest before_key contains_char text_eq
the_nearest_is_named = refl
