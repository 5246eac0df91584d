-- ===== src/S3/Tests.antt =====
-- A source over a small bucket, and the theorems at concrete inputs.
use dynamic_config_remote.Common.{
  ℕ, ◌≤◌, ◌≡◌, refl, List, [], ◌∷◌, Option, none, some, Text, text_eq, length, ends_with_char,
  Result, ok, strip_prefix, contains_char,
}
use dynamic_config_remote.Engine.Sample.{sample, stored}
use dynamic_config_remote.Store.Attempts.{reporting, untouched, Callback, returned, guarded}
use dynamic_config_remote.Store.Documents.{merged, under_prefix, within_key_budget, most_keys}
use dynamic_config_remote.S3.{prefix, one, S3Error, Page, Bucket, Source, most_list_pages}
use dynamic_config_remote.S3.Reads.{list_keys, fetch}
use dynamic_config_remote.S3.Listing.{Hands, Under, documents_among, list_keys-IsListing}
use dynamic_config_remote.S3.Watch.{Round, watch}

abbrev decoded : List ℕ → Result Text Text
decoded bytes = ok bytes

-- Two pages: a folder and a document, and then a document.
abbrev page_of : ℕ → Option Text → Result Page S3Error
page_of pages none = ok (record {
  contents = some (b'p' ∷ b'/' ∷ []) ∷ some (b'p' ∷ b'a' ∷ []) ∷ [];
  next_token = some (b't' ∷ []);
})
page_of pages (some token) =
    ok (record { contents = none ∷ some (b'p' ∷ b'b' ∷ []) ∷ []; next_token = none })

-- An object holds its key without the first letter.
abbrev body_of : Text → Text
body_of [] = []
body_of (c ∷ key) = key

abbrev bucket : Option Text → Bucket
bucket tag = record {
  page = page_of;
  get_object = λ key. ok (record { tag = tag; body = ok (body_of key) });
  head_object = λ key. ok tag;
}

abbrev source : Source sample decoded
source = record {
  bucket = [];
  keys = prefix (b'p' ∷ []);
  format = some b'j';
  disagreement = none;
  endpoint = none;
  attempts = reporting;
}

abbrev watched : Source sample decoded
watched = record source { keys = one (b'p' ∷ b'a' ∷ []) }

the_pages_are_folded :
    fetch sample decoded stored (λ t. 0) source (bucket none)
    ≡ ok (record { body = b'a' ∷ b'b' ∷ []; format = b'j'; revision = none; lease = none })
unfolding fetch under_prefix within_key_budget strip_prefix ends_with_char merged contains_char
the_pages_are_folded = refl

abbrev listed : List Text
listed = (b'p' ∷ b'a' ∷ []) ∷ (b'p' ∷ b'b' ∷ []) ∷ []

the_folder_is_left_out : list_keys sample decoded source page_of (b'p' ∷ []) ≡ ok listed
unfolding list_keys under_prefix within_key_budget strip_prefix ends_with_char
the_folder_is_left_out = refl

list_keys-IsListing_example :
    Under sample decoded (b'p' ∷ []) listed
    × (length listed ≤ most_keys)
    × ((contents : List (Option Text)) × Hands sample decoded page_of most_list_pages none contents
        × (listed ≡ documents_among contents))
list_keys-IsListing_example =
    list_keys-IsListing sample decoded source page_of (b'p' ∷ []) listed the_folder_is_left_out

abbrev accepting : Callback sample stored
accepting earlier x = returned (ok tt)

abbrev tagged : ℕ → Round
tagged tag = record { checking = bucket (some (tag ∷ [])); reading = bucket (some (tag ∷ [])) }

-- The first tag is recorded, and each of the two that differ from the one before it is delivered.
two_changes_are_delivered :
    length
      (watch sample decoded stored
        (λ t. 0)
        accepting
        watched
        (tagged 7 ∷ tagged 7 ∷ tagged 8 ∷ tagged 9 ∷ [])
        (untouched sample stored)).0.delivered
    ≡ 2
unfolding watch guarded text_eq
two_changes_are_delivered = refl
