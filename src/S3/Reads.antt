-- ===== src/S3/Reads.antt =====
-- dynamic-config-s3/src/lib.rs: the listing of a prefix, and reading objects.
use dynamic_config_remote.Common.{
  ℕ, zero, suc, List, [], ◌∷◌, ◌++◌, Option, none, some, Text, text, ends_with_char, if◌then◌else◌,
  Result, ok, err, ◌>>=◌, ok_or, map_err, is_empty, length, decimal,
}
use dynamic_config_remote.Engine.{Engine, Documents}
use dynamic_config_remote.Store.Documents.{merged, within_key_budget, under_prefix}
use dynamic_config_remote.S3.{
  most_list_pages, overlap, S3Error, Page, Bucket, Source, describe, complaint, settled_format,
  single_key, classified, one, several, prefix,
}

module _ (e : Engine) (from_utf8 : List ℕ → Result Text Text) where
  open e use {Error, Format}

  abbrev pub S : Type 0
  S = Source e from_utf8

  -- The keys of one page, added to those that were found: a folder is not a document.
  unfoldable pub page_keys : S → Text → List Text → List (Option Text) → Result (List Text) Error
  unfolding describe ends_with_char
  page_keys s p found [] = ok found
  page_keys s p found (none ∷ contents) = page_keys s p found contents
  page_keys s p found (some key ∷ contents) = do
    _ ← under_prefix e key p (describe e from_utf8 s)
    page_keys s p (if ends_with_char b'/' key then found else found ++ key ∷ []) contents

  -- The pages of `listed` that are left.
  unfoldable pub list_pages :
      S
      → (ℕ → Option Text → Result Page S3Error)
      → Text
      → ℕ
      → Option Text
      → List Text
      → Result (List Text) Error
  unfolding classified page_keys complaint describe
  list_pages s page_of p zero token found = err (
      complaint e from_utf8 s (
        text "the listing did not finish in "
        ++ (decimal most_list_pages
            ++ text " pages; the store is not advancing the continuation token")))
  list_pages s page_of p (suc pages) token found = do
    page ← map_err (classified e from_utf8 s) (page_of pages token)
    all ← page_keys s p found page.contents
    _ ← within_key_budget e (length all) (describe e from_utf8 s)
    elim page.next_token as (λ o. Result (List Text) Error) [
      | none ↦ ok all
      | some next ↦ list_pages s page_of p pages (some next) all
    ]

  unfoldable pub list_keys :
      S → (ℕ → Option Text → Result Page S3Error) → Text → Result (List Text) Error
  unfolding list_pages
  list_keys s page_of p = list_pages s page_of p most_list_pages none []

  unfoldable pub object : S → Bucket → Text → Result (Text × Option Text) Error
  unfolding classified complaint
  object s bucket key = do
    answered ← map_err (classified e from_utf8 s) (bucket.get_object key)
    bytes ←
        map_err (λ error. complaint e from_utf8 s (text "`" ++ (key ++ (text "`: " ++ error))))
          answered.body
    body ←
        map_err
          (λ error.
            complaint e from_utf8 s (text "`" ++ (key ++ (text "` is not UTF-8: " ++ error))))
          (from_utf8 bytes)
    ok (body, answered.tag)

  unfoldable pub objects : S → Bucket → List Text → Result (List (Text × Text)) Error
  unfolding object
  objects s bucket [] = ok []
  objects s bucket (key ∷ keys) = do
    first ← object s bucket key
    rest ← objects s bucket keys
    ok ((key, first.0) ∷ rest)

  unfoldable pub keys_to_read : S → Bucket → Result (List Text) Error
  unfolding list_keys
  keys_to_read s bucket = elim s.keys [
    | one key ↦ ok (key ∷ [])
    | several keys ↦ ok keys
    | prefix p ↦ list_keys s bucket.page p
  ]

  unfoldable pub documents : S → Bucket → Result (List (Text × Text)) Error
  unfolding keys_to_read objects complaint
  documents s bucket = do
    keys ← keys_to_read s bucket
    if is_empty keys
        then err (complaint e from_utf8 s (text "nothing matched, so there is nothing to load"))
        else objects s bucket keys

  -- `etag`
  unfoldable pub etag : S → Bucket → Result Text Error
  unfolding single_key classified complaint
  etag s bucket = do
    key ← single_key e from_utf8 s
    tag ← map_err (classified e from_utf8 s) (bucket.head_object key)
    ok_or tag (complaint e from_utf8 s (text "the object has no ETag"))

  module _ (d : Documents e) (opaque : Text → d.Revision) where
    unfoldable pub fetch : S → Bucket → Result d.Fetched Error
    unfolding settled_format documents describe
    fetch s bucket = do
      format ← settled_format e from_utf8 s
      found ← documents s bucket
      merged e d found format (overlap s.keys) (describe e from_utf8 s)

    unfoldable pub read : S → Bucket → Result (d.Fetched × Option Text) Error
    unfolding settled_format single_key object
    read s bucket = do
      format ← settled_format e from_utf8 s
      key ← single_key e from_utf8 s
      (body, tag) ← object s bucket key
      ok (elim tag as (λ o. d.Fetched × Option Text) [
        | some t ↦ (d.with_revision (opaque t) (d.fetched body format), some t)
        | none ↦ (d.fetched body format, none)
      ])
