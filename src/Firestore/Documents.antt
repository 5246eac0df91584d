-- ===== src/Firestore/Documents.antt =====
-- dynamic-config-firestore/src/lib.rs, from what Firestore answers to documents.
pub mod Order
use mathlib.Core.Option
use dynamic_config_remote.Common.{
  ℕ, Bool, true, false, List, [], ◌∷◌, ◌++◌, Option, none, some, Text, text, text_eq, any, find,
  contains_text, if◌then◌else◌, Result, ok, err, ◌>>=◌, ok_or, ensure, not,
}
use dynamic_config_remote.Engine.{Engine, Documents}
use dynamic_config_remote.Json.{
  Json, object, entry, no_entries, get_json, as_str, as_array, and_then,
}
use dynamic_config_remote.Store.Documents.{later_wins, merged}
use dynamic_config_remote.Firestore.{Keys, one, several, Firestore, path_of, describe, complaint}
use dynamic_config_remote.Firestore.Values.{to_json}
use dynamic_config_remote.Firestore.Session.{Meets, call}

module _ (e : Engine) (to_text : Json → Text) where
  open e use {Error}

  -- `json!({ key: values }).to_string()`
  abbrev pub section : Firestore → Json → Text
  section f fields = to_text (object (entry f.key (to_json fields) no_entries))

  unfoldable pub section_of : Firestore → Json → Text → Result (Text × Option Text) Error
  unfolding to_json complaint
  section_of f body p = do
    fields ←
        ok_or (get_json (text "fields") body) (
          complaint e f
            (text "`" ++ (p ++ text "` answered without `fields`; is that a document?")))
    ok (section f fields, and_then (get_json (text "updateTime") body) as_str)

  unfoldable pub single_path : Firestore → Result Text Error
  unfolding complaint
  single_path f = elim f.keys [
    | one p ↦ ok p
    | several paths ↦ err (
        complaint e f (
          text
            "a source that reads several documents cannot be watched; poll `refresh_remote()` on a timer instead"))
  ]

  -- A result that was found, by its path: it was asked for, and is the first for it.
  unfoldable pub found_of :
      Firestore → List Text → List (Text × Text) → Json → Result (Text × Text) Error
  unfolding section_of complaint path_of contains_text text_eq
  found_of f paths held found = do
    name ←
        ok_or (and_then (get_json (text "name") found) as_str)
          (complaint e f (text "a batch result names no document"))
    let p = path_of f name
    _ ← ensure (contains_text p paths) (
        complaint e f (
          text "the store answered with `"
          ++ (p ++ text "`, which is not one of the documents that were asked for")))
    _ ←
        ensure (not (any (λ (pair : Text × Text). text_eq pair.0 p) held))
          (complaint e f (text "the store answered for `" ++ (p ++ text "` twice")))
    section ← section_of f found p
    ok (p, section.0)

  -- One result of a batch.
  unfoldable pub result_of :
      Firestore → List Text → List (Text × Text) → Json → Result (Text × Text) Error
  unfolding found_of complaint path_of
  result_of f paths held result = elim (and_then (get_json (text "missing") result) as_str) [
    | some missing ↦
        err (complaint e f (text "`" ++ (path_of f missing ++ text "` holds no document")))
    | none ↦ elim (get_json (text "found") result) [
      | none ↦ err (complaint e f (text "a batch result is neither `found` nor `missing`"))
      | some found ↦ found_of f paths held found
    ]
  ]

  unfoldable pub hold :
      Firestore → List Text → List (Text × Text) → List Json → Result (List (Text × Text)) Error
  unfolding result_of
  hold f paths held [] = ok held
  hold f paths held (result ∷ results) = do
    pair ← result_of f paths held result
    hold f paths (held ++ pair ∷ []) results

  -- What was held, in the order of the call.
  unfoldable pub in_call_order :
      Firestore → List (Text × Text) → List Text → Result (List (Text × Text)) Error
  unfolding complaint text_eq
  in_call_order f held [] = ok []
  in_call_order f held (p ∷ paths) = do
    pair ←
        ok_or (find (λ (pair : Text × Text). text_eq pair.0 p) held)
          (complaint e f (text "the store answered nothing at all about `" ++ (p ++ text "`")))
    rest ← in_call_order f held paths
    ok (pair ∷ rest)

  -- `batch`, from the answer to its one request.
  unfoldable pub batch_of : Firestore → List Text → Json → Result (List (Text × Text)) Error
  unfolding hold in_call_order complaint
  batch_of f paths answered = do
    results ←
        ok_or (as_array answered)
          (complaint e f (text "the batch response is not a list of results"))
    held ← hold f paths [] results
    in_call_order f held paths

  module _ (latest : ℕ) where
    unfoldable pub documents : Firestore → Meets → Firestore × Result (List (Text × Text)) Error
    unfolding call section_of batch_of
    documents f m =
        let (after, answer) = call e latest f m in
        (
          after,
          elim f.keys [
            | one p ↦ answer >>= λ body. section_of f body p >>= λ s. ok ((p, s.0) ∷ [])
            | several paths ↦ answer >>= batch_of f paths
          ],
        )

    unfoldable pub fetch :
        (d : Documents e) → e.Format → Firestore → Meets → Firestore × Result d.Fetched Error
    unfolding documents describe
    fetch d json f m =
        let (after, found) = documents f m in
        (after, found >>= λ pairs. merged e d pairs json later_wins (describe f))
