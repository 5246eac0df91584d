-- ===== src/Store/Documents.antt =====
-- dynamic-config-store-core/src/documents.rs: folding several keys into one document.
pub mod Merge
pub mod Formats
pub mod Reports
pub mod Bounds
mod Tests
use dynamic_config_remote.Common.{
  ℕ, ◌+◌, ◌-◌, ◌≡◌, refl, Bool, true, false, not, ◌&&◌, List, [], ◌∷◌, ◌++◌, Option, none, some,
  Text, text, text_eq, join, strip_prefix, is_some, leb, ◌==◌, if◌then◌else◌, Result, ok, err,
  ◌>>=◌, ensure, map_err, length, take, is_empty, decimal,
}
use mathlib.Core.Option
use dynamic_config_remote.Engine.{Engine, Documents}

abbrev pub most_keys : ℕ
most_keys = 512

abbrev pub most_reported_paths : ℕ
most_reported_paths = 8

pub data Overlap : Type 0 where
  later_wins refused : Overlap

abbrev pub is_refused : Overlap → Bool
is_refused later_wins = false
is_refused refused = true

module _ (e : Engine) where
  open e use {Error, Format, Value}

  abbrev unparsable : Format → Text → Text → Error → Error
  unparsable format described key error = e.remote (
      described
      ++ (text ": `"
          ++ (key
              ++ (text "` is not a "
                  ++ (e.debug_format format ++ (text " document: " ++ e.display error))))))

  unfoldable pub parse_one : Format → Text → Text × Text → Result (Text × Value) Error
  parse_one format described (key, body) = do
    value ← map_err (unparsable format described key) (e.parse body format)
    ok (key, value)

  -- The first loop of `folded`: every document parses, or the first that does not is reported.
  unfoldable pub parse_all : Format → Text → List (Text × Text) → Result (List (Text × Value)) Error
  unfolding parse_one
  parse_all format described [] = ok []
  parse_all format described (document ∷ documents) = do
    one ← parse_one format described document
    rest ← parse_all format described documents
    ok (one ∷ rest)

  -- `parsed[..before]`, where `before` is the first position of the key.
  unfoldable pub before_key : Text → List (Text × Value) → List (Text × Value)
  before_key key [] = []
  before_key key ((name, value) ∷ parsed) =
      if text_eq name key then [] else (name, value) ∷ before_key key parsed

  -- The last of the list whose document has something at the path.
  unfoldable pub nearest : Text → List (Text × Value) → Option Text
  nearest path [] = none
  nearest path ((name, value) ∷ parsed) = elim (nearest path parsed) [
    | some found ↦ some found
    | none ↦ if is_some (e.get value path) then some name else none
  ]

  -- The earlier key that a report of a collision names.
  unfoldable pub earlier : List (Text × Value) → Text → List Text → Text
  unfolding before_key nearest
  earlier parsed key [] = text "an earlier key"
  earlier parsed key (path ∷ clashes) = elim (nearest path (before_key key parsed)) [
    | some name ↦ name
    | none ↦ text "an earlier key"
  ]

  unfoldable pub and_more : List Text → Text
  and_more clashes =
      let more = length clashes - length (take most_reported_paths clashes) in
      if more == 0 then [] else text " (and " ++ (decimal more ++ text " more)")

  unfoldable pub collision : List (Text × Value) → Text → List Text → Text → Error
  unfolding earlier and_more
  collision parsed key clashes described = e.remote (
      described
      ++ (text ": `"
          ++ (earlier parsed key clashes
              ++ (text "` and `"
                  ++ (key
                      ++ (text "` both supply "
                          ++ (join (text ", ") (take most_reported_paths clashes)
                              ++ (and_more clashes
                                  ++ text
                                      "; keys read as a prefix are sections that must not overlap, and the order a server lists them in is not a precedence — name the keys instead if one is meant to win"))))))))

  -- The second loop of `folded`, over `parsed[1..]`; `parsed` is the whole list.
  unfoldable pub fold_rest :
      Overlap → Text → List (Text × Value) → Value → List (Text × Value) → Result Value Error
  unfolding collision
  fold_rest overlap described parsed folded [] = ok folded
  fold_rest overlap described parsed folded ((key, value) ∷ rest) =
      let clashes = e.overlapping_paths folded value in
      let later = fold_rest overlap described parsed (e.merge folded value) rest in
      if is_refused overlap && not (is_empty clashes)
      then err (collision parsed key clashes described)
      else later

  -- `folded`, on a list that is not empty: `merged` calls it on no other.
  unfoldable pub folded :
      Format → Overlap → Text → Text × Text → List (Text × Text) → Result Value Error
  unfolding parse_one parse_all fold_rest
  folded format overlap described first documents = do
    one ← parse_one format described first
    rest ← parse_all format described documents
    fold_rest overlap described (one ∷ rest) one.1 rest

  abbrev unwritable : Format → Text → Error → Error
  unwritable format described error = e.remote (
      described
      ++ (text ": the merged document cannot be written back as "
          ++ (e.debug_format format ++ (text ": " ++ e.display error))))

  module _ (d : Documents e) where
    unfoldable pub merged : List (Text × Text) → Format → Overlap → Text → Result d.Fetched Error
    unfolding folded
    merged [] format overlap described =
        err (e.absent (described ++ text ": no key held a value, so there is nothing to load"))
    merged ((key, only) ∷ []) format overlap described = ok (d.fetched only format)
    merged (first ∷ second ∷ documents) format overlap described = do
      value ← folded format overlap described first (second ∷ documents)
      body ← map_err (unwritable format described) (e.render value format)
      ok (d.fetched body format)

  -- `agreed_format`: the format that the extensions agree on, or the two keys that disagree.
  abbrev disagree : Text → Format → Text → Format → Text
  disagree named first key format =
      text "`"
      ++ (named
          ++ (text "` names "
              ++ (e.debug_format first
                  ++ (text " and `"
                      ++ (key
                          ++ (text "` names "
                              ++ (e.debug_format format
                                  ++ text
                                      "; one source reads one format — call `with_format` to settle it, or install one source per format")))))))

  unfoldable pub agree : Option (Text × Format) → List Text → Result (Option (Text × Format)) Text
  agree agreed [] = ok agreed
  agree agreed (key ∷ keys) = elim (e.from_key key) [
    | none ↦ agree agreed keys
    | some format ↦ elim agreed [
      | none ↦ agree (some (key, format)) keys
      | some (named, first) ↦
          if e.format_eq first format
          then agree (some (named, first)) keys
          else err (disagree named first key format)
    ]
  ]

  unfoldable pub agreed_format : List Text → Result (Option Format) Text
  unfolding agree
  agreed_format keys = do agreed ← agree none keys; ok (Option.map (λ p. p.1) agreed)

  unfoldable pub within_key_budget : ℕ → Text → Result (Unit {0}) Error
  within_key_budget matched described = ensure (leb matched most_keys) (
      e.remote (
        described
        ++ (text ": the prefix matches "
            ++ (decimal matched
                ++ (text " keys, above the "
                    ++ (decimal most_keys
                        ++ text " one document is folded from; narrow the prefix"))))))

  unfoldable pub under_prefix : Text → Text → Text → Result (Unit {0}) Error
  under_prefix key prefix described = ensure (is_some (strip_prefix prefix key)) (
      e.remote (
        described
        ++ (text ": the store answered with `"
            ++ (key ++ text "`, which is not under the prefix that was asked for"))))
