-- ===== src/Store/Documents/Merge.antt =====
-- What a fold of several documents is, and when there is one.
use mathlib.Core.List.{map}
use dynamic_config_remote.Common.{
  ◌≡◌, ◌↔◌, refl, sym, ap, subst, ◌∙◌, List, [], ◌∷◌, Text, ok, >>=-eq-ok, ok_injective, arith,
}
use dynamic_config_remote.Engine.{Engine, Documents}
use dynamic_config_remote.Store.Documents.{
  Overlap, later_wins, refused, parse_one, parse_all, fold_rest, folded, merged,
}

module _ (e : Engine) (format : e.Format) (described : Text) where
  open e use {Error, Format, Value}

  -- The documents parse to these values, one for one.
  abbrev pub Parses : List (Text × Text) → List Value → Type 0
  Parses [] [] = Unit
  Parses ((key, body) ∷ documents) (v ∷ vs) = (e.parse body format ≡ ok v) × Parses documents vs
  Parses _ _ = ⊥

  -- Deep merging from the left: a later document is merged into the ones before it.
  abbrev pub merge_all : Value → List Value → Value
  merge_all v [] = v
  merge_all v (w ∷ ws) = merge_all (e.merge v w) ws

  -- No document supplies a path that the ones before it, merged, supply.
  abbrev pub Disjoint : Value → List Value → Type 0
  Disjoint v [] = Unit
  Disjoint v (w ∷ ws) = (e.overlapping_paths v w ≡ []) × Disjoint (e.merge v w) ws

  abbrev pub Fits : Overlap → Value → List Value → Type 0
  Fits later_wins v ws = Unit
  Fits refused v ws = Disjoint v ws

  abbrev values : List (Text × Value) → List Value
  values = map (λ p. p.1)

  parse_one-eq-ok :
      (document : Text × Text) (p : Text × Value)
      → parse_one e format described document ≡ ok p
      → e.parse document.1 format ≡ ok p.1
  unfolding parse_one
  parse_one-eq-ok (key, body) p h = ground arith

  parse_all-eq-ok :
      (documents : List (Text × Text)) (parsed : List (Text × Value))
      → parse_all e format described documents ≡ ok parsed
      → Parses documents (values parsed)
  unfolding parse_all
  parse_all-eq-ok [] parsed h = subst (λ p. Parses [] (values p)) (ok_injective h) tt
  parse_all-eq-ok (document ∷ documents) parsed h =
      let (one, here, h') = >>=-eq-ok (parse_one e format described document) _ h in
      let (rest, later, same) = >>=-eq-ok (parse_all e format described documents) _ h' in
      subst (λ p. Parses (document ∷ documents) (values p)) (ok_injective same)
        (parse_one-eq-ok document one here, parse_all-eq-ok documents rest later)

  Parses-parse_all :
      (documents : List (Text × Text)) (vs : List Value)
      → Parses documents vs
      → (parsed : List (Text × Value)) × (parse_all e format described documents ≡ ok parsed)
        × (values parsed ≡ vs)
  unfolding parse_all parse_one
  Parses-parse_all [] [] h = ([], refl, refl)
  Parses-parse_all [] (v ∷ vs) h = absurd h
  Parses-parse_all (document ∷ documents) [] h = absurd h
  Parses-parse_all ((key, body) ∷ documents) (v ∷ vs) (here, later) =
      let (parsed, same, the) = Parses-parse_all documents vs later in
      ((key, v) ∷ parsed, rw (here, same, parse_one), ap (◌∷◌ v) the)

  fold_rest_sound :
      (overlap : Overlap) (parsed rest : List (Text × Value)) (v w : Value)
      → fold_rest e overlap described parsed v rest ≡ ok w
      → Fits overlap v (values rest) × (w ≡ merge_all v (values rest))
  unfolding fold_rest
  fold_rest_sound later_wins parsed [] v w h = ground arith
  fold_rest_sound refused parsed [] v w h = ground arith
  fold_rest_sound later_wins parsed ((key, value) ∷ rest) v w h =
      ground (arith, fold_rest_sound later_wins parsed rest (e.merge v value) w)
  fold_rest_sound refused parsed ((key, value) ∷ rest) v w h =
      ground (arith, fold_rest_sound refused parsed rest (e.merge v value) w)

  fold_rest_complete :
      (overlap : Overlap) (parsed rest : List (Text × Value)) (v : Value)
      → Fits overlap v (values rest)
      → fold_rest e overlap described parsed v rest ≡ ok (merge_all v (values rest))
  unfolding fold_rest
  fold_rest_complete later_wins parsed [] v h = refl
  fold_rest_complete refused parsed [] v h = refl
  fold_rest_complete later_wins parsed ((key, value) ∷ rest) v h =
      fold_rest_complete later_wins parsed rest (e.merge v value) tt
  fold_rest_complete refused parsed ((key, value) ∷ rest) v (here, later) =
      rw here (fold_rest_complete refused parsed rest (e.merge v value) later)

  folded_sound :
      (overlap : Overlap) (first : Text × Text) (documents : List (Text × Text)) (w : Value)
      → folded e format overlap described first documents ≡ ok w
      → (v : Value) × (vs : List Value) × Parses (first ∷ documents) (v ∷ vs)
        × Fits overlap v vs
        × (w ≡ merge_all v vs)
  unfolding folded
  folded_sound overlap first documents w h =
      let (one, here, h') = >>=-eq-ok (parse_one e format described first) _ h in
      let (rest, later, h'') = >>=-eq-ok (parse_all e format described documents) _ h' in
      let (fits, same) = fold_rest_sound overlap (one ∷ rest) rest one.1 w h'' in
      (
        one.1,
        values rest,
        (parse_one-eq-ok first one here, parse_all-eq-ok documents rest later),
        fits,
        same,
      )

  folded_complete :
      (overlap : Overlap) (first : Text × Text) (documents : List (Text × Text)) (w v : Value)
      (vs : List Value)
      → e.parse first.1 format ≡ ok v
      → Parses documents vs
      → Fits overlap v vs
      → w ≡ merge_all v vs
      → folded e format overlap described first documents ≡ ok w
  unfolding folded parse_one
  folded_complete overlap (key, body) documents w v vs here later fits same =
      let (parsed, all, the) = Parses-parse_all documents vs later in
      rw (here, all, parse_one)
        (fold_rest_complete overlap ((key, v) ∷ parsed) parsed v
            (subst (Fits overlap v) (sym the) fits)
          ∙ ap ok (ap (merge_all v) the ∙ sym same))

  -- A fold of several documents succeeds exactly where every document parses and, for keys that were
  -- read as a prefix, no document supplies a path that the ones before it supply. The result is then
  -- every document merged into the ones before it, in the order given: one document that does not
  -- parse fails the whole fold.
  pub folded-eq-ok_iff :
      (overlap : Overlap) (first : Text × Text) (documents : List (Text × Text)) (w : Value)
      → (folded e format overlap described first documents ≡ ok w) ↔ (
          (v : Value) × (vs : List Value) × Parses (first ∷ documents) (v ∷ vs)
          × Fits overlap v vs
          × (w ≡ merge_all v vs))
  folded-eq-ok_iff overlap first documents w = (
    folded_sound overlap first documents w,
    λ m. folded_complete overlap first documents w m.0 m.1 m.2.0 m.2.1 m.3 m.4,
  )

  module _ (d : Documents e) where
    -- Where reading the keys as a prefix yields a document, reading them as a list that the caller
    -- wrote down yields the same one: refusing overlaps only ever refuses.
    pub merged-refused :
        (documents : List (Text × Text)) (x : d.Fetched)
        → merged e d documents format refused described ≡ ok x
        → merged e d documents format later_wins described ≡ ok x
    unfolding merged
    merged-refused [] x h = cc
    merged-refused ((key, only) ∷ []) x h = h
    merged-refused (first ∷ second ∷ documents) x h =
        let (v, same, h') =
          >>=-eq-ok (folded e format refused described first (second ∷ documents)) _ h in
        let (w, ws, parses, fits, value) =
          (folded-eq-ok_iff refused first (second ∷ documents) v).0 same in
        let later =
          (folded-eq-ok_iff later_wins first (second ∷ documents) v).1 (w, ws, parses, tt, value) in
        rw later h'
