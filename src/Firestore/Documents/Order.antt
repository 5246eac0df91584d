-- ===== src/Firestore/Documents/Order.antt =====
-- What a batch is read as.
use dynamic_config_remote.Common.{
  ◌≡◌, ◌⊎◌, inl, inr, refl, ap, subst, Bool, true, not, List, [], ◌∷◌, ◌++◌, Option, some, Text,
  text, text_eq, text_eq_iff, map, find, All, All-snoc, any, contains_text, ok, >>=-eq-ok,
  ok_injective, ok_or, ok_or-eq-ok, ensure, Option-cases, Bool-cases,
}
use dynamic_config_remote.Engine.{Engine}
use dynamic_config_remote.Json.{Json, get_json, as_str, as_array, and_then, unwrap_or}
use dynamic_config_remote.Firestore.{Firestore, path_of}
use dynamic_config_remote.Firestore.Documents.{
  section_of, found_of, result_of, hold, in_call_order, batch_of,
}

abbrev pub paths_of : List (Text × Text) → List Text
paths_of = map (λ (pair : Text × Text). pair.0)

module _ (e : Engine) (to_text : Json → Text) (f : Firestore) where
  -- A result says that this document was found, under a name that is the path's, and that it was asked for.
  abbrev pub Says : Json → Text × Text → Type 0
  Says result (p, body) =
      (found : Json) × (name : Text) × (updated : Option Text) × (get_json (text "found") result
        ≡ some found)
      × (and_then (get_json (text "name") found) as_str ≡ some name)
      × (path_of f name ≡ p)
      × (section_of e to_text f found p ≡ ok (body, updated))

  abbrev pub Answered : List Json → Text × Text → Type 0
  Answered [] pair = ⊥
  Answered (result ∷ results) pair = Says result pair ⊎ Answered results pair

  found_of-Says :
      (paths : List Text) (held : List (Text × Text)) (result found : Json) (pair : Text × Text)
      → get_json (text "found") result ≡ some found
      → found_of e to_text f paths held found ≡ ok pair
      → Says result pair
  unfolding found_of path_of contains_text text_eq
  found_of-Says paths held result found pair given h =
      let (name, read, h₁) =
        >>=-eq-ok (ok_or (and_then (get_json (text "name") found) as_str) _) _ h in
      let (u, asked, h₂) = >>=-eq-ok (ensure (contains_text (path_of f name) paths) _) _ h₁ in
      let (v, first, h₃) =
        >>=-eq-ok (ensure (not (any (λ (q : Text × Text). text_eq q.0 (path_of f name)) held)) _) _
          h₂ in
      let ((body, updated), section, h₄) =
        >>=-eq-ok (section_of e to_text f found (path_of f name)) _ h₃ in
      subst (Says result) (ok_injective h₄)
        (found, name, updated, given, ok_or-eq-ok _ _ read, refl, section)

  result_of-Says :
      (paths : List Text) (held : List (Text × Text)) (result : Json) (pair : Text × Text)
      → result_of e to_text f paths held result ≡ ok pair
      → Says result pair
  unfolding result_of
  result_of-Says paths held result pair h =
      elim (Option-cases (and_then (get_json (text "missing") result) as_str)) [
        | inr (missing, given) ↦ let refused = rw (result_of, given) at h in cc
        | inl found_it ↦ elim (Option-cases (get_json (text "found") result)) [
          | inl neither ↦ let refused = rw (result_of, found_it, neither) at h in cc
          | inr (found, given) ↦
              found_of-Says paths held result found pair given
                (rw (result_of, found_it, given) at h)
        ]
      ]

  hold-All {ℓ} :
      (P : Text × Text → Type ℓ) (paths : List Text) (held all : List (Text × Text))
      (results : List Json)
      → hold e to_text f paths held results ≡ ok all
      → All P held
      → ((pair : Text × Text) → Answered results pair → P pair)
      → All P all
  unfolding hold
  hold-All P paths held all [] h a says = subst (All P) (ok_injective h) a
  hold-All P paths held all (result ∷ results) h a says =
      let (pair, here, h') = >>=-eq-ok (result_of e to_text f paths held result) _ h in
      hold-All P paths (held ++ pair ∷ []) all results h'
        (All-snoc P held pair a (says pair (inl (result_of-Says paths held result pair here))))
        (λ q later. says q (inr later))

  find-All {ℓ} :
      (P : Text × Text → Type ℓ) (t : Text × Text → Bool) (pairs : List (Text × Text))
      (pair : Text × Text)
      → find t pairs ≡ some pair
      → All P pairs
      → (t pair ≡ true) × P pair
  find-All P t [] pair h a = cc
  find-All P t (q ∷ pairs) pair h (here, a) = elim (Bool-cases (t q)) [
    | inl yes_it ↦
        let same : some q ≡ some pair = rw (find, yes_it) at h in
        subst (λ x. (t x ≡ true) × P x) (ap (λ o. unwrap_or o q) same) (yes_it, here)
    | inr no_it ↦ find-All P t pairs pair (rw (find, no_it) at h) a
  ]

  in_call_order-All {ℓ} :
      (P : Text × Text → Type ℓ) (held documents : List (Text × Text)) (paths : List Text)
      → in_call_order e to_text f held paths ≡ ok documents
      → All P held
      → (paths_of documents ≡ paths) × All P documents
  unfolding in_call_order text_eq
  in_call_order-All P held documents [] h a =
      subst (λ ds. (paths_of ds ≡ []) × All P ds) (ok_injective h) (refl, tt)
  in_call_order-All P held documents (p ∷ paths) h a =
      let named : Text × Text → Bool = λ q. text_eq q.0 p in
      let (pair, found, h₁) = >>=-eq-ok (ok_or (find named held) _) _ h in
      let (rest, later, h₂) = >>=-eq-ok (in_call_order e to_text f held paths) _ h₁ in
      let (is, here) = find-All P named held pair (ok_or-eq-ok _ _ found) a in
      let (ordered, all) = in_call_order-All P held rest paths later a in
      let same : pair.0 ≡ p = (text_eq_iff pair.0 p).0 is in
      subst (λ ds. (paths_of ds ≡ p ∷ paths) × All P ds) (ok_injective h₂)
        (rw (same, ordered) refl, (here, all))

  -- A batch that is accepted holds one document for each path that was asked for, in the order of the
  -- call whatever the order of the answer is, and each is one that the answer says was found under
  -- that path's name.
  pub batch_of-Answered :
      (paths : List Text) (answered : Json) (documents : List (Text × Text))
      → batch_of e to_text f paths answered ≡ ok documents
      → (results : List Json) × (as_array answered ≡ some results)
        × (paths_of documents ≡ paths)
        × All (Answered results) documents
  unfolding batch_of
  batch_of-Answered paths answered documents h =
      let (results, listed, h₁) = >>=-eq-ok (ok_or (as_array answered) _) _ h in
      let (held, kept, h₂) = >>=-eq-ok (hold e to_text f paths [] results) _ h₁ in
      let all = hold-All (Answered results) paths [] held results kept tt (λ pair says. says) in
      let (ordered, known) = in_call_order-All (Answered results) held documents paths h₂ all in
      (results, ok_or-eq-ok _ _ listed, ordered, known)
