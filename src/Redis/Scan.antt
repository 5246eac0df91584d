-- ===== src/Redis/Scan.antt =====
-- What a scan for the keys of a prefix finds.
use dynamic_config_remote.Common.{
  ℕ, zero, suc, ◌≤◌, ◌≡◌, refl, ap, sym, subst, ◌∙◌, Bool, true, false, ◌||◌, List, [], ◌∷◌, ◌++◌,
  Text, is_some, strip_prefix, length, All, Ascending, ◌==◌, Result, ok, map_err, map_err-eq-ok,
  >>=-eq-ok, ok_injective, sort_texts, dedup_texts, sorted_distinct-Ascending, sorted_distinct-All,
  sorted_distinct-contains, append_nil, append_snoc, All-snoc, contains_text, contains_text-append,
  Bool-cases, inl, inr,
}
use dynamic_config_remote.Engine.{Engine}
use dynamic_config_remote.Store.Documents.{most_keys, within_key_budget, under_prefix}
use dynamic_config_remote.Store.Documents.Bounds.{under_prefix-eq-ok, within_key_budget-eq-ok}
use dynamic_config_remote.Redis.{
  globbed, RedisError, Redis, most_scan_rounds, describe, classified, collected, scan_rounds, scan,
}

module _ (e : Engine) (Connection : Type 0) where
  open e use {Error}

  abbrev pub Reply : Type 0
  Reply = ℕ → ℕ → Text → Result (ℕ × List Text) RedisError

  abbrev pub Under : Text → List Text → Type 0
  Under p keys = All (λ key. is_some (strip_prefix p key) ≡ true) keys

  -- The server hands out the whole of this list in the rounds that are left, from this cursor on.
  abbrev pub Hands : Reply → Text → ℕ → ℕ → List Text → Type 0
  Hands reply p zero cursor keys = ⊥
  Hands reply p (suc rounds) cursor keys =
      (next : ℕ) × (batch : List Text) × (later : List Text) × (reply rounds cursor
          (globbed p ++ b'*' ∷ [])
        ≡ ok (next, batch))
      × (keys ≡ batch ++ later)
      × (elim (next == 0) as (λ b. Type 0) [
        | true ↦ later ≡ []
        | false ↦ Hands reply p rounds next later
      ])

  collected_sound :
      (r : Redis e Connection) (p : Text) (found batch all : List Text)
      → collected e Connection r p found batch ≡ ok all
      → Under p found
      → (all ≡ found ++ batch) × Under p all
  unfolding collected
  collected_sound r p found [] all h under =
      let same : found ≡ all = ok_injective h in
      (sym_nil found all same, subst (Under p) same under)
    where
      sym_nil : (found all : List Text) → found ≡ all → all ≡ found ++ []
      sym_nil found all same = sym (append_nil found ∙ same)
  collected_sound r p found (key ∷ batch) all h under =
      let (u, here, h') = >>=-eq-ok (under_prefix e key p (describe e Connection r)) _ h in
      let (same, all_under) =
        collected_sound r p (found ++ key ∷ []) batch all h' (
          All-snoc _ found key under (under_prefix-eq-ok e key p (describe e Connection r) here)) in
      (same ∙ append_snoc found key batch, all_under)

  -- In order, none twice, all under the prefix, and no more than one document is folded from.
  abbrev pub IsListing : Text → List Text → Type 0
  IsListing p keys = Ascending keys × Under p keys × (length keys ≤ most_keys)

  or_assoc : (a b c : Bool) → ((a || b) || c) ≡ (a || (b || c))
  or_assoc true b c = refl
  or_assoc false b c = refl

  -- What the rounds that are left add to the keys that were found.
  abbrev Adds : Reply → Text → ℕ → ℕ → List Text → List Text → Type 0
  Adds reply p rounds cursor found keys =
      (all : List Text) × Hands reply p rounds cursor all
      × ((q : Text) → contains_text q keys ≡ (contains_text q found || contains_text q all))

  merged_contains :
      (q : Text) (found batch all : List Text)
      → all ≡ found ++ batch
      → contains_text q (dedup_texts (sort_texts all))
        ≡ (contains_text q found || contains_text q batch)
  merged_contains q found batch all same =
      sorted_distinct-contains q all
      ∙ ap (contains_text q) same
      ∙ contains_text-append q found batch

  -- What the found keys and a batch hold, listed.
  Lists : List Text → List Text → List Text → Type 0
  Lists found batch distinct =
      (q : Text) → contains_text q distinct ≡ (contains_text q found || contains_text q batch)

  Adds-last :
      (reply : Reply) (p : Text) (rounds cursor next : ℕ) (found batch distinct : List Text)
      → reply rounds cursor (globbed p ++ b'*' ∷ []) ≡ ok (next, batch)
      → (next == 0) ≡ true
      → Lists found batch distinct
      → Adds reply p (suc rounds) cursor found distinct
  unfolding Lists
  Adds-last reply p rounds cursor next found batch distinct replied last lists =
      (batch, (next, batch, [], replied, sym (append_nil batch), rw last refl), lists)

  Adds-more :
      (reply : Reply) (p : Text) (rounds cursor next : ℕ) (found batch distinct keys : List Text)
      → reply rounds cursor (globbed p ++ b'*' ∷ []) ≡ ok (next, batch)
      → (next == 0) ≡ false
      → Lists found batch distinct
      → Adds reply p rounds next distinct keys
      → Adds reply p (suc rounds) cursor found keys
  unfolding Lists
  Adds-more reply p rounds cursor next found batch distinct keys replied more lists adds =
      let (later, hands, lists') = adds in
      (
        batch ++ later,
        (next, batch, later, replied, refl, rw more hands),
        λ q.
            lists' q
            ∙ (ap (λ b. b || contains_text q later) (lists q)
                ∙ (or_assoc (contains_text q found) (contains_text q batch) (contains_text q later)
                    ∙ ap (λ b. contains_text q found || b)
                        (sym (contains_text-append q batch later)))),
      )

  scan_rounds_sound :
      (r : Redis e Connection) (reply : Reply) (p : Text) (rounds cursor : ℕ)
      (found keys : List Text)
      → scan_rounds e Connection r reply p rounds cursor found ≡ ok keys
      → Under p found
      → IsListing p keys × Adds reply p rounds cursor found keys
  unfolding scan_rounds Lists
  scan_rounds_sound r reply p zero cursor found keys h under = cc
  scan_rounds_sound r reply p (suc rounds) cursor found keys h under =
      let ((next, batch), answered, h₁) =
        >>=-eq-ok
          (map_err (classified e Connection r) (reply rounds cursor (globbed p ++ b'*' ∷ []))) _
          h in
      let (all, gathered, h₂) = >>=-eq-ok (collected e Connection r p found batch) _ h₁ in
      let (same, all_under) = collected_sound r p found batch all gathered under in
      let distinct = dedup_texts (sort_texts all) in
      let (u, fits, h₃) =
        >>=-eq-ok (within_key_budget e (length distinct) (describe e Connection r)) _ h₂ in
      let replied = map_err-eq-ok (classified e Connection r) (reply rounds cursor _) answered in
      let lists : Lists found batch distinct = λ q. merged_contains q found batch all same in
      let distinct_under : Under p distinct = sorted_distinct-All _ all all_under in
      let listing : IsListing p distinct = (
        sorted_distinct-Ascending all,
        distinct_under,
        within_key_budget-eq-ok e (length distinct) (describe e Connection r) fits,
      ) in
      elim (Bool-cases (next == 0)) [
        | inl last ↦
            subst (λ k. IsListing p k × Adds reply p (suc rounds) cursor found k)
              (ok_injective (rw last at h₃))
              (
                listing,
                Adds-last reply p rounds cursor next found batch distinct replied last lists,
              )
        | inr more ↦
            let (listed, adds) =
              scan_rounds_sound r reply p rounds next distinct keys (rw more at h₃)
                distinct_under in
            (
              listed,
              Adds-more reply p rounds cursor next found batch distinct keys replied more lists
                  adds,
            )
      ]

  -- A scan that succeeds finds exactly the keys that the server hands out on the way from cursor 0
  -- back to cursor 0, however they are spread over the rounds and however often one is repeated:
  -- each once, in order, all under the prefix, and no more than the budget. It took at most the
  -- rounds that it is given.
  pub scan-IsListing :
      (r : Redis e Connection) (reply : Reply) (p : Text) (keys : List Text)
      → scan e Connection r reply p ≡ ok keys
      → IsListing p keys
        × ((all : List Text) × Hands reply p most_scan_rounds 0 all
            × ((q : Text) → contains_text q keys ≡ contains_text q all))
  unfolding scan contains_text
  scan-IsListing r reply p keys h = scan_rounds_sound r reply p most_scan_rounds 0 [] keys h tt
