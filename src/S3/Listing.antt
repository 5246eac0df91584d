-- ===== src/S3/Listing.antt =====
-- What a listing of the keys under a prefix finds.
use dynamic_config_remote.Common.{
  ℕ, zero, suc, ◌≤◌, ◌≡◌, refl, ap, sym, subst, ◌∙◌, true, List, [], ◌∷◌, ◌++◌, Option, none, some,
  Text, is_some, ends_with_char, strip_prefix, length, All, All-snoc, append_nil, append_snoc,
  append_assoc, if◌then◌else◌, Result, ok, map_err, map_err-eq-ok, >>=-eq-ok, ok_injective,
  Bool-cases, Option-cases, inl, inr,
}
use dynamic_config_remote.Engine.{Engine}
use dynamic_config_remote.Store.Documents.{most_keys, within_key_budget, under_prefix}
use dynamic_config_remote.Store.Documents.Bounds.{under_prefix-eq-ok, within_key_budget-eq-ok}
use dynamic_config_remote.S3.{S3Error, Page, Source, most_list_pages, describe, classified}
use dynamic_config_remote.S3.Reads.{page_keys, list_pages, list_keys}

-- The documents among the keys of a listing: a key that ends in a slash is a folder.
abbrev pub documents_among : List (Option Text) → List Text
documents_among [] = []
documents_among (none ∷ contents) = documents_among contents
documents_among (some key ∷ contents) =
    if ends_with_char b'/' key then documents_among contents else key ∷ documents_among contents

module _ (e : Engine) (from_utf8 : List ℕ → Result Text Text) where
  abbrev pub PageOf : Type 0
  PageOf = ℕ → Option Text → Result Page S3Error

  -- The store hands out the whole of this list in the pages that are left, from this token on.
  abbrev pub Hands : PageOf → ℕ → Option Text → List (Option Text) → Type 0
  Hands page_of zero token contents = ⊥
  Hands page_of (suc pages) token contents =
      (page : Page) × (later : List (Option Text)) × (page_of pages token ≡ ok page)
      × (contents ≡ page.contents ++ later)
      × (elim page.next_token as (λ o. Type 0) [
        | none ↦ later ≡ []
        | some next ↦ Hands page_of pages (some next) later
      ])

  abbrev pub Under : Text → List Text → Type 0
  Under p keys = All (λ key. is_some (strip_prefix p key) ≡ true) keys

  documents_among-append :
      (xs ys : List (Option Text))
      → documents_among (xs ++ ys) ≡ documents_among xs ++ documents_among ys
  unfolding ends_with_char
  documents_among-append [] ys = refl
  documents_among-append (none ∷ xs) ys = documents_among-append xs ys
  documents_among-append (some key ∷ xs) ys = elim (Bool-cases (ends_with_char b'/' key)) [
    | inl folder ↦ rw folder (documents_among-append xs ys)
    | inr document ↦ rw document (ap (◌∷◌ key) (documents_among-append xs ys))
  ]

  page_keys_sound :
      (s : Source e from_utf8) (p : Text) (found : List Text) (contents : List (Option Text))
      (all : List Text)
      → page_keys e from_utf8 s p found contents ≡ ok all
      → Under p found
      → (all ≡ found ++ documents_among contents) × Under p all
  unfolding page_keys
  page_keys_sound s p found [] all h under =
      let same = ok_injective h in (sym (append_nil found ∙ same), subst (Under p) same under)
  page_keys_sound s p found (none ∷ contents) all h under =
      page_keys_sound s p found contents all h under
  page_keys_sound s p found (some key ∷ contents) all h under =
      let (u, here, h') = >>=-eq-ok (under_prefix e key p (describe e from_utf8 s)) _ h in
      elim (Bool-cases (ends_with_char b'/' key)) [
        | inl folder ↦ rw folder (page_keys_sound s p found contents all (rw folder at h') under)
        | inr document ↦
            let (same, all_under) =
              page_keys_sound s p (found ++ key ∷ []) contents all (rw document at h') (
                All-snoc _ found key under
                  (under_prefix-eq-ok e key p (describe e from_utf8 s) here)) in
            (rw document (same ∙ append_snoc found key (documents_among contents)), all_under)
      ]

  list_pages_sound :
      (s : Source e from_utf8) (page_of : PageOf) (p : Text) (pages : ℕ) (token : Option Text)
      (found keys : List Text)
      → list_pages e from_utf8 s page_of p pages token found ≡ ok keys
      → Under p found
      → Under p keys
        × (length keys ≤ most_keys)
        × ((contents : List (Option Text)) × Hands page_of pages token contents
            × (keys ≡ found ++ documents_among contents))
  unfolding list_pages
  list_pages_sound s page_of p zero token found keys h under = cc
  list_pages_sound s page_of p (suc pages) token found keys h under =
      let (page, answered, h₁) =
        >>=-eq-ok (map_err (classified e from_utf8 s) (page_of pages token)) _ h in
      let (all, gathered, h₂) = >>=-eq-ok (page_keys e from_utf8 s p found page.contents) _ h₁ in
      let (same, all_under) = page_keys_sound s p found page.contents all gathered under in
      let (u, fits, h₃) =
        >>=-eq-ok (within_key_budget e (length all) (describe e from_utf8 s)) _ h₂ in
      let replied = map_err-eq-ok (classified e from_utf8 s) (page_of pages token) answered in
      elim (Option-cases page.next_token) [
        | inl over ↦
            let ends : all ≡ keys = ok_injective (rw over at h₃) in
            (
              subst (Under p) ends all_under,
              subst (λ k. length k ≤ most_keys) ends
                  (within_key_budget-eq-ok e (length all) (describe e from_utf8 s) fits),
              (
                page.contents,
                (page, [], replied, sym (append_nil page.contents), rw over refl),
                sym ends ∙ same,
              ),
            )
        | inr (next, goes_on) ↦
            let (keys_under, bounded, (later, hands, adds)) =
              list_pages_sound s page_of p pages (some next) all keys (rw goes_on at h₃)
                all_under in
            (
              keys_under,
              bounded,
              (
                page.contents ++ later,
                (page, later, replied, refl, rw goes_on hands),
                adds
                    ∙ (ap (λ a. a ++ documents_among later) same
                        ∙ (append_assoc found (documents_among page.contents)
                              (documents_among later)
                            ∙ ap (λ a. found ++ a)
                                (sym (documents_among-append page.contents later)))),
              ),
            )
      ]

  -- A listing that succeeds finds exactly the documents that the store hands out from the first page
  -- to the one without a token, in that order and the folders left out: all under the prefix, and no
  -- more than the budget. It took at most the pages that it is given.
  pub list_keys-IsListing :
      (s : Source e from_utf8) (page_of : PageOf) (p : Text) (keys : List Text)
      → list_keys e from_utf8 s page_of p ≡ ok keys
      → Under p keys
        × (length keys ≤ most_keys)
        × ((contents : List (Option Text)) × Hands page_of most_list_pages none contents
            × (keys ≡ documents_among contents))
  unfolding list_keys
  list_keys-IsListing s page_of p keys h =
      list_pages_sound s page_of p most_list_pages none [] keys h tt
