-- ===== src/Common/Sorting.antt =====
-- `Vec<String>::sort` and `dedup`: the order of two texts is that of their scalar values, which is
-- that of their UTF-8 bytes.
use mathlib.Core.Path.{◌≡◌, refl, ◌∙◌}
use mathlib.Core.Logic.{inl, inr}
use mathlib.Core.Bool.{Bool, true, false, ◌||◌}
use mathlib.Core.List.{List, [], ◌∷◌, ◌++◌}
use native.Mathlib.Omega.{arith}
use dynamic_config_remote.Common.Tests.{ltb, ◌==◌, if◌then◌else◌, Bool-cases}
use dynamic_config_remote.Common.Lists.{All}
use dynamic_config_remote.Common.Texts.{Text, text_eq, text_eq_iff}

unfoldable pub text_leb : Text → Text → Bool
text_leb [] t = true
text_leb (c ∷ s) [] = false
text_leb (c ∷ s) (d ∷ t) = let rest = text_leb s t in if c == d then rest else ltb c d

text_leb_total : (s t : Text) → text_leb s t ≡ false → text_leb t s ≡ true
unfolding text_leb
text_leb_total [] t h = cc
text_leb_total (c ∷ s) [] h = refl
text_leb_total (c ∷ s) (d ∷ t) h = ground (arith, text_leb_total s t)

text_leb_trans : (s t u : Text) → text_leb s t ≡ true → text_leb t u ≡ true → text_leb s u ≡ true
unfolding text_leb
text_leb_trans [] t u h k = refl
text_leb_trans (c ∷ s) [] u h k = cc
text_leb_trans (c ∷ s) (d ∷ t) [] h k = cc
text_leb_trans (c ∷ s) (d ∷ t) (x ∷ u) h k = ground (arith, text_leb_trans s t u)

text_leb_antisym : (s t : Text) → text_leb s t ≡ true → text_leb t s ≡ true → text_eq s t ≡ true
unfolding text_leb text_eq
text_leb_antisym [] [] h k = refl
text_leb_antisym [] (d ∷ t) h k = cc
text_leb_antisym (c ∷ s) [] h k = cc
text_leb_antisym (c ∷ s) (d ∷ t) h k = ground (arith, text_leb_antisym s t)

insert_text : Text → List Text → List Text
insert_text k [] = k ∷ []
insert_text k (x ∷ xs) =
    let rest = insert_text k xs in if text_leb k x then k ∷ x ∷ xs else x ∷ rest

unfoldable pub sort_texts : List Text → List Text
unfolding insert_text
sort_texts [] = []
sort_texts (k ∷ ks) = insert_text k (sort_texts ks)

push_distinct : Text → List Text → List Text
push_distinct k [] = k ∷ []
push_distinct k (x ∷ xs) = if text_eq k x then x ∷ xs else k ∷ x ∷ xs

-- Of neighbours that are equal, one stays.
unfoldable pub dedup_texts : List Text → List Text
unfolding push_distinct
dedup_texts [] = []
dedup_texts (k ∷ ks) = push_distinct k (dedup_texts ks)

unfoldable pub contains_text : Text → List Text → Bool
contains_text k [] = false
contains_text k (x ∷ xs) = text_eq x k || contains_text k xs

-- Each text is before all that follow, so none stands twice.
abbrev pub Ascending : List Text → Type 0
Ascending [] = Unit
Ascending (x ∷ xs) = All (λ y. text_leb y x ≡ false) xs × Ascending xs

abbrev Sorted : List Text → Type 0
Sorted [] = Unit
Sorted (x ∷ xs) = All (λ y. text_leb x y ≡ true) xs × Sorted xs

All_above :
    (k x : Text) (xs : List Text)
    → text_leb k x ≡ true
    → All (λ y. text_leb x y ≡ true) xs
    → All (λ y. text_leb k y ≡ true) xs
All_above k x [] h a = tt
All_above k x (y ∷ xs) h (here, a) = (text_leb_trans k x y h here, All_above k x xs h a)

-- What holds of a text and of all in a list holds of all where it is inserted.
insert_text-All {ℓ} :
    (P : Text → Type ℓ) (k : Text) (xs : List Text) → P k → All P xs → All P (insert_text k xs)
unfolding insert_text
insert_text-All P k [] h a = (h, tt)
insert_text-All P k (x ∷ xs) h (here, a) = elim (Bool-cases (text_leb k x)) [
  | inl before ↦ rw (insert_text, before) (h, (here, a))
  | inr after ↦ rw (insert_text, after) (here, insert_text-All P k xs h a)
]

insert_text-Sorted : (k : Text) (xs : List Text) → Sorted xs → Sorted (insert_text k xs)
unfolding insert_text
insert_text-Sorted k [] h = (tt, tt)
insert_text-Sorted k (x ∷ xs) (above, h) = elim (Bool-cases (text_leb k x)) [
  | inl before ↦ rw (insert_text, before) ((before, All_above k x xs before above), (above, h))
  | inr after ↦
      rw (insert_text, after)
        (
          insert_text-All (λ y. text_leb x y ≡ true) k xs (text_leb_total k x after) above,
          insert_text-Sorted k xs h,
        )
]

sort_texts-Sorted : (ks : List Text) → Sorted (sort_texts ks)
unfolding sort_texts
sort_texts-Sorted [] = tt
sort_texts-Sorted (k ∷ ks) = insert_text-Sorted k (sort_texts ks) (sort_texts-Sorted ks)

dedup_texts-All {ℓ} : (P : Text → Type ℓ) (xs : List Text) → All P xs → All P (dedup_texts xs)
unfolding dedup_texts push_distinct
dedup_texts-All P [] a = tt
dedup_texts-All P (k ∷ ks) (h, a) = pushed k (dedup_texts ks) h (dedup_texts-All P ks a)
  where
    pushed : (k : Text) (xs : List Text) → P k → All P xs → All P (push_distinct k xs)
    pushed k [] h a = (h, tt)
    pushed k (x ∷ xs) h (here, a) = elim (Bool-cases (text_eq k x)) [
      | inl same ↦ rw (push_distinct, same) (here, a)
      | inr other ↦ rw (push_distinct, other) (h, (here, a))
    ]

not_below : (k x y : Text) → text_leb k x ≡ true → text_leb y x ≡ false → text_leb y k ≡ false
not_below k x y h below = elim (Bool-cases (text_leb y k)) [
  | inl below_too ↦ absurd (differ (text_leb y x) (text_leb_trans y k x below_too h) below)
  | inr above ↦ above
]
  where
    differ : (b : Bool) → b ≡ true → b ≡ false → ⊥
    differ b h k = cc

distinct_below : (k x : Text) → text_leb k x ≡ true → text_eq k x ≡ false → text_leb x k ≡ false
distinct_below k x h other = elim (Bool-cases (text_leb x k)) [
  | inl below_too ↦ ground (arith, text_leb_antisym k x)
  | inr above ↦ above
]

All_not_below :
    (k x : Text) (xs : List Text)
    → text_leb k x ≡ true
    → All (λ y. text_leb y x ≡ false) xs
    → All (λ y. text_leb y k ≡ false) xs
All_not_below k x [] h a = tt
All_not_below k x (y ∷ xs) h (here, a) = (not_below k x y h here, All_not_below k x xs h a)

push_distinct-Ascending :
    (k : Text) (xs : List Text)
    → All (λ y. text_leb k y ≡ true) xs
    → Ascending xs
    → Ascending (push_distinct k xs)
unfolding push_distinct
push_distinct-Ascending k [] above h = (tt, tt)
push_distinct-Ascending k (x ∷ xs) (least, above) (apart, h) = elim (Bool-cases (text_eq k x)) [
  | inl same ↦ rw (push_distinct, same) (apart, h)
  | inr other ↦
      rw (push_distinct, other)
        ((distinct_below k x least other, All_not_below k x xs least apart), (apart, h))
]

dedup_texts-Ascending : (xs : List Text) → Sorted xs → Ascending (dedup_texts xs)
unfolding dedup_texts
dedup_texts-Ascending [] h = tt
dedup_texts-Ascending (k ∷ ks) (above, h) =
    push_distinct-Ascending k (dedup_texts ks) (dedup_texts-All (λ y. text_leb k y ≡ true) ks above)
      (dedup_texts-Ascending ks h)

pub sorted_distinct-Ascending : (ks : List Text) → Ascending (dedup_texts (sort_texts ks))
sorted_distinct-Ascending ks = dedup_texts-Ascending (sort_texts ks) (sort_texts-Sorted ks)

sort_texts-All {ℓ} : (P : Text → Type ℓ) (ks : List Text) → All P ks → All P (sort_texts ks)
unfolding sort_texts
sort_texts-All P [] a = tt
sort_texts-All P (k ∷ ks) (h, a) = insert_text-All P k (sort_texts ks) h (sort_texts-All P ks a)

pub sorted_distinct-All {ℓ} :
    (P : Text → Type ℓ) (ks : List Text) → All P ks → All P (dedup_texts (sort_texts ks))
sorted_distinct-All P ks a = dedup_texts-All P (sort_texts ks) (sort_texts-All P ks a)

insert_text-contains :
    (q k : Text) (xs : List Text)
    → contains_text q (insert_text k xs) ≡ (text_eq k q || contains_text q xs)
unfolding insert_text contains_text
insert_text-contains q k [] = refl
insert_text-contains q k (x ∷ xs) = ground (arith, insert_text-contains q k xs)

sort_texts-contains :
    (q : Text) (ks : List Text) → contains_text q (sort_texts ks) ≡ contains_text q ks
unfolding sort_texts contains_text
sort_texts-contains q [] = refl
sort_texts-contains q (k ∷ ks) =
    ground (arith, insert_text-contains q k (sort_texts ks), sort_texts-contains q ks)

absorbed : (a b : Bool) → (a || b) ≡ (a || (a || b))
absorbed true b = refl
absorbed false b = refl

push_distinct-contains :
    (q k : Text) (xs : List Text)
    → contains_text q (push_distinct k xs) ≡ (text_eq k q || contains_text q xs)
unfolding push_distinct contains_text
push_distinct-contains q k [] = refl
push_distinct-contains q k (x ∷ xs) = elim (Bool-cases (text_eq k x)) [
  | inl same ↦
      let k_is : k ≡ x = (text_eq_iff k x).0 same in
      rw (push_distinct, same) (rw k_is (absorbed (text_eq x q) (contains_text q xs)))
  | inr other ↦ rw other refl
]

dedup_texts-contains :
    (q : Text) (ks : List Text) → contains_text q (dedup_texts ks) ≡ contains_text q ks
unfolding dedup_texts contains_text
dedup_texts-contains q [] = refl
dedup_texts-contains q (k ∷ ks) =
    ground (arith, push_distinct-contains q k (dedup_texts ks), dedup_texts-contains q ks)

pub sorted_distinct-contains :
    (q : Text) (ks : List Text) → contains_text q (dedup_texts (sort_texts ks)) ≡ contains_text q ks
sorted_distinct-contains q ks = dedup_texts-contains q (sort_texts ks) ∙ sort_texts-contains q ks

pub contains_text-append :
    (q : Text) (xs ys : List Text)
    → contains_text q (xs ++ ys) ≡ (contains_text q xs || contains_text q ys)
unfolding contains_text
contains_text-append q [] ys = refl
contains_text-append q (x ∷ xs) ys = ground (arith, contains_text-append q xs ys)
