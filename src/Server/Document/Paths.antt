-- ===== src/Server/Document/Paths.antt =====
-- The walk finds every leaf, once, in order.
use dynamic_config_remote.Common.{◌≡◌, refl, sym, ap, ◌∙◌, List, [], ◌∷◌, ◌++◌, Text, map, join}
use mathlib.Core.List.{append-nil, append_assoc}
use dynamic_config_remote.Server.Document.{
  Json, null, boolean, number, string, array, object, Table, no_entries, entry, collect,
  collect_entries, root_paths, leaf_paths,
}

-- The keys on the way to each leaf below a value, the leaf's own last.
abbrev mutual
  pub routes : Json → List (List Text)
  routes null = [] ∷ []
  routes (boolean b) = [] ∷ []
  routes (number n) = [] ∷ []
  routes (string s) = [] ∷ []
  routes (array items) = [] ∷ []
  routes (object no_entries) = [] ∷ []
  routes (object (entry key nested table)) = map (◌∷◌ key) (routes nested) ++ entry_routes table

  pub entry_routes : Table → List (List Text)
  entry_routes no_entries = []
  entry_routes (entry key nested table) = map (◌∷◌ key) (routes nested) ++ entry_routes table

-- What the walk appends to the prefix for the keys below it.
abbrev dotted : List Text → Text
dotted [] = []
dotted (key ∷ keys) = (b'.' ∷ key) ++ dotted keys

join-dotted : (key : Text) (keys : List Text) → join (b'.' ∷ []) (key ∷ keys) ≡ key ++ dotted keys
unfolding join
join-dotted key [] = sym (append-nil key)
join-dotted key (next ∷ keys) = ap (λ rest. key ++ b'.' ∷ rest) (join-dotted next keys)

map-append : (f : List Text → Text) (r q : List (List Text)) → map f (r ++ q) ≡ map f r ++ map f q
map-append f [] q = refl
map-append f (keys ∷ r) q = ap (◌∷◌ (f keys)) (map-append f r q)

named :
    (key : Text) (routes : List (List Text))
    → map (λ keys. key ++ dotted keys) routes ≡ map (join (b'.' ∷ [])) (map (◌∷◌ key) routes)
named key [] = refl
named key (keys ∷ routes) = cc (join-dotted key keys, named key routes)

spelled :
    (prefix key : Text) (routes : List (List Text))
    → map (λ keys. (prefix ++ b'.' ∷ key) ++ dotted keys) routes
      ≡ map (λ keys. prefix ++ dotted keys) (map (◌∷◌ key) routes)
spelled prefix key [] = refl
spelled prefix key (keys ∷ routes) =
    cc (append_assoc prefix (b'.' ∷ key) (dotted keys), spelled prefix key routes)

-- One round of a loop over a table, and the rest of it: the paths found below a key are those of the
-- routes that begin with it.
round :
    (f g : List Text → Text) (key : Text) (r q : List (List Text)) (paths found total : List Text)
    → map g r ≡ map f (map (◌∷◌ key) r)
    → found ≡ paths ++ map g r
    → total ≡ found ++ map f q
    → total ≡ paths ++ map f (map (◌∷◌ key) r ++ q)
round f g key r q paths found total spelling here later =
    later
    ∙ ap (λ found. found ++ map f q) (here ∙ ap (λ more. paths ++ more) spelling)
    ∙ append_assoc paths (map f (map (◌∷◌ key) r)) (map f q)
    ∙ ap (λ more. paths ++ more) (sym (map-append f (map (◌∷◌ key) r) q))

mutual
  unfolding collect

  collect-routes :
      (value : Json) (prefix : Text) (paths : List Text)
      → collect value prefix paths ≡ paths ++ map (λ keys. prefix ++ dotted keys) (routes value)
  collect-routes null prefix paths = ap (λ p. paths ++ p ∷ []) (sym (append-nil prefix))
  collect-routes (boolean b) prefix paths = ap (λ p. paths ++ p ∷ []) (sym (append-nil prefix))
  collect-routes (number n) prefix paths = ap (λ p. paths ++ p ∷ []) (sym (append-nil prefix))
  collect-routes (string s) prefix paths = ap (λ p. paths ++ p ∷ []) (sym (append-nil prefix))
  collect-routes (array items) prefix paths = ap (λ p. paths ++ p ∷ []) (sym (append-nil prefix))
  collect-routes (object no_entries) prefix paths =
      ap (λ p. paths ++ p ∷ []) (sym (append-nil prefix))
  collect-routes (object (entry key nested table)) prefix paths =
      round (λ keys. prefix ++ dotted keys) (λ keys. (prefix ++ b'.' ∷ key) ++ dotted keys) key
        (routes nested) (entry_routes table) paths (collect nested (prefix ++ b'.' ∷ key) paths) _
        (spelled prefix key (routes nested)) (collect-routes nested (prefix ++ b'.' ∷ key) paths)
        (entries-routes table prefix (collect nested (prefix ++ b'.' ∷ key) paths))

  entries-routes :
      (table : Table) (prefix : Text) (paths : List Text)
      → collect_entries table prefix paths
        ≡ paths ++ map (λ keys. prefix ++ dotted keys) (entry_routes table)
  entries-routes no_entries prefix paths = sym (append-nil paths)
  entries-routes (entry key nested table) prefix paths =
      round (λ keys. prefix ++ dotted keys) (λ keys. (prefix ++ b'.' ∷ key) ++ dotted keys) key
        (routes nested) (entry_routes table) paths (collect nested (prefix ++ b'.' ∷ key) paths) _
        (spelled prefix key (routes nested)) (collect-routes nested (prefix ++ b'.' ∷ key) paths)
        (entries-routes table prefix (collect nested (prefix ++ b'.' ∷ key) paths))

-- The paths that are listed are those of the leaves, one for each, in order: the keys on the way to
-- it, with a dot between each two. An array is a leaf and so is an empty table, except the root.
pub leaf_paths-entry_routes :
    (table : Table) → leaf_paths (object table) ≡ map (join (b'.' ∷ [])) (entry_routes table)
unfolding leaf_paths
leaf_paths-entry_routes table = root table []
  where
    root :
        (table : Table) (paths : List Text)
        → root_paths table paths ≡ paths ++ map (join (b'.' ∷ [])) (entry_routes table)
    root no_entries paths = sym (append-nil paths)
    root (entry key value table) paths =
        round (join (b'.' ∷ [])) (λ keys. key ++ dotted keys) key (routes value)
          (entry_routes table) paths (collect value key paths) _ (named key (routes value))
          (collect-routes value key paths) (root table (collect value key paths))
