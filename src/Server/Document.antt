-- ===== src/Server/Document.antt =====
-- dynamic-config-server/src/document.rs: the served document, and the paths of its leaves.
pub mod Paths
mod Tests
use dynamic_config_remote.Common.{List, [], ◌∷◌, ◌++◌, Text}
pub use dynamic_config_remote.Json.{
  Json, null, boolean, number, string, array, object, Elements, no_elements, element, Table,
  no_entries, entry,
}

-- `collect`, and its loop over the entries of a nested table: the prefix of one entry is truncated
-- away before the next one. An empty table is a leaf, like whatever is no table.
unfoldable mutual
  pub collect : Json → Text → List Text → List Text
  collect null prefix paths = paths ++ prefix ∷ []
  collect (boolean b) prefix paths = paths ++ prefix ∷ []
  collect (number n) prefix paths = paths ++ prefix ∷ []
  collect (string s) prefix paths = paths ++ prefix ∷ []
  collect (array items) prefix paths = paths ++ prefix ∷ []
  collect (object no_entries) prefix paths = paths ++ prefix ∷ []
  collect (object (entry key nested table)) prefix paths =
      collect_entries table prefix (collect nested (prefix ++ b'.' ∷ key) paths)

  pub collect_entries : Table → Text → List Text → List Text
  collect_entries no_entries prefix paths = paths
  collect_entries (entry key nested table) prefix paths =
      collect_entries table prefix (collect nested (prefix ++ b'.' ∷ key) paths)

-- The loop of `leaf_paths` over the root, where the prefix is cleared before each key.
unfoldable pub root_paths : Table → List Text → List Text
unfolding collect
root_paths no_entries paths = paths
root_paths (entry key value table) paths = root_paths table (collect value key paths)

unfoldable pub leaf_paths : Json → List Text
unfolding root_paths
leaf_paths (object table) = root_paths table []
leaf_paths _ = []
