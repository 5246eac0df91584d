-- ===== src/Server/Document/Tests.antt =====
-- The unit tests of document.rs, and the theorem at a concrete input.
use dynamic_config_remote.Common.{◌≡◌, refl, [], ◌∷◌, text, map, join}
use dynamic_config_remote.Server.Document.{
  number, string, array, object, no_elements, element, Table, no_entries, entry, leaf_paths,
}
use dynamic_config_remote.Server.Document.Paths.{entry_routes, leaf_paths-entry_routes}

abbrev served : Table
served = entry (text "empty") (object no_entries) (
    entry (text "host") (string (text "db")) (
      entry (text "pool")
        (object (
          entry (text "max") (number (text "8"))
            (entry (text "min") (number (text "1")) no_entries)))
        (entry (text "tags") (array (element (string (text "a")) no_elements)) no_entries)))

leaf_paths_reach_into_nested_tables_and_stop_at_arrays :
    leaf_paths (object served)
    ≡ text "empty" ∷ text "host" ∷ text "pool.max" ∷ text "pool.min" ∷ text "tags" ∷ []
unfolding leaf_paths text
leaf_paths_reach_into_nested_tables_and_stop_at_arrays = refl

a_key_that_is_the_empty_string_still_has_a_path :
    leaf_paths (
      object (
        entry []
          (number (text "1"))
          (entry (text "pool") (object (entry [] (number (text "2")) no_entries)) no_entries)))
    ≡ [] ∷ text "pool." ∷ []
unfolding leaf_paths text
a_key_that_is_the_empty_string_still_has_a_path = refl

a_document_that_is_not_a_table_has_no_paths :
    (leaf_paths (number (text "7")) ≡ []) × (leaf_paths (object no_entries) ≡ [])
unfolding leaf_paths
a_document_that_is_not_a_table_has_no_paths = (refl, refl)

leaf_paths-entry_routes_example :
    leaf_paths (object served) ≡ map (join (b'.' ∷ [])) (entry_routes served)
leaf_paths-entry_routes_example = leaf_paths-entry_routes served
