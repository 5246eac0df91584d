-- ===== src/Firestore/Values.antt =====
-- dynamic-config-firestore/src/value.rs: Firestore's tagged values as ordinary JSON.
pub mod Encoded
use mathlib.Core.Option
use dynamic_config_remote.Common.{
  Bool, true, false, List, [], ◌∷◌, Option, none, some, Text, text, text_eq, if◌then◌else◌,
  parse_signed, decimal_signed,
}
use dynamic_config_remote.Json.{
  Json, null, boolean, number, string, array, object, Elements, no_elements, element, Table,
  no_entries, entry, as_str, and_then,
}

abbrev pub empty_array : Json
empty_array = array no_elements

abbrev pub empty_object : Json
empty_object = object no_entries

-- `integerValue`: an `i64` comes as a string, and what is none stays as it came.
unfoldable pub integer : Json → Json
unfolding parse_signed decimal_signed
integer inner = elim (and_then (as_str inner) parse_signed) [
  | none ↦ inner
  | some i ↦ number (decimal_signed i)
]

-- The `match` of `one`: the value by its tag, with what it is as an array and as a map.
unfoldable pub by_tag : Text → Json → Json → Json → Json
unfolding text text_eq integer
by_tag tag inner values fields =
    if text_eq tag (text "nullValue")
    then null
    else if text_eq tag (text "integerValue")
    then integer inner
    else if text_eq tag (text "arrayValue")
    then values
    else if text_eq tag (text "mapValue")
    then fields
    else inner

-- `one` and `to_json`, with the look-ups of `values` and of `fields` in a tagged value: `one` reads
-- the first entry of its table.
unfoldable mutual
  unfolding by_tag text text_eq

  pub one : Json → Json
  one (object (entry tag inner table)) = by_tag tag inner (values_of inner) (fields_of inner)
  one _ = null

  pub ones : Elements → Elements
  ones no_elements = no_elements
  ones (element value values) = element (one value) (ones values)

  -- `inner.get("values")`
  pub values_of : Json → Json
  values_of (object table) = values_in table
  values_of _ = empty_array

  pub values_in : Table → Json
  values_in no_entries = empty_array
  values_in (entry name value table) =
      let here = as_ones value in
      let later = values_in table in if text_eq name (text "values") then here else later

  pub as_ones : Json → Json
  as_ones (array values) = array (ones values)
  as_ones _ = empty_array

  -- `inner.get("fields")`
  pub fields_of : Json → Json
  fields_of (object table) = fields_in table
  fields_of _ = empty_object

  pub fields_in : Table → Json
  fields_in no_entries = empty_object
  fields_in (entry name value table) =
      let here = to_json value in
      let later = fields_in table in if text_eq name (text "fields") then here else later

  pub to_json : Json → Json
  to_json (object table) = object (one_each table)
  to_json _ = empty_object

  pub one_each : Table → Table
  one_each no_entries = no_entries
  one_each (entry name value table) = entry name (one value) (one_each table)
