-- ===== src/Json.antt =====
-- `serde_json::Value`, with the accessors that the program uses.
use dynamic_config_remote.Common.{
  ℕ, ◌^◌, Bool, true, false, List, [], ◌∷◌, Option, none, some, Text, text_eq, parse_unsigned,
  if◌then◌else◌,
}

-- A `serde_json::Value`; a table is the list of its entries in the order of the map.
mutual
  pub data Json : Type 0 where
    null : Json
    boolean : Bool → Json
    number : Text → Json
    string : Text → Json
    array : Elements → Json
    object : Table → Json

  pub data Elements : Type 0 where
    no_elements : Elements
    element : Json → Elements → Elements

  pub data Table : Type 0 where
    no_entries : Table
    entry : Text → Json → Table → Table

unfoldable pub entry_of : Text → Table → Option Json
entry_of key no_entries = none
entry_of key (entry name value table) =
    let rest = entry_of key table in if text_eq name key then some value else rest

-- `Value::get` of a key: nothing where the value is no object.
unfoldable pub get_json : Text → Json → Option Json
unfolding entry_of
get_json key (object table) = entry_of key table
get_json key _ = none

abbrev pub as_str : Json → Option Text
as_str (string s) = some s
as_str _ = none

abbrev pub as_bool : Json → Option Bool
as_bool (boolean b) = some b
as_bool _ = none

-- A number is its text, as JSON has it.
unfoldable pub as_u64 : Json → Option ℕ
as_u64 (number n) = parse_unsigned (2 ^ 64) n
as_u64 _ = none

abbrev pub is_null : Json → Bool
is_null null = true
is_null _ = false

abbrev pub elements : Elements → List Json
elements no_elements = []
elements (element value values) = value ∷ elements values

abbrev pub as_array : Json → Option (List Json)
as_array (array values) = some (elements values)
as_array _ = none

abbrev pub and_then {ℓ κ} : {A : Type ℓ} {B : Type κ} → Option A → (A → Option B) → Option B
and_then none next = none
and_then (some a) next = next a

abbrev pub unwrap_or {ℓ} : {A : Type ℓ} → Option A → A → A
unwrap_or none d = d
unwrap_or (some a) d = a
