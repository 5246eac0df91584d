-- ===== src/Firestore/Values/Encoded.antt =====
-- The encoding that Firestore documents, and what it is decoded to.
use dynamic_config_remote.Common.{
  ◌≡◌, refl, ap, Bool, true, false, none, some, Text, text, text_eq, text_eq_iff, if◌then◌else◌,
  parse_signed, decimal_signed, Bool-cases, Option-cases, inl, inr,
}
use dynamic_config_remote.Json.{
  Json, null, boolean, number, string, array, object, Elements, no_elements, element, Table,
  no_entries, entry,
}
use dynamic_config_remote.Firestore.Values.{integer, by_tag, one, ones, one_each, to_json}

-- A number that is an `i64` in the one form that it is printed in.
unfoldable pub is_integer : Text → Bool
unfolding parse_signed decimal_signed text_eq
is_integer n = elim (parse_signed n) [ none ↦ false | some i ↦ text_eq (decimal_signed i) n ]

abbrev pub tagged : Text → Json → Json
tagged tag value = object (entry tag value no_entries)

-- Google's documentation of `Value`: an integer is a string, a map holds its entries under `fields`
-- and an array its elements under `values`.
unfoldable mutual
  unfolding is_integer text

  pub encoded : Json → Json
  encoded null = tagged (text "nullValue") null
  encoded (boolean b) = tagged (text "booleanValue") (boolean b)
  encoded (number n) =
      if is_integer n
      then tagged (text "integerValue") (string n)
      else tagged (text "doubleValue") (number n)
  encoded (string s) = tagged (text "stringValue") (string s)
  encoded (array values) =
      tagged (text "arrayValue") (tagged (text "values") (array (encoded_all values)))
  encoded (object table) =
      tagged (text "mapValue") (tagged (text "fields") (object (encoded_fields table)))

  pub encoded_all : Elements → Elements
  encoded_all no_elements = no_elements
  encoded_all (element value values) = element (encoded value) (encoded_all values)

  pub encoded_fields : Table → Table
  encoded_fields no_entries = no_entries
  encoded_fields (entry name value table) = entry name (encoded value) (encoded_fields table)

integer-string : (n : Text) → is_integer n ≡ true → integer (string n) ≡ number n
unfolding integer is_integer
integer-string n h = elim (Option-cases (parse_signed n)) [
  | inl other ↦ let refused = rw (is_integer, other) at h in cc
  | inr (i, parsed) ↦
      let same = (text_eq_iff (decimal_signed i) n).0 (rw (is_integer, parsed) at h) in
      rw (integer, parsed) (ap number same)
]

mutual
  unfolding one encoded by_tag text text_eq

  one-encoded : (value : Json) → one (encoded value) ≡ value
  one-encoded null = refl
  one-encoded (boolean b) = refl
  one-encoded (number n) = elim (Bool-cases (is_integer n)) [
    | inl whole ↦ rw whole (integer-string n whole)
    | inr other ↦ rw other refl
  ]
  one-encoded (string s) = refl
  one-encoded (array values) = ap array (ones-encoded_all values)
  one-encoded (object table) = ap object (one_each-encoded_fields table)

  ones-encoded_all : (values : Elements) → ones (encoded_all values) ≡ values
  ones-encoded_all no_elements = refl
  ones-encoded_all (element value values) = rw (one-encoded value, ones-encoded_all values) refl

  one_each-encoded_fields : (table : Table) → one_each (encoded_fields table) ≡ table
  one_each-encoded_fields no_entries = refl
  one_each-encoded_fields (entry name value table) =
      rw (one-encoded value, one_each-encoded_fields table) refl

-- A document of a configuration, however deep its tables and arrays, is what its encoding in
-- Firestore is decoded to: names and orders are kept, nothing is dropped, and integers come back as
-- numbers.
pub to_json-encoded_fields :
    (table : Table) → to_json (object (encoded_fields table)) ≡ object table
unfolding to_json
to_json-encoded_fields table = ap object (one_each-encoded_fields table)
