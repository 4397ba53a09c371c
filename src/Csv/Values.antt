-- ===== src/Csv/Values.antt =====
-- `decodeCsvRawValues` of server/core/csv-values.ts, which puts the values of the quoted cells in
-- place of the tokens, under a schema.
use maintainflow.Csv.{Quoted, quoted_cells}
use maintainflow.Prelude.{
  ℕ, ◌+◌, Bool, List, [], ◌∷◌, Option, some, none, Result, ok, err, ◌>>=◌, ◌>>◌, refuse, ltb,
  if◌then◌else◌,
}
use maintainflow.Prelude.Json.{
  Json, string, array, object, Items, no_items, item, Fields, no_fields, field,
}
use maintainflow.Prelude.Text.{Str, str_eq}

abbrev pub value_limit : ℕ
value_limit = 10000

abbrev pub depth_limit : ℕ
depth_limit = 8

-- Of the types of a field, those that are told apart.
pub data FieldType : Type 0 where
  array_field object_field scalar_field : FieldType

-- Of a field of a schema, its key, its type and its own fields.
mutual
  pub data SchemaField : Type 0 where
    schema_field : Str → FieldType → SchemaFields → SchemaField

  pub data SchemaFields : Type 0 where
    no_columns : SchemaFields
    with_field : SchemaField → SchemaFields → SchemaFields

abbrev pub is_keyed : Str → SchemaField → Bool
is_keyed key (schema_field name _ _) = str_eq name key

-- `new Map(fields.map(field => [field.key, field])).get(key)`: the last field of a key counts.
unfoldable pub by_key : SchemaFields → Str → Option SchemaField
by_key no_columns key = none
by_key (with_field f fs) key = elim (by_key fs key) [
  | some later ↦ some later
  | none ↦ if is_keyed key f then some f else none
]

-- `quoted.get(token)`.
unfoldable pub token_value : Quoted → Str → Option Str
token_value [] token = none
token_value ((k, v) ∷ rest) token =
    let later = token_value rest token in if str_eq k token then some v else later

-- `quoted.get(value) ?? value`.
unfoldable pub decode_text : Quoted → Str → Str
unfolding token_value
decode_text quoted s = elim (token_value quoted s) [ none ↦ s | some value ↦ value ]

-- The traversal is given up.
pub data Exceeded : Type 0 where
  exceeded : Exceeded

-- The number is `visited`.
unfoldable mutual
  unfolding by_key decode_text

  pub decode_fields : Quoted → SchemaFields → ℕ → Fields → ℕ → Result Exceeded (ℕ × Fields)
  decode_fields quoted schema depth no_fields visited = ok (visited, no_fields)
  decode_fields quoted schema depth (field key value rest) visited = do
    refuse (ltb value_limit (visited + 1)) exceeded
    (seen, decoded) ← decode_value quoted (by_key schema key) depth value (visited + 1)
    (all, others) ← decode_fields quoted schema depth rest seen
    ok (all, field key decoded others)

  pub decode_value : Quoted → Option SchemaField → ℕ → Json → ℕ → Result Exceeded (ℕ × Json)
  decode_value quoted none depth value visited = ok (visited, value)
  decode_value quoted (some (schema_field key array_field fields)) depth (array items) visited = do
    (seen, decoded) ← decode_items quoted fields depth items visited
    ok (seen, array decoded)
  decode_value quoted (some (schema_field key object_field fields)) depth (object values) visited =
      do
        refuse (ltb depth_limit (depth + 1)) exceeded
        (seen, decoded) ← decode_fields quoted fields (depth + 1) values visited
        ok (seen, object decoded)
  decode_value quoted (some (schema_field key scalar_field fields)) depth (string s) visited =
      ok (visited, string (decode_text quoted s))
  decode_value quoted (some (schema_field key _ fields)) depth value visited = ok (visited, value)

  pub decode_items : Quoted → SchemaFields → ℕ → Items → ℕ → Result Exceeded (ℕ × Items)
  decode_items quoted schema depth no_items visited = ok (visited, no_items)
  decode_items quoted schema depth (item (object values) rest) visited = do
    refuse (ltb value_limit (visited + 1)) exceeded
    refuse (ltb depth_limit (depth + 1)) exceeded
    (seen, decoded) ← decode_fields quoted schema (depth + 1) values (visited + 1)
    (all, others) ← decode_items quoted schema depth rest seen
    ok (all, item (object decoded) others)
  decode_items quoted schema depth (item value rest) visited = do
    refuse (ltb value_limit (visited + 1)) exceeded
    (all, others) ← decode_items quoted schema depth rest (visited + 1)
    ok (all, item value others)

-- The values as they are extracted, where there is no token or a limit is exceeded.
unfoldable pub decode_csv_raw_values : Fields → SchemaFields → List Str → Fields
unfolding quoted_cells decode_fields
decode_csv_raw_values raw schema pages = elim (quoted_cells pages) [
  | err _ ↦ raw
  | ok [] ↦ raw
  | ok (entry ∷ entries) ↦ elim (decode_fields (entry ∷ entries) schema 0 raw 0) [
    | err _ ↦ raw
    | ok (visited, decoded) ↦ decoded
  ]
]
