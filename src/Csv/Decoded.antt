-- ===== src/Csv/Decoded.antt =====
-- What `decodeCsvRawValues` of server/core/csv-values.ts may change.
use maintainflow.Csv.{Quoted, quoted_cells}
use maintainflow.Csv.Values.{
  SchemaField, schema_field, array_field, object_field, scalar_field, SchemaFields, by_key,
  token_value, decode_text, decode_fields, decode_value, decode_items, decode_csv_raw_values,
  value_limit, depth_limit,
}
use maintainflow.Prelude.{
  ℕ, ◌+◌, ◌≡◌, List, [], ◌∷◌, Option, some, none, ok, ltb, Option-cases, ◌⊎◌, Result-cases, inl,
  inr, bind-ok, refuse-ok, ok-Ensures,
}
use maintainflow.Prelude.Json.{
  Json, string, array, object, Items, no_items, item, Fields, no_fields, field,
}
use maintainflow.Prelude.Text.{Str}

-- The second value is the first with values in place of some tokens: no key, no order and no
-- length differs, nor any value but a text that is a token.
mutual
  pub data IsDecoded (quoted : Quoted) : Json → Json → Type 0 where
    kept : (value : Json) → IsDecoded quoted value value
    replaced :
        (token value : Str)
        → token_value quoted token ≡ some value
        → IsDecoded quoted (string token) (string value)
    in_array :
        (items decoded : Items)
        → AreDecoded quoted items decoded
        → IsDecoded quoted (array items) (array decoded)
    in_object :
        (values decoded : Fields)
        → AreFieldsDecoded quoted values decoded
        → IsDecoded quoted (object values) (object decoded)

  pub data AreDecoded (quoted : Quoted) : Items → Items → Type 0 where
    no_more : AreDecoded quoted no_items no_items
    next :
        (value decoded : Json) (rest others : Items)
        → IsDecoded quoted value decoded
        → AreDecoded quoted rest others
        → AreDecoded quoted (item value rest) (item decoded others)

  pub data AreFieldsDecoded (quoted : Quoted) : Fields → Fields → Type 0 where
    no_more_fields : AreFieldsDecoded quoted no_fields no_fields
    next_field :
        (key : Str) (value decoded : Json) (rest others : Fields)
        → IsDecoded quoted value decoded
        → AreFieldsDecoded quoted rest others
        → AreFieldsDecoded quoted (field key value rest) (field key decoded others)

decode_text-IsDecoded :
    (quoted : Quoted) (s : Str) → IsDecoded quoted (string s) (string (decode_text quoted s))
unfolding decode_text
decode_text-IsDecoded quoted s = elim (Option-cases (token_value quoted s)) [
  | inl e ↦ rw (e, decode_text) (kept (string s))
  | inr (value, e) ↦ rw (e, decode_text) (replaced s value e)
]

fields_kept : (quoted : Quoted) (values : Fields) → AreFieldsDecoded quoted values values
fields_kept quoted no_fields = no_more_fields
fields_kept quoted (field key value rest) =
    next_field key value value rest rest (kept value) (fields_kept quoted rest)

mutual
  unfolding decode_fields

  decode_fields-AreFieldsDecoded :
      (quoted : Quoted) (schema : SchemaFields) (depth : ℕ) (values : Fields) (visited seen : ℕ)
      (decoded : Fields)
      → decode_fields quoted schema depth values visited ≡ ok (seen, decoded)
      → AreFieldsDecoded quoted values decoded
  decode_fields-AreFieldsDecoded quoted schema depth no_fields visited seen decoded h =
      ok-Ensures (λ r. AreFieldsDecoded quoted no_fields r.1) h no_more_fields
  decode_fields-AreFieldsDecoded quoted schema depth (field key value rest) visited seen decoded h =
      refuse-ok (ltb value_limit (visited + 1)) _ _ h λ _ h1.
        bind-ok (decode_value quoted (by_key schema key) depth value (visited + 1)) _ h1 λ r e h2.
          bind-ok (decode_fields quoted schema depth rest r.0) _ h2 λ q e1 h3.
            ok-Ensures (λ z. AreFieldsDecoded quoted (field key value rest) z.1) h3
              (next_field key value r.1 rest q.1
                (decode_value-IsDecoded quoted (by_key schema key) depth value (visited + 1) r.0 r.1
                  e)
                (decode_fields-AreFieldsDecoded quoted schema depth rest r.0 q.0 q.1 e1))

  decode_value-IsDecoded :
      (quoted : Quoted) (known : Option SchemaField) (depth : ℕ) (value : Json) (visited seen : ℕ)
      (decoded : Json)
      → decode_value quoted known depth value visited ≡ ok (seen, decoded)
      → IsDecoded quoted value decoded
  decode_value-IsDecoded quoted none depth value visited seen decoded h =
      ok-Ensures (λ r. IsDecoded quoted value r.1) h (kept value)
  decode_value-IsDecoded quoted (some (schema_field key array_field fields)) depth (array items)
        visited seen decoded h =
      bind-ok (decode_items quoted fields depth items visited) _ h λ r e h1.
        ok-Ensures (λ z. IsDecoded quoted (array items) z.1) h1
          (in_array items r.1 (decode_items-AreDecoded quoted fields depth items visited r.0 r.1 e))
  decode_value-IsDecoded quoted (some (schema_field key object_field fields)) depth (object values)
        visited seen decoded h =
      refuse-ok (ltb depth_limit (depth + 1)) _ _ h λ _ h1.
        bind-ok (decode_fields quoted fields (depth + 1) values visited) _ h1 λ r e h2.
          ok-Ensures (λ z. IsDecoded quoted (object values) z.1) h2
            (in_object values r.1
              (decode_fields-AreFieldsDecoded quoted fields (depth + 1) values visited r.0 r.1 e))
  decode_value-IsDecoded quoted (some (schema_field key scalar_field fields)) depth (string s)
        visited seen decoded h =
      ok-Ensures (λ r. IsDecoded quoted (string s) r.1) h (decode_text-IsDecoded quoted s)
  decode_value-IsDecoded quoted (some (schema_field key _ fields)) depth value visited seen decoded
        h =
      ok-Ensures (λ r. IsDecoded quoted value r.1) h (kept value)

  decode_items-AreDecoded :
      (quoted : Quoted) (schema : SchemaFields) (depth : ℕ) (items : Items) (visited seen : ℕ)
      (decoded : Items)
      → decode_items quoted schema depth items visited ≡ ok (seen, decoded)
      → AreDecoded quoted items decoded
  decode_items-AreDecoded quoted schema depth no_items visited seen decoded h =
      ok-Ensures (λ r. AreDecoded quoted no_items r.1) h no_more
  decode_items-AreDecoded quoted schema depth (item (object values) rest) visited seen decoded h =
      refuse-ok (ltb value_limit (visited + 1)) _ _ h λ _ h1.
        refuse-ok (ltb depth_limit (depth + 1)) _ _ h1 λ _ h2.
          bind-ok (decode_fields quoted schema (depth + 1) values (visited + 1)) _ h2 λ r e h3.
            bind-ok (decode_items quoted schema depth rest r.0) _ h3 λ q e1 h4.
              ok-Ensures (λ z. AreDecoded quoted (item (object values) rest) z.1) h4
                (next (object values) (object r.1) rest q.1
                  (in_object values r.1 (
                    decode_fields-AreFieldsDecoded quoted schema (depth + 1) values (visited + 1)
                      r.0 r.1 e))
                  (decode_items-AreDecoded quoted schema depth rest r.0 q.0 q.1 e1))
  decode_items-AreDecoded quoted schema depth (item value rest) visited seen decoded h =
      refuse-ok (ltb value_limit (visited + 1)) _ _ h λ _ h1.
        bind-ok (decode_items quoted schema depth rest (visited + 1)) _ h1 λ q e1 h2.
          ok-Ensures (λ z. AreDecoded quoted (item value rest) z.1) h2
            (next value value rest q.1 (kept value)
              (decode_items-AreDecoded quoted schema depth rest (visited + 1) q.0 q.1 e1))

-- The values that normalization is given have the keys, the order and the lengths of the raw
-- values, and differ from them only where a text is a token that the document quotes: there they
-- have the value that the token stands for. Without a readable document they are the raw values.
pub decode_csv_raw_values-AreFieldsDecoded :
    (raw : Fields) (schema : SchemaFields) (pages : List Str)
    → ((quoted : Quoted) × (quoted_cells pages ≡ ok quoted)
        × AreFieldsDecoded quoted raw (decode_csv_raw_values raw schema pages))
      ⊎ (decode_csv_raw_values raw schema pages ≡ raw)
unfolding decode_csv_raw_values
decode_csv_raw_values-AreFieldsDecoded raw schema pages = elim (Result-cases (quoted_cells pages)) [
  | inr (x, e) ↦ inr (rw (e, decode_csv_raw_values))
  | inl ([], e) ↦ inr (rw (e, decode_csv_raw_values))
  | inl (entry ∷ entries, e) ↦
      elim (Result-cases (decode_fields (entry ∷ entries) schema 0 raw 0)) [
        | inr (x, e1) ↦ inr (rw (e, decode_csv_raw_values, e1))
        | inl ((seen, decoded), e1) ↦ inl (
          entry ∷ entries,
          e,
          rw (e, decode_csv_raw_values, e1)
              (decode_fields-AreFieldsDecoded (entry ∷ entries) schema 0 raw 0 seen decoded e1),
        )
      ]
]
