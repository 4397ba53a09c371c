-- ===== src/Csv/Examples.antt =====
-- Tests of server/core/csv-values.ts, and the theorems at concrete inputs.
use maintainflow.Prelude.{◌≡◌, refl, [], ◌∷◌, ok, err, ◌⊎◌}
use maintainflow.Prelude.Text.{Str, codes}
use maintainflow.Csv.{refused, Quoted, quoted_cells}
use maintainflow.Csv.Quote.{quote}
use maintainflow.Csv.Values.{
  SchemaFields, schema_field, with_field, no_columns, scalar_field, decode_csv_raw_values,
}
use maintainflow.Csv.Decoded.{AreFieldsDecoded, decode_csv_raw_values-AreFieldsDecoded}
use maintainflow.Prelude.Json.{Fields, field, no_fields, string}
use maintainflow.Csv.RoundTrip.{AllQuoted, quoted_cells-AllQuoted}
use maintainflow.Csv.Fuel.{IsSettled, quoted_cells-IsSettled}

-- `1,"a""b"` and a line break.
abbrev line : Str
line = 49 ∷ 44 ∷ 34 ∷ 97 ∷ 34 ∷ 34 ∷ 98 ∷ 34 ∷ 10 ∷ []

abbrev tokens : Quoted
tokens = (34 ∷ 97 ∷ 34 ∷ 34 ∷ 98 ∷ 34 ∷ [], 97 ∷ 34 ∷ 98 ∷ []) ∷ []

one_line : quoted_cells (line ∷ []) ≡ ok tokens
unfolding quoted_cells
one_line = refl

unclosed : quoted_cells ((34 ∷ 97 ∷ []) ∷ []) ≡ err refused
unfolding quoted_cells
unclosed = refl

quoted_cells-AllQuoted_example : AllQuoted tokens
quoted_cells-AllQuoted_example = quoted_cells-AllQuoted (line ∷ []) tokens one_line

quoted_cells-IsSettled_example : IsSettled (λ _. Unit {0}) (quoted_cells (line ∷ []))
quoted_cells-IsSettled_example = quoted_cells-IsSettled (line ∷ [])

-- The document is one cell, `"x"`, and the value of the field is that token.
abbrev quoted_x : Str
quoted_x = quote ∷ b'x' ∷ quote ∷ []

abbrev raw_values : Fields
raw_values = field (codes "name") (string quoted_x) no_fields

abbrev name_schema : SchemaFields
name_schema = with_field (schema_field (codes "name") scalar_field no_columns) no_columns

test_decode_csv_raw_values :
    decode_csv_raw_values raw_values name_schema (quoted_x ∷ [])
    ≡ field (codes "name") (string (codes "x")) no_fields
unfolding decode_csv_raw_values
test_decode_csv_raw_values = refl

decode_csv_raw_values-AreFieldsDecoded_example :
    ((quoted : Quoted) × (quoted_cells (quoted_x ∷ []) ≡ ok quoted)
      × AreFieldsDecoded quoted raw_values
          (decode_csv_raw_values raw_values name_schema (quoted_x ∷ [])))
    ⊎ (decode_csv_raw_values raw_values name_schema (quoted_x ∷ []) ≡ raw_values)
decode_csv_raw_values-AreFieldsDecoded_example =
    decode_csv_raw_values-AreFieldsDecoded raw_values name_schema (quoted_x ∷ [])
