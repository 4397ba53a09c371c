-- ===== src/Export/Examples.antt =====
-- Tests of server/integrations/export-format.ts, and the theorems at concrete inputs.
use maintainflow.Export.{
  text_cell, number_cell, ExportOptions, ExportRecord, ExportTable, export_rows, starts_formula,
}
use maintainflow.Export.Table.{
  IsInert, AreIdsInert, starts_formula-IsFormula, export_rows-AreRows, export_rows-AreInert,
}
use maintainflow.Prelude.{◌*◌, ◌≤◌, ◌≡◌, arith, refl, [], ◌∷◌, some, none, ok, length}
use maintainflow.Prelude.All.{All}
use maintainflow.Prelude.Json.{
  Num, Json, object, array, field, no_fields, item, no_items, string, number, whole,
}
use maintainflow.Prelude.Text.{Str, codes}
use maintainflow.Csv.{Quoted, quoted_cells, was_decoded}
use maintainflow.Csv.Quote.{csv_quote}
use maintainflow.Csv.Values.{token_value}
use maintainflow.Export.RoundTrip.{render_csv-quoted_cells}
use maintainflow.Export.Text.{csv_text, render_csv}

-- An invoice with two lines, one of which would be a formula.
abbrev line : Str → Json
line name = object (field (codes "name") (string name) no_fields)

abbrev invoice : ExportRecord
invoice = record {
  document_id = codes "d1";
  filename = codes "a.pdf";
  run_id = codes "r1";
  revision = 2;
  approval_id = none;
  values = field (codes "total") (number (whole 7)) (
      field (codes "lines")
        (array (item (line (codes "=1+1")) (item (line (codes "pen")) no_items))) no_fields);
}

abbrev options : ExportOptions
options = record { columns = none; line_items = some (codes "lines") }

abbrev stringify : Json → Str
stringify value = codes "{}"

abbrev table : ExportTable
table = record {
  headers = text_cell (codes "total") ∷ text_cell (codes "lines.name") ∷ [];
  rows =
      (number_cell (whole 7) ∷ text_cell (codes "'=1+1") ∷ [])
      ∷ (number_cell (whole 7) ∷ text_cell (codes "pen") ∷ [])
      ∷ [];
}

test_export_rows : export_rows stringify (invoice ∷ []) options ≡ ok table
unfolding export_rows
test_export_rows = refl

export_rows-AreRows_example :
    All (λ row. length row ≡ length table.headers) table.rows
    × (length table.rows ≤ 100000)
    × (length table.rows * length table.headers ≤ 2000000)
unfolding export_rows
export_rows-AreRows_example = export_rows-AreRows stringify (invoice ∷ []) options table refl

no_formulas : AreIdsInert invoice
unfolding starts_formula
no_formulas = record {
  document = starts_formula-IsFormula (codes "d1") refl;
  run = starts_formula-IsFormula (codes "r1") refl;
  approval = λ f. f;
}

export_rows-AreInert_example : All IsInert table.headers × All (All IsInert) table.rows
unfolding export_rows
export_rows-AreInert_example =
    export_rows-AreInert stringify (invoice ∷ []) options table (no_formulas, tt) refl

abbrev show_number : Num → Str
show_number n = codes "7"

-- A byte-order mark, two headers and two rows.
test_csv_text :
    csv_text show_number table
    ≡ 0xfeff ∷ codes "\"total\",\"lines.name\"\r\n\"7\",\"'=1+1\"\r\n\"7\",\"pen\"\r\n"
unfolding csv_text
test_csv_text = refl

render_csv-quoted_cells_example :
    (text : Str) × (quoted : Quoted) × (render_csv show_number stringify (invoice ∷ []) options
      ≡ ok text)
    × (quoted_cells (text ∷ []) ≡ ok quoted)
    × (token_value quoted (csv_quote (codes "'=1+1")) ≡ some (codes "'=1+1"))
unfolding export_rows csv_text was_decoded csv_quote
render_csv-quoted_cells_example =
    render_csv-quoted_cells show_number stringify (invoice ∷ []) options table (codes "'=1+1") refl
      (omega arith) (omega arith) (omega arith) refl refl
