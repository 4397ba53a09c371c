-- ===== src/Export/Text.antt =====
-- The text of a comma-separated export: the branch for CSV of `renderExport` of
-- server/integrations/export-format.ts, in front of its encoding. `show_number` is `String` of a
-- number.
use maintainflow.Csv.Quote.{csv_quote}
use maintainflow.Export.{
  Cell, text_cell, number_cell, bool_cell, ExportRecord, ExportOptions, ExportRefusal, ExportTable,
  export_rows,
}
use maintainflow.Prelude.{List, [], ◌∷◌, ◌++◌, map, true, false, Result, ok, ◌>>=◌}
use maintainflow.Prelude.Json.{Num, Json}
use maintainflow.Prelude.Text.{Str, codes}

-- `list.join(separator)`.
unfoldable pub join : Str → List Str → Str
join separator [] = []
join separator (s ∷ []) = s
join separator (s ∷ t ∷ rest) = s ++ separator ++ join separator (t ∷ rest)

abbrev pub row_end : Str
row_end = 13 ∷ 10 ∷ []

module _ (show_number : Num → Str) where
  -- `String(value)`.
  abbrev pub cell_text : Cell → Str
  cell_text (text_cell s) = s
  cell_text (number_cell n) = show_number n
  cell_text (bool_cell true) = codes "true"
  cell_text (bool_cell false) = codes "false"

  -- `row.map(quote).join(',')`.
  unfoldable pub csv_row : List Cell → Str
  unfolding csv_quote join
  csv_row row = join (44 ∷ []) (map (λ cell. csv_quote (cell_text cell)) row)

  unfoldable pub csv_text : ExportTable → Str
  unfolding csv_row join
  csv_text table = 0xfeff ∷ join row_end (map csv_row (table.headers ∷ table.rows)) ++ row_end

  unfoldable pub render_csv :
      (Json → Str) → List ExportRecord → ExportOptions → Result ExportRefusal Str
  unfolding export_rows csv_text
  render_csv stringify records options = do
    table ← export_rows stringify records options
    ok (csv_text table)
