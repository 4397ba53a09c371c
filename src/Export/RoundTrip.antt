-- ===== src/Export/RoundTrip.antt =====
-- A comma-separated export of server/integrations/export-format.ts that is uploaded again: the
-- tokens that `quotedCells` of server/core/csv-values.ts takes from it.
use maintainflow.Csv.{
  Quoted, Cells, scan_pages, quoted_cells, was_decoded, drop_decoded, drop_mark, character_limit,
  cell_limit,
}
use maintainflow.Csv.Quote.{csv_quote}
use maintainflow.Csv.Read.{
  read_cell, token_value-set_token, token_value-set_same, token_value-drop_decoded,
}
use maintainflow.Csv.Values.{token_value}
use maintainflow.Export.{Cell, ExportRecord, ExportOptions, ExportTable, export_rows, flat_map}
use maintainflow.Export.Read.{rounds, read_row, scan_cells-lines}
use maintainflow.Export.Table.{export_rows-AreRows}
use maintainflow.Export.Text.{join, row_end, cell_text, csv_row, csv_text, render_csv}
use maintainflow.Prelude.{
  ℕ, ◌+◌, ◌-◌, ◌≤◌, ◌<◌, ◌≡◌, true, false, List, [], ◌∷◌, ◌++◌, map, some, ok, length,
  length-append, ltb, refl, sym, ◌∙◌, arith, Bool-cases, inl, inr,
}
use maintainflow.Prelude.All.{All, All-mono}
use maintainflow.Prelude.Json.{Num, Json}
use maintainflow.Prelude.Text.{Str, str_eq, str_eq_iff}

abbrev start : Cells
start = record { cells = 0; quoted = []; decoded = [] }

-- The cells of a table, the headers first.
abbrev pub table_cells : ExportTable → List Cell
table_cells table = flat_map (λ r. r) (table.headers ∷ table.rows)

length-rounds : (row : List Cell) (extra : ℕ) → rounds row extra ≡ length row + extra
length-rounds [] extra = omega arith
length-rounds (cell ∷ row) extra = omega (arith, length-rounds row extra)

module _ (show_number : Num → Str) where
  length-csv_row : (row : List Cell) → length row ≤ length (csv_row show_number row)
  unfolding csv_row join csv_quote
  length-csv_row [] = omega arith
  length-csv_row (cell ∷ []) = omega arith
  length-csv_row (cell ∷ next ∷ row) =
      let token = csv_quote (cell_text show_number cell) in
      omega (
        arith,
        length-csv_row (next ∷ row),
        length-append (token ++ 44 ∷ []) (csv_row show_number (next ∷ row)),
        length-append token (44 ∷ []),
      )

  length-lines :
      (rows : List (List Cell))
      → length (flat_map (λ r. r) rows) ≤ length (join row_end (map (csv_row show_number) rows))
  unfolding join
  length-lines [] = omega arith
  length-lines (row ∷ []) = omega (arith, length-csv_row row, length-append row [])
  length-lines (row ∷ next ∷ rows) =
      let others = join row_end (map (csv_row show_number) (next ∷ rows)) in
      omega (
        arith,
        length-csv_row row,
        length-lines (next ∷ rows),
        length-append row (flat_map (λ r. r) (next ∷ rows)),
        length-append (csv_row show_number row ++ row_end) others,
        length-append (csv_row show_number row) row_end,
      )

  read_row-kept :
      (st : Cells) (row : List Cell) (v : Str)
      → token_value st.quoted (csv_quote v) ≡ some v
      → token_value (read_row show_number st row).quoted (csv_quote v) ≡ some v
  read_row-kept st [] v h = h
  read_row-kept st (cell ∷ row) v h =
      let w = cell_text show_number cell in
      read_row-kept (read_cell st w) row v (token_value-set_token st.quoted v w h)

  read_row-token :
      (st : Cells) (row : List Cell) (v : Str)
      → was_decoded v (map (cell_text show_number) row) ≡ true
      → token_value (read_row show_number st row).quoted (csv_quote v) ≡ some v
  unfolding was_decoded
  read_row-token st [] v h = cc
  read_row-token st (cell ∷ row) v h =
      let w = cell_text show_number cell in
      elim (Bool-cases (str_eq v w)) [
        | inl e ↦
            read_row-kept (read_cell st w) row v
              (rw (sym ((str_eq_iff v w).0 e)) (token_value-set_same st.quoted (csv_quote v) v))
        | inr e ↦ read_row-token (read_cell st w) row v (rw e at h)
      ]

  read_row-decoded :
      (st : Cells) (row : List Cell) (token : Str)
      → was_decoded token (map (cell_text show_number) row) ≡ false
      → was_decoded token st.decoded ≡ false
      → was_decoded token (read_row show_number st row).decoded ≡ false
  unfolding was_decoded
  read_row-decoded st [] token h k = k
  read_row-decoded st (cell ∷ row) token h k =
      let w = cell_text show_number cell in
      elim (Bool-cases (str_eq token w)) [
        | inl e ↦ let h1 = rw e at h in cc
        | inr e ↦ read_row-decoded (read_cell st w) row token (rw e at h) (rw e k)
      ]

  scan_pages-csv_text :
      (table : ExportTable)
      → All (λ r. 0 < length r) (table.headers ∷ table.rows)
      → length (csv_text show_number table) ≤ character_limit
      → length (table_cells table) ≤ cell_limit
      → scan_pages 0 start (csv_text show_number table ∷ [])
        ≡ ok (read_row show_number start (table_cells table))
  unfolding scan_pages drop_mark csv_text
  scan_pages-csv_text table full short few =
      let text = csv_text show_number table in
      let cells = table_cells table in
      let body = join row_end (map (csv_row show_number) (table.headers ∷ table.rows)) in
      let within : ltb character_limit (0 + length text) ≡ false = ground arith in
      let fuel : length text ≡ rounds cells (length text - length cells) = omega (
        arith,
        length-rounds cells (length text - length cells),
        length-lines (table.headers ∷ table.rows),
        length-append body row_end,
      ) in
      rw (within, fuel)
        (rw
          (scan_cells-lines show_number (length text - length cells) start table.headers table.rows
            full (omega (arith, few)))
          refl)

  quoted_cells-csv_text :
      (table : ExportTable) (v : Str)
      → All (λ r. 0 < length r) (table.headers ∷ table.rows)
      → length (csv_text show_number table) ≤ character_limit
      → length (table_cells table) ≤ cell_limit
      → was_decoded v (map (cell_text show_number) (table_cells table)) ≡ true
      → was_decoded (csv_quote v) (map (cell_text show_number) (table_cells table)) ≡ false
      → (quoted : Quoted) × (quoted_cells (csv_text show_number table ∷ []) ≡ ok quoted)
        × (token_value quoted (csv_quote v) ≡ some v)
  unfolding quoted_cells was_decoded
  quoted_cells-csv_text table v full short few written plain =
      let final = read_row show_number start (table_cells table) in
      let kept = read_row-decoded start (table_cells table) (csv_quote v) plain refl in
      (
        drop_decoded final.decoded final.quoted,
        rw (scan_pages-csv_text table full short few) refl,
        token_value-drop_decoded final.decoded final.quoted (csv_quote v) kept
            ∙ read_row-token start (table_cells table) v written,
      )

  -- A comma-separated export with at least one column, no more than 512 Ki code units and no more
  -- than 20,000 cells, its headers among them, is readable when it is uploaded again: the quoted
  -- form of the text of any of its cells is read as a token that stands for that text, where no
  -- cell of the export has that quoted form as its own text.
  pub render_csv-quoted_cells :
      (stringify : Json → Str) (records : List ExportRecord) (options : ExportOptions)
      (table : ExportTable) (v : Str)
      → export_rows stringify records options ≡ ok table
      → 0 < length table.headers
      → length (csv_text show_number table) ≤ character_limit
      → length (table_cells table) ≤ cell_limit
      → was_decoded v (map (cell_text show_number) (table_cells table)) ≡ true
      → was_decoded (csv_quote v) (map (cell_text show_number) (table_cells table)) ≡ false
      → (text : Str) × (quoted : Quoted) × (render_csv show_number stringify records options
          ≡ ok text)
        × (quoted_cells (text ∷ []) ≡ ok quoted)
        × (token_value quoted (csv_quote v) ≡ some v)
  unfolding render_csv
  render_csv-quoted_cells stringify records options table v h wide short few written plain =
      let shape = export_rows-AreRows stringify records options table h in
      let full =
        All-mono {P = λ row. length row ≡ length table.headers} {Q = λ r. 0 < length r}
          (λ row e. omega (arith, e, wide)) table.rows shape.0 in
      let (quoted, e, token) = quoted_cells-csv_text table v (wide, full) short few written plain in
      (csv_text show_number table, quoted, rw h refl, e, token)
