-- ===== src/Export/Read.antt =====
-- The text that `renderExport` of server/integrations/export-format.ts writes for CSV, and the
-- cells that `quotedCells` of server/core/csv-values.ts reads from it.
use mathlib.Core.List.{append_assoc}
use maintainflow.Csv.{Cells, scan_cells, ends_cell, cell_limit}
use maintainflow.Csv.Quote.{quote, escape, csv_quote, skip_separator}
use maintainflow.Csv.Read.{read_cell, scan_cell-csv_quote}
use maintainflow.Export.{Cell, flat_map}
use maintainflow.Export.Text.{join, row_end, cell_text, csv_row}
use maintainflow.Prelude.{
  ℕ, suc, ◌+◌, ◌≤◌, ◌<◌, ◌≡◌, true, List, [], ◌∷◌, ◌++◌, map, ok, length, length-append, refl, ap,
  ◌∙◌, arith,
}
use maintainflow.Prelude.All.{All}
use maintainflow.Prelude.Json.{Num}
use maintainflow.Prelude.Text.{Str}

scan_cells-csv_quote :
    (extra : ℕ) (st : Cells) (v rest : Str)
    → st.cells < cell_limit
    → ends_cell rest ≡ true
    → scan_cells (suc extra) st (csv_quote v ++ rest)
      ≡ scan_cells extra (read_cell st v) (skip_separator rest)
unfolding scan_cells csv_quote
scan_cells-csv_quote extra st v rest few h =
    rw (append_assoc (escape v) (quote ∷ []) rest, scan_cell-csv_quote st v rest few h) refl

skip_row_end : (rest : Str) → skip_separator (row_end ++ rest) ≡ rest
unfolding skip_separator
skip_row_end rest = refl

-- Fuel for each of the cells, and what is left.
abbrev pub rounds : List Cell → ℕ → ℕ
rounds [] extra = extra
rounds (cell ∷ row) extra = suc (rounds row extra)

rounds-append :
    (row others : List Cell) (extra : ℕ)
    → rounds (row ++ others) extra ≡ rounds row (rounds others extra)
rounds-append [] others extra = refl
rounds-append (cell ∷ row) others extra = ap suc (rounds-append row others extra)

module _ (show_number : Num → Str) where
  -- The state behind cells that are read as they are written.
  abbrev pub read_row : Cells → List Cell → Cells
  read_row st [] = st
  read_row st (cell ∷ row) = read_row (read_cell st (cell_text show_number cell)) row

  read_row-cells : (st : Cells) (row : List Cell) → (read_row st row).cells ≡ st.cells + length row
  read_row-cells st [] = omega arith
  read_row-cells st (cell ∷ row) =
      omega (arith, read_row-cells (read_cell st (cell_text show_number cell)) row)

  comma_skipped :
      (cell : Cell) (row : List Cell) (behind : Str)
      → skip_separator (44 ∷ csv_row show_number (cell ∷ row) ++ behind)
        ≡ csv_row show_number (cell ∷ row) ++ behind
  unfolding skip_separator csv_row join csv_quote
  comma_skipped cell [] behind = refl
  comma_skipped cell (next ∷ row) behind = refl

  scan_cells-csv_row :
      (extra : ℕ) (st : Cells) (cell : Cell) (row : List Cell) (rest : Str)
      → st.cells + suc (length row) ≤ cell_limit
      → scan_cells
          (rounds (cell ∷ row) extra)
          st
          (csv_row show_number (cell ∷ row) ++ (row_end ++ rest))
        ≡ scan_cells extra (read_row st (cell ∷ row)) rest
  unfolding csv_row join ends_cell
  scan_cells-csv_row extra st cell [] rest few =
      scan_cells-csv_quote extra st (cell_text show_number cell) (row_end ++ rest) (omega arith)
        refl
      ∙ ap (scan_cells extra (read_row st (cell ∷ []))) (skip_row_end rest)
  scan_cells-csv_row extra st cell (next ∷ row) rest few =
      let v = cell_text show_number cell in
      let behind = row_end ++ rest in
      let others = csv_row show_number (next ∷ row) in
      let split : csv_row show_number (cell ∷ next ∷ row) ++ behind
          ≡ csv_quote v ++ (44 ∷ others ++ behind) =
        append_assoc (csv_quote v ++ 44 ∷ []) others behind
        ∙ append_assoc (csv_quote v) (44 ∷ []) (others ++ behind) in
      ap (scan_cells (rounds (cell ∷ next ∷ row) extra) st) split
      ∙ scan_cells-csv_quote (rounds (next ∷ row) extra) st v (44 ∷ others ++ behind) (omega arith)
          refl
      ∙ ap (scan_cells (rounds (next ∷ row) extra) (read_cell st v)) (comma_skipped next row behind)
      ∙ scan_cells-csv_row extra (read_cell st v) next row rest (omega arith)

  read_row-append :
      (st : Cells) (row others : List Cell)
      → read_row st (row ++ others) ≡ read_row (read_row st row) others
  read_row-append st [] others = refl
  read_row-append st (cell ∷ row) others =
      read_row-append (read_cell st (cell_text show_number cell)) row others

  -- The rows of a table one after the other, each with its line end.
  pub scan_cells-lines :
      (extra : ℕ) (st : Cells) (row : List Cell) (rows : List (List Cell))
      → All (λ r. 0 < length r) (row ∷ rows)
      → st.cells + length (flat_map (λ r. r) (row ∷ rows)) ≤ cell_limit
      → scan_cells
          (rounds (flat_map (λ r. r) (row ∷ rows)) extra)
          st
          (join row_end (map (csv_row show_number) (row ∷ rows)) ++ row_end)
        ≡ ok (read_row st (flat_map (λ r. r) (row ∷ rows)))
  unfolding join scan_cells
  scan_cells-lines extra st [] rows full few = absurd (omega (arith, full.0))
  scan_cells-lines extra st (cell ∷ row) [] full few =
      let next = read_cell st (cell_text show_number cell) in
      let size = length-append row [] in
      rw (rounds-append row [] extra, read_row-append next row [])
        (scan_cells-csv_row extra st cell row [] (omega (arith, size)))
  scan_cells-lines extra st (cell ∷ row) (next ∷ rows) full few =
      let behind = flat_map (λ r. r) (next ∷ rows) in
      let after = read_cell st (cell_text show_number cell) in
      let line = csv_row show_number (cell ∷ row) in
      let others = join row_end (map (csv_row show_number) (next ∷ rows)) in
      let size = length-append row behind in
      let split : line ++ row_end ++ others ++ row_end ≡ line ++ (row_end ++ (others ++ row_end)) =
        append_assoc (line ++ row_end) others row_end
        ∙ append_assoc line row_end (others ++ row_end) in
      rw (split, rounds-append row behind extra, read_row-append after row behind)
        (scan_cells-csv_row (rounds behind extra) st cell row (others ++ row_end)
            (omega (arith, size))
          ∙ scan_cells-lines extra (read_row st (cell ∷ row)) next rows full.1
              (omega (arith, size, few, read_row-cells st (cell ∷ row))))
