-- ===== src/Provider/Sheets.antt =====
-- The ranges and rows of a Google sheet: `sheetColumn`, `sheetRows` and `sheetRanges` of
-- server/integrations/provider-policy.ts. `JSON.stringify` is a parameter.
pub mod Bounds
use maintainflow.Bank.Decimal.Print.{digits_of}
use maintainflow.Export.{
  Cell, text_cell, number_cell, bool_cell, is_finite_text, ExportColumn, get_path,
}
use maintainflow.Prelude.{
  ℕ, zero, suc, ◌+◌, ◌-◌, ◌*◌, ◌/◌, ◌%◌, Bool, true, false, not, ◌&&◌, ◌||◌, List, [], ◌∷◌, ◌++◌,
  map, Option, some, none, Result, ok, err, ◌>>=◌, ◌>>◌, refuse, map_result, ltb, leb, ◌==◌,
  if◌then◌else◌, length, drop,
}
use maintainflow.Prelude.Json.{
  Json, Num, whole, other_number, Fields, null, bool, number, string, array, object, list_of_items,
}
use maintainflow.Prelude.Text.{Str, codes, str_eq, starts_with}

pub data SheetFault : Type 0 where
  column_limit value_limit row_limit reservation_limit : SheetFault

-- `while (index)`, with a letter in front of `name` in each round.
unfoldable pub column_loop : ℕ → ℕ → Str → Str
column_loop zero index name = name
column_loop (suc fuel) index name =
    let rest = column_loop fuel ((index - 1) / 26) ((65 + (index - 1) % 26) ∷ name) in
    if index == 0 then name else rest

unfoldable pub sheet_column : ℕ → Result SheetFault Str
unfolding column_loop
sheet_column index = do
  refuse (ltb index 1 || ltb 50 index) column_limit
  ok (column_loop 50 index [])

-- `valueAt`.
unfoldable pub value_at : Json → Str → Json
unfolding get_path
value_at value path = get_path value path

pub record SheetConfig : Type 0 where
  pub sheet_name : Str
  pub sheet_columns : List ExportColumn
  pub sheet_line_items : Option Str

pub record ApprovalPayload : Type 0 where
  pub payload_document_id : Str
  pub payload_document_name : Str
  pub payload_run_id : Str
  pub payload_revision : ℕ
  pub payload_values : Fields

-- The rows that a payload takes: one for each line item, or one.
unfoldable pub sheet_items : ApprovalPayload → SheetConfig → List Json
unfolding value_at
sheet_items payload config =
    let found : Json = elim config.sheet_line_items [
      | none ↦ null
      | some [] ↦ null
      | some (c ∷ s) ↦ value_at (object payload.payload_values) (c ∷ s)
    ] in
    elim found [
      | array items ↦ elim (list_of_items items) [ [] ↦ null ∷ [] | x ∷ xs ↦ x ∷ xs ]
      | _ ↦ null ∷ []
    ]

abbrev pub sheet_text_limit : ℕ
sheet_text_limit = 49000

unfoldable pub short_text : Str → Result SheetFault Cell
short_text text = do refuse (ltb sheet_text_limit (length text)) value_limit; ok (text_cell text)

module _ (stringify : Json → Str) where
  -- `rawCell` of a value that is there.
  unfoldable pub raw_cell : Json → Result SheetFault Cell
  unfolding short_text
  raw_cell null = ok (text_cell [])
  raw_cell (number (whole n)) = ok (number_cell (whole n))
  raw_cell (number (other_number s)) =
      ok (if is_finite_text s then number_cell (other_number s) else text_cell [])
  raw_cell (bool b) = ok (bool_cell b)
  raw_cell (string s) = short_text s
  raw_cell value = short_text (stringify value)

  unfoldable pub sheet_cell : ApprovalPayload → Json → ExportColumn → Result SheetFault Cell
  unfolding raw_cell starts_with value_at
  sheet_cell payload item column =
      if str_eq column.source (codes "$documentId")
      then ok (text_cell payload.payload_document_id)
      else if str_eq column.source (codes "$filename")
      then raw_cell (string payload.payload_document_name)
      else if str_eq column.source (codes "$runId")
      then ok (text_cell payload.payload_run_id)
      else if str_eq column.source (codes "$revision")
      then ok (number_cell (whole payload.payload_revision))
      else if starts_with column.source (codes "$item.")
      then raw_cell (value_at item (drop 6 column.source))
      else raw_cell (value_at (object payload.payload_values) column.source)

  unfoldable pub sheet_rows : ApprovalPayload → SheetConfig → Result SheetFault (List (List Cell))
  unfolding sheet_items sheet_cell map_result
  sheet_rows payload config = do
    let items = sheet_items payload config
    refuse (ltb 1000 (length items)) row_limit
    map_result (λ item. map_result (sheet_cell payload item) config.sheet_columns) items

-- `text.replaceAll("'", "''")`.
unfoldable pub double_quotes : Str → Str
double_quotes [] = []
double_quotes (c ∷ s) = let rest = double_quotes s in if c == b'\'' then c ∷ c ∷ rest else c ∷ rest

pub record SheetRanges : Type 0 where
  pub header_range : Str
  pub data_range : Str

unfoldable pub sheet_ranges : SheetConfig → ℕ → ℕ → Result SheetFault SheetRanges
unfolding sheet_column double_quotes digits_of
sheet_ranges config start_row row_count = do
  refuse (ltb start_row 2 || ltb 1000000 (start_row + row_count)) reservation_limit
  last ← sheet_column (length config.sheet_columns)
  let tab = b'\'' ∷ double_quotes config.sheet_name ++ codes "'"
  ok (record {
    header_range = tab ++ codes "!A1:" ++ last ++ codes "1";
    data_range =
        tab
        ++ codes "!A"
        ++ digits_of start_row
        ++ codes ":"
        ++ last
        ++ digits_of (start_row + row_count - 1);
  })
