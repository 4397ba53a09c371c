-- ===== src/Csv.antt =====
-- CSV cells: `quotedCells` of server/core/csv-values.ts, which reads the quoted cells of a document.
-- Csv.Quote has the tokens, and the quoting that `renderExport` of server/integrations/export-format.ts writes.
pub mod Quote
pub mod RoundTrip
pub mod Read
pub mod Fuel
pub mod Values
pub mod Decoded
mod Examples
use maintainflow.Prelude.{
  ℕ, zero, suc, ◌+◌, ◌*◌, Bool, true, false, not, ◌&&◌, ◌||◌, List, [], ◌∷◌, ◌++◌, Option, some,
  none, length, ltb, ◌==◌, if◌then◌else◌, Result, ok, err, refuse, ◌>>=◌, ◌>>◌,
}
use maintainflow.Prelude.Text.{Str, str_eq}
use Quote.{quote, is_separator, take_quoted, take_plain, unescape, skip_separator}

abbrev pub page_limit : ℕ
page_limit = 30

abbrev pub character_limit : ℕ
character_limit = 512 * 1024

abbrev pub cell_limit : ℕ
cell_limit = 20000

-- `refused` is the result null.
pub data CsvStop : Type 0 where
  refused out_of_fuel : CsvStop

-- A map from tokens to values, as a list of entries.
abbrev pub Quoted : Type 0
Quoted = List (Str × Str)

-- `quoted.set(token, value)`.
unfoldable pub set_token : Quoted → Str → Str → Quoted
set_token [] token value = (token, value) ∷ []
set_token ((k, v) ∷ rest) token value =
    let later = set_token rest token value in
    if str_eq k token then (k, value) ∷ rest else (k, v) ∷ later

-- The counter of cells and the two collections.
pub record Cells : Type 0 where
  pub cells : ℕ
  pub quoted : Quoted
  pub decoded : List Str

unfoldable pub ends_cell : Str → Bool
ends_cell [] = true
ends_cell (c ∷ _) = is_separator c

-- A cell that begins with a quote, which is not part of `s`; the rest begins with a separator.
unfoldable pub quoted_cell : Cells → Str → Result CsvStop (Cells × Str)
unfolding take_quoted unescape set_token ends_cell
quoted_cell st s = elim (take_quoted false s) [
  | none ↦ err refused
  | some (inner, rest) ↦ (do
    refuse (not (ends_cell rest)) refused
    ok (
      record st {
        quoted = set_token st.quoted (quote ∷ inner ++ quote ∷ []) (unescape false inner);
        decoded = unescape false inner ∷ st.decoded;
      },
      rest,
    ))
]

unfoldable pub plain_cell : Cells → Str → Result CsvStop (Cells × Str)
unfolding take_plain
plain_cell st s = elim (take_plain s) [
  | none ↦ err refused
  | some (value, rest) ↦ ok (record st { decoded = value ∷ st.decoded }, rest)
]

-- One round of the loop over the cells, without the step over the separator.
unfoldable pub scan_cell : Cells → ℕ → Str → Result CsvStop (Cells × Str)
unfolding quoted_cell plain_cell
scan_cell st c s = do
  refuse (ltb cell_limit (st.cells + 1)) refused
  let counted : Cells = record st { cells = st.cells + 1 }
  if c == quote then quoted_cell counted s else plain_cell counted (c ∷ s)

-- The loop over the cells of a page, on fuel: a round takes one code unit at least.
unfoldable pub scan_cells : ℕ → Cells → Str → Result CsvStop Cells
unfolding scan_cell skip_separator
scan_cells fuel st [] = ok st
scan_cells zero st (c ∷ s) = err out_of_fuel
scan_cells (suc fuel) st (c ∷ s) = do
  (next, rest) ← scan_cell st c s
  scan_cells fuel next (skip_separator rest)

-- `text.startsWith('\uFEFF') ? 1 : 0`.
unfoldable pub drop_mark : Str → Str
drop_mark [] = []
drop_mark (c ∷ s) = if c == 0xfeff then s else c ∷ s

-- The loop over the pages, with the characters of the pages so far.
unfoldable pub scan_pages : ℕ → Cells → List Str → Result CsvStop Cells
unfolding scan_cells drop_mark
scan_pages characters st [] = ok st
scan_pages characters st (text ∷ pages) = do
  refuse (ltb character_limit (characters + length text)) refused
  next ← scan_cells (length text) st (drop_mark text)
  scan_pages (characters + length text) next pages

unfoldable pub was_decoded : Str → List Str → Bool
was_decoded token [] = false
was_decoded token (value ∷ values) = str_eq token value || was_decoded token values

-- `quoted.delete(value)` for each decoded value.
unfoldable pub drop_decoded : List Str → Quoted → Quoted
unfolding was_decoded
drop_decoded decoded [] = []
drop_decoded decoded ((token, value) ∷ rest) =
    let kept = drop_decoded decoded rest in
    if was_decoded token decoded then kept else (token, value) ∷ kept

unfoldable pub quoted_cells : List Str → Result CsvStop Quoted
unfolding scan_pages drop_decoded
quoted_cells pages = do
  refuse (ltb page_limit (length pages)) refused
  final ← scan_pages 0 (record { cells = 0; quoted = []; decoded = [] }) pages
  ok (drop_decoded final.decoded final.quoted)
