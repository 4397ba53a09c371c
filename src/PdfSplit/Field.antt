-- ===== src/PdfSplit/Field.antt =====
-- `parsePdfRanges` of shared/pdf-split.ts: the text field for page ranges, such as `1-2, 5, 7-9`.
pub mod RoundTrip
use maintainflow.Prelude.{
  ℕ, ◌+◌, ◌-◌, ◌*◌, ◌≡◌, Bool, true, false, ◌||◌, List, [], ◌∷◌, Option, some, none, length, Result,
  ok, err, refuse, ◌>>=◌, ◌>>◌, ltb, ◌==◌, if◌then◌else◌, map_result,
}
use maintainflow.Prelude.Text.{Str, is_digit, drop_spaces, trim, split}
use maintainflow.PdfSplit.{
  PdfPageRange, PdfSplitSpec, ranges, PdfSplitValidationReason, invalid_ranges, document_limit,
  whole, SpecSchema, AreBoundedRanges, max_pages, max_documents,
}
use maintainflow.PdfSplit.Marker.{is_empty}
use maintainflow.PdfSplit.Plan.{plan_pdf_split}

-- The value `{mode: 'ranges', ranges}` that is handed to the planner, and what its schema makes of it.
pub record RangesInput (schema : SpecSchema) : Type 0 where
  pub value : List PdfPageRange → schema.V
  pub accepts :
      (rs : List PdfPageRange)
      → AreBoundedRanges rs
      → schema.safe_parse (value rs) ≡ some (ranges rs)
  pub keeps :
      (rs : List PdfPageRange) (spec : PdfSplitSpec)
      → schema.safe_parse (value rs) ≡ some spec
      → spec ≡ ranges rs

-- The rest of `\d+` behind its first digit, and `Number` of what was read.
unfoldable pub take_digits : ℕ → Str → ℕ × Str
unfolding is_digit
take_digits n [] = (n, [])
take_digits n (c ∷ s) =
    let more = take_digits (n * 10 + (c - b'0')) s in if is_digit c then more else (n, c ∷ s)

-- `(\d+)`.
unfoldable pub take_number : Str → Option (ℕ × Str)
unfolding take_digits
take_number [] = none
take_number (c ∷ s) = if is_digit c then some (take_digits (c - b'0') s) else none

-- `-` or an en dash.
unfoldable pub is_dash : ℕ → Bool
is_dash c = c == b'-' || c == 0x2013

-- `$`, with both numbers read.
unfoldable pub close_range : ℕ → Str → Option PdfPageRange
close_range first s = elim (take_number s) [
  | none ↦ none
  | some (last, rest) ↦
      (if is_empty (drop_spaces rest) then some (record { start = first; end = last }) else none)
]

-- Behind the first number: `(?:[-–]\s*(\d+)\s*)?$`.
unfoldable pub rest_of_range : ℕ → Str → Option PdfPageRange
unfolding close_range take_number is_dash is_empty drop_spaces
rest_of_range first [] = some (record { start = first; end = first })
rest_of_range first (c ∷ s) = if is_dash c then close_range first (drop_spaces s) else none

-- `/^\s*(\d+)\s*(?:[-–]\s*(\d+)\s*)?$/.exec(chunk)`.
unfoldable pub parse_chunk : Str → Option PdfPageRange
unfolding rest_of_range
parse_chunk chunk = elim (take_number (drop_spaces chunk)) [
  | none ↦ none
  | some (first, rest) ↦ rest_of_range first (drop_spaces rest)
]

unfoldable pub range_of_chunk : Str → Result PdfSplitValidationReason PdfPageRange
unfolding parse_chunk
range_of_chunk chunk = elim (parse_chunk chunk) [ none ↦ err invalid_ranges | some r ↦ ok r ]

module _ (schema : SpecSchema) (input : RangesInput schema) where
  unfoldable pub parse_pdf_ranges : Str → Result PdfSplitValidationReason (List PdfPageRange)
  unfolding range_of_chunk map_result trim split is_empty
  parse_pdf_ranges text = do
    refuse (ltb 1000 (length text) || is_empty (trim text)) invalid_ranges
    let chunks = split b',' text
    refuse (ltb max_documents (length chunks)) document_limit
    rs ← map_result range_of_chunk chunks
    plan ← plan_pdf_split schema (input.value rs) (whole max_pages)
    ok plan.ranges
