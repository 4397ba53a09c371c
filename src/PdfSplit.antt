-- ===== src/PdfSplit.antt =====
-- shared/pdf-split.ts: the limits, the split specification and the reasons for a refusal.
-- The children hold the planner, the marker search and the range field's parser.
pub mod Plan
pub mod Marker
pub mod Ranges
pub mod Field
mod Examples
use maintainflow.Prelude.{ℕ, ◌*◌, ◌≤◌, ◌<◌, ◌≡◌, List, [], ◌∷◌, Option, some, length}
use maintainflow.Prelude.Text.{Str}

abbrev pub max_pages : ℕ
max_pages = 30

abbrev pub max_documents : ℕ
max_documents = 20

abbrev pub max_marker_length : ℕ
max_marker_length = 200

pub record PdfPageRange : Type 0 where
  pub start : ℕ
  pub end : ℕ

-- What the schema of a split lets through.
pub data PdfSplitSpec : Type 0 where
  every : ℕ → PdfSplitSpec
  ranges : List PdfPageRange → PdfSplitSpec
  marker : Str → List PdfPageRange → PdfSplitSpec

-- The keys of `pdfSplitValidationReasons`.
pub data PdfSplitValidationReason : Type 0 where
  tiff_marker_unsupported tiff_repack_unsupported invalid_spec invalid_ranges page_bounds
        document_limit pdf_required child_size_limit derived_size_limit text_limit marker_no_text
        marker_not_found marker_plan_mismatch :
      PdfSplitValidationReason

unfoldable pub status_code : PdfSplitValidationReason → ℕ
status_code tiff_repack_unsupported = 415
status_code document_limit = 413
status_code child_size_limit = 413
status_code derived_size_limit = 413
status_code text_limit = 413
status_code _ = 400

-- A JavaScript number: a whole number from 0 on, or any other (negative, fractional, not a number).
pub data JsNumber : Type 0 where
  whole : ℕ → JsNumber
  other : JsNumber

-- `pageNumber` and `rangeSchema`.
pub record IsPageNumber (n : ℕ) : Type 0 where
  pub positive : 1 ≤ n
  pub bounded : n ≤ max_pages

abbrev pub AreRanges : List PdfPageRange → Type 0
AreRanges [] = Unit
AreRanges (r ∷ rs) = IsPageNumber r.start × IsPageNumber r.end × AreRanges rs

abbrev pub AreBoundedRanges : List PdfPageRange → Type 0
AreBoundedRanges rs = AreRanges rs × (1 ≤ length rs) × (length rs ≤ max_documents)

-- What `pdfSplitSpecSchema` demands of a specification.
abbrev pub Conforms : PdfSplitSpec → Type 0
Conforms (every n) = IsPageNumber n
Conforms (ranges rs) = AreBoundedRanges rs
Conforms (marker m rs) = AreBoundedRanges rs × (1 ≤ length m) × (length m ≤ max_marker_length)

-- zod's `safeParse` of the schema, on the values `V` that a caller may send. The planner relies on
-- it to let only conforming specifications through.
pub record SpecSchema : Type 1 where
  pub V : Type 0
  pub safe_parse : V → Option PdfSplitSpec
  pub safe_parse-Conforms : (v : V) (spec : PdfSplitSpec) → safe_parse v ≡ some spec → Conforms spec
