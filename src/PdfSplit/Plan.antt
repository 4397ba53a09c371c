-- ===== src/PdfSplit/Plan.antt =====
-- `canonicalPdfSplitSpec` and `planPdfSplit` of shared/pdf-split.ts.
pub mod Laws
pub mod Accepts
use maintainflow.Prelude.{
  ℕ, zero, suc, ◌+◌, ◌-◌, ◌*◌, ◌/◌, Bool, true, false, not, ◌&&◌, ◌||◌, List, [], ◌∷◌, none, some,
  ltb, leb, ◌==◌, if◌then◌else◌, length, min, Result, ok, err, refuse, ◌>>=◌, ◌>>◌,
}
use maintainflow.PdfSplit.{
  PdfPageRange, PdfSplitSpec, every, ranges, marker, PdfSplitValidationReason, invalid_spec,
  invalid_ranges, page_bounds, document_limit, marker_plan_mismatch, JsNumber, whole, other,
  SpecSchema, max_pages, max_documents,
}

pub record PdfSplitPlan : Type 0 where
  pub ranges : List PdfPageRange
  pub selected_pages : ℕ

unfoldable pub is_marker : PdfSplitSpec → Bool
is_marker (marker _ _) = true
is_marker _ = false

-- `Math.ceil(pageCount / pagesPerDocument)`.
unfoldable pub ceil_div : ℕ → ℕ → ℕ
ceil_div p k = (p + k - 1) / k

-- `Array.from({length: n}, …)` from the index `i` on.
unfoldable pub every_ranges : ℕ → ℕ → ℕ → ℕ → List PdfPageRange
every_ranges k p zero i = []
every_ranges k p (suc n) i =
    record { start = i * k + 1; end = min ((i + 1) * k) p } ∷ every_ranges k p n (i + 1)

unfoldable pub spec_ranges : PdfSplitSpec → ℕ → List PdfPageRange
unfolding ceil_div every_ranges
spec_ranges (every k) p = every_ranges k p (ceil_div p k) 0
spec_ranges (ranges rs) p = rs
spec_ranges (marker m rs) p = rs

-- The loop over the ranges, with `lastEnd` and `selectedPages`; it returns their last values.
unfoldable pub check_ranges :
    Bool → ℕ → ℕ → ℕ → List PdfPageRange → Result PdfSplitValidationReason (ℕ × ℕ)
check_ranges by_marker p last_end selected [] = ok (last_end, selected)
check_ranges by_marker p last_end selected (r ∷ rs) = do
  refuse (ltb r.end r.start || leb r.start last_end) invalid_ranges
  refuse (ltb p r.end) page_bounds
  refuse (by_marker && not (r.start == last_end + 1)) marker_plan_mismatch
  check_ranges by_marker p r.end (selected + (r.end - r.start + 1)) rs

unfoldable pub plan_spec : PdfSplitSpec → ℕ → Result PdfSplitValidationReason PdfSplitPlan
unfolding spec_ranges is_marker check_ranges
plan_spec spec p = do
  refuse (ltb p 1 || ltb max_pages p) page_bounds
  let rs = spec_ranges spec p
  refuse (ltb max_documents (length rs)) document_limit
  done ← check_ranges (is_marker spec) p 0 0 rs
  refuse (is_marker spec && not (done.0 == p)) marker_plan_mismatch
  ok (record { ranges = rs; selected_pages = done.1 })

module _ (schema : SpecSchema) where
  open schema use {V, safe_parse}

  -- The canonical specification; its JSON text is read back by `planPdfSplit` at once.
  unfoldable pub canonical_pdf_split_spec : V → Result PdfSplitValidationReason PdfSplitSpec
  canonical_pdf_split_spec v = elim (safe_parse v) [ none ↦ err invalid_spec | some spec ↦ ok spec ]

  unfoldable pub plan_pdf_split : V → JsNumber → Result PdfSplitValidationReason PdfSplitPlan
  unfolding canonical_pdf_split_spec plan_spec
  plan_pdf_split v (whole p) = do spec ← canonical_pdf_split_spec v; plan_spec spec p
  plan_pdf_split v other = do spec ← canonical_pdf_split_spec v; err page_bounds
