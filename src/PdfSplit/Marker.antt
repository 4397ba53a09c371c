-- ===== src/PdfSplit/Marker.antt =====
-- The text marker of shared/pdf-split.ts: `normalizePdfMarkerText`, `findPdfMarkerRanges` and
-- `verifyPdfMarkerRanges`.
pub mod Laws
pub mod Cover
use maintainflow.Prelude.{
  ℕ, zero, suc, ◌+◌, ◌-◌, ◌≤◌, ◌≡◌, Bool, true, false, not, ◌&&◌, ◌||◌, List, [], ◌∷◌, Option, some,
  none, length, Result, ok, err, refuse, ◌>>=◌, ◌>>◌, ltb, ◌==◌, if◌then◌else◌,
}
use maintainflow.Prelude.Text.{Str, fold_spaces, trim, includes}
use maintainflow.PdfSplit.{
  PdfPageRange, PdfSplitSpec, every, ranges, marker, PdfSplitValidationReason, invalid_spec,
  page_bounds, document_limit, marker_no_text, marker_not_found, marker_plan_mismatch, max_pages,
  max_documents, max_marker_length,
}

unfoldable pub normalize_pdf_marker_text : Str → Str
unfolding fold_spaces trim
normalize_pdf_marker_text text = trim (fold_spaces false text)

-- zod's `safeParse` of `markerSchema`, which folds the spaces of a marker and bounds its length.
pub record MarkerSchema : Type 0 where
  pub safe_parse : Str → Option Str
  pub safe_parse-normal :
      (m t : Str)
      → safe_parse m ≡ some t
      → (t ≡ normalize_pdf_marker_text m) × (1 ≤ length t) × (length t ≤ max_marker_length)

pub record PdfMarkerRanges : Type 0 where
  pub marker : Str
  pub ranges : List PdfPageRange
  pub matched_pages : List ℕ
  pub textless_pages : List ℕ
  pub selected_pages : ℕ

unfoldable pub is_empty {ℓ} : {A : Type ℓ} → List A → Bool
is_empty [] = true
is_empty (_ ∷ _) = false

-- One page of the loop of `findPdfMarkerRanges`.
pub data PageKind : Type 0 where
  textless matched plain : PageKind

unfoldable pub page_kind : Str → Str → PageKind
unfolding includes is_empty
page_kind m normalized =
    if is_empty normalized then textless else if includes normalized m then matched else plain

-- The pushes of one round on `(matchedPages, textlessPages)`.
unfoldable pub push_page : PageKind → ℕ → List ℕ × List ℕ → List ℕ × List ℕ
push_page textless n (ms, ts) = (ms, n ∷ ts)
push_page matched n (ms, ts) = (n ∷ ms, ts)
push_page plain n acc = acc

-- The loop over the pages from the page number `n` on.
unfoldable pub scan_pages : Str → ℕ → List Str → List ℕ × List ℕ
unfolding page_kind push_page normalize_pdf_marker_text
scan_pages m n [] = ([], [])
scan_pages m n (text ∷ rest) =
    push_page (page_kind m (normalize_pdf_marker_text text)) n (scan_pages m (n + 1) rest)

-- `matchedPages[0] === 1 ? matchedPages : [1, ...matchedPages]`.
unfoldable pub starts_of : List ℕ → List ℕ
starts_of [] = 1 ∷ []
starts_of (n ∷ ns) = if n == 1 then n ∷ ns else 1 ∷ n ∷ ns

-- `starts[index + 1] ?? pageTexts.length + 1`.
unfoldable pub next_start : List ℕ → ℕ → ℕ
next_start [] count = count + 1
next_start (n ∷ _) count = n

unfoldable pub ranges_of : List ℕ → ℕ → List PdfPageRange
unfolding next_start
ranges_of [] count = []
ranges_of (n ∷ ns) count = record { start = n; end = next_start ns count - 1 } ∷ ranges_of ns count

unfoldable pub same_ranges : List PdfPageRange → List PdfPageRange → Bool
same_ranges [] [] = true
same_ranges [] (_ ∷ _) = false
same_ranges (_ ∷ _) [] = false
same_ranges (r ∷ rs) (q ∷ qs) = (r.start == q.start) && (r.end == q.end) && same_ranges rs qs

unfoldable pub found_ranges :
    Str → List Str → List ℕ × List ℕ → Result PdfSplitValidationReason PdfMarkerRanges
unfolding is_empty starts_of ranges_of
found_ranges m pages (ms, ts) = do
  refuse (length ts == length pages) marker_no_text
  refuse (is_empty ms) marker_not_found
  refuse (ltb max_documents (length (starts_of ms))) document_limit
  ok (record {
    marker = m;
    ranges = ranges_of (starts_of ms) (length pages);
    matched_pages = ms;
    textless_pages = ts;
    selected_pages = length pages;
  })

module _ (schema : MarkerSchema) where
  open schema use {safe_parse}

  unfoldable pub find_pdf_marker_ranges :
      Str → List Str → Result PdfSplitValidationReason PdfMarkerRanges
  unfolding found_ranges scan_pages
  find_pdf_marker_ranges text pages = elim (safe_parse text) [
    | none ↦ err invalid_spec
    | some m ↦ (do
      refuse (ltb (length pages) 1 || ltb max_pages (length pages)) page_bounds
      found_ranges m pages (scan_pages m 1 pages))
  ]

  unfoldable pub verify_pdf_marker_ranges :
      PdfSplitSpec → List Str → Result PdfSplitValidationReason (Unit {0})
  unfolding find_pdf_marker_ranges same_ranges
  verify_pdf_marker_ranges (every _) pages = ok tt
  verify_pdf_marker_ranges (ranges _) pages = ok tt
  verify_pdf_marker_ranges (marker m rs) pages = do
    expected ← find_pdf_marker_ranges m pages
    refuse (not (same_ranges expected.ranges rs)) marker_plan_mismatch
