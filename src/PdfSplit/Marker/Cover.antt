-- ===== src/PdfSplit/Marker/Cover.antt =====
-- The ranges that a marker gives, and their confirmation.
use maintainflow.Prelude.{
  ℕ, ◌+◌, ◌≤◌, ◌≡◌, ◌↔◌, ◌==◌, ◌||◌, List, length, arith, Option-cases, Result-cases, inl, inr,
  some, ok, get_elem?, Ensures,
}
use maintainflow.Prelude.Text.{Str}
use maintainflow.PdfSplit.{PdfPageRange, marker, SpecSchema, whole, max_pages}
use maintainflow.PdfSplit.Ranges.{Tiles}
use maintainflow.PdfSplit.Plan.{plan_pdf_split}
use maintainflow.PdfSplit.Plan.Accepts.{plan_pdf_split-marker}
use maintainflow.PdfSplit.Marker.{
  MarkerSchema, PdfMarkerRanges, found_ranges, find_pdf_marker_ranges, verify_pdf_marker_ranges,
  scan_pages, starts_of, ranges_of,
}
use maintainflow.PdfSplit.Marker.Laws.{
  scan_pages-Rising, starts_of-Tiles, contains, marker_on, scan_pages-contains, same_ranges_iff,
  begins, ranges_of-starts_of,
}

-- A preview by marker, for pages `pages`.
pub record IsMarkerCover (pages : List Str) (r : PdfMarkerRanges) : Type 0 where
  pub some_page : 1 ≤ length pages
  pub few_pages : length pages ≤ max_pages
  pub tiles : Tiles 0 (length pages) r.ranges
  pub selected : r.selected_pages ≡ length pages
  pub cut : (n : ℕ) → begins r.ranges n ≡ ((1 == n) || contains r.matched_pages n)
  pub matches : (i : ℕ) → contains r.matched_pages (1 + i) ≡ marker_on r.marker (get_elem? pages i)

found_ranges-Tiles :
    (m : Str) (pages : List Str)
    → 1 ≤ length pages
    → Ensures
        (λ r.
          Tiles 0 (length pages) r.ranges
          × (r.selected_pages ≡ length pages)
          × (r.marker ≡ m)
          × (r.matched_pages ≡ (scan_pages m 1 pages).0)
          × (r.ranges ≡ ranges_of (starts_of (scan_pages m 1 pages).0) (length pages)))
        (found_ranges m pages (scan_pages m 1 pages))
unfolding found_ranges
found_ranges-Tiles m pages h =
    ground
      (arith, starts_of-Tiles (length pages) (scan_pages m 1 pages).0 h (scan_pages-Rising m pages))

found_ranges-IsMarkerCover :
    (m : Str) (pages : List Str) (r : PdfMarkerRanges)
    → 1 ≤ length m
    → 1 ≤ length pages
    → length pages ≤ max_pages
    → found_ranges m pages (scan_pages m 1 pages) ≡ ok r
    → IsMarkerCover pages r
found_ranges-IsMarkerCover m pages r h nonempty few e =
    let f = rw e at (found_ranges-Tiles m pages nonempty) in
    record {
      some_page = nonempty;
      few_pages = few;
      tiles = f.0;
      selected = f.1;
      cut = λ n. rw (f.3, f.4) (ranges_of-starts_of (scan_pages m 1 pages).0 (length pages) n);
      matches = λ i. rw (f.2, f.3) (scan_pages-contains m 1 i pages h);
    }

module _ (schema : MarkerSchema) where
  open schema use {safe_parse}

  -- A preview by marker covers every page, from the first to the last, with no gap. A range begins at
  -- page 1 and at each other page whose text, with spaces folded, includes the marker, and nowhere
  -- else; `matched_pages` are the pages that include it.
  pub find_pdf_marker_ranges-IsMarkerCover :
      (text : Str) (pages : List Str) (r : PdfMarkerRanges)
      → find_pdf_marker_ranges schema text pages ≡ ok r
      → IsMarkerCover pages r
  unfolding find_pdf_marker_ranges
  find_pdf_marker_ranges-IsMarkerCover text pages r h = elim (Option-cases (safe_parse text)) [
    | inl e ↦ ground arith
    | inr (m, e) ↦
        found_ranges-IsMarkerCover m pages r (schema.safe_parse-normal text m e).1 (ground arith)
          (ground arith) (ground arith)
  ]

  -- Ranges are confirmed for a marker exactly if a new preview by that marker gives these ranges.
  pub verify_pdf_marker_ranges_iff :
      (m : Str) (rs : List PdfPageRange) (pages : List Str)
      → (verify_pdf_marker_ranges schema (marker m rs) pages ≡ ok tt)
        ↔ ((r : PdfMarkerRanges) × (find_pdf_marker_ranges schema m pages ≡ ok r) × (r.ranges ≡ rs))
  unfolding verify_pdf_marker_ranges
  verify_pdf_marker_ranges_iff m rs pages =
      elim (Result-cases (find_pdf_marker_ranges schema m pages)) [
        | inl (r, e) ↦ (
          λ h. (r, e, ground (arith, same_ranges_iff r.ranges rs)),
          λ (r', e', q). ground (arith, same_ranges_iff r.ranges rs),
        )
        | inr (x, e) ↦ (λ h. ground arith, λ (r', e', q). ground arith)
      ]

  -- The ranges of a preview, sent back as a specification by marker, are planned as they stand.
  pub plan-find_pdf_marker_ranges :
      (plans : SpecSchema) (v : plans.V) (text : Str) (pages : List Str) (r : PdfMarkerRanges)
      → find_pdf_marker_ranges schema text pages ≡ ok r
      → plans.safe_parse v ≡ some (marker r.marker r.ranges)
      → plan_pdf_split plans v (whole (length pages))
        ≡ ok (record { ranges = r.ranges; selected_pages = r.selected_pages })
  plan-find_pdf_marker_ranges plans v text pages r h e =
      let c = find_pdf_marker_ranges-IsMarkerCover text pages r h in
      rw c.selected (
        (plan_pdf_split-marker plans v r.marker r.ranges (length pages) e c.some_page c.few_pages).1
          c.tiles)
