-- ===== src/PdfSplit/Examples.antt =====
-- Tests of shared/pdf-split.ts, and the theorems at concrete inputs.
use maintainflow.Prelude.{
  ℕ, ◌≤◌, ◌<◌, ◌≡◌, refl, ◌↔◌, Bool, true, ◌&&◌, List, [], ◌∷◌, Option, some, none, length, ok, err,
  leb, if◌then◌else◌, arith, Bool-cases, inl, inr,
}
use maintainflow.Prelude.Text.{Str, codes}
use maintainflow.PdfSplit.{
  PdfPageRange, PdfSplitSpec, every, ranges, marker, invalid_ranges, document_limit,
  marker_not_found, whole, SpecSchema, Conforms, AreRanges, max_documents,
}
use maintainflow.PdfSplit.Ranges.{IsOrdered, Tiles}
use maintainflow.PdfSplit.Plan.{PdfSplitPlan, plan_pdf_split, ceil_div}
use maintainflow.PdfSplit.Plan.Laws.{AllShort}
use maintainflow.PdfSplit.Plan.Accepts.{
  IsSound, plan_pdf_split-IsSound, plan_pdf_split-every, plan_pdf_split-ranges,
  plan_pdf_split-marker,
}
use maintainflow.PdfSplit.Marker.{
  MarkerSchema, PdfMarkerRanges, normalize_pdf_marker_text, find_pdf_marker_ranges,
  verify_pdf_marker_ranges,
}
use maintainflow.PdfSplit.Marker.Cover.{
  IsMarkerCover, find_pdf_marker_ranges-IsMarkerCover, verify_pdf_marker_ranges_iff,
  plan-find_pdf_marker_ranges,
}
use maintainflow.PdfSplit.Field.{RangesInput, parse_pdf_ranges}
use maintainflow.PdfSplit.Field.RoundTrip.{print_ranges, parse_pdf_ranges-print_ranges}

abbrev page_ok : ℕ → Bool
page_ok n = leb 1 n && leb n 30

abbrev ranges_ok : List PdfPageRange → Bool
ranges_ok [] = true
ranges_ok (r ∷ rs) = page_ok r.start && page_ok r.end && ranges_ok rs

abbrev count_ok : List PdfPageRange → Bool
count_ok rs = leb 1 (length rs) && leb (length rs) 20

-- The schema's own rules, as a function.
abbrev spec_ok : PdfSplitSpec → Bool
spec_ok (every n) = page_ok n
spec_ok (ranges rs) = ranges_ok rs && count_ok rs
spec_ok (marker m rs) = ranges_ok rs && count_ok rs && leb 1 (length m) && leb (length m) 200

ranges_ok-AreRanges : (rs : List PdfPageRange) → (ranges_ok rs ≡ true) ↔ AreRanges rs
ranges_ok-AreRanges [] = ground arith
ranges_ok-AreRanges (r ∷ rs) = ground (arith, ranges_ok-AreRanges rs)

spec_ok-Conforms : (spec : PdfSplitSpec) → spec_ok spec ≡ true → Conforms spec
spec_ok-Conforms (every n) h = ground arith
spec_ok-Conforms (ranges rs) h = ground (arith, ranges_ok-AreRanges rs)
spec_ok-Conforms (marker m rs) h = ground (arith, ranges_ok-AreRanges rs)

abbrev parse_spec : PdfSplitSpec → Option PdfSplitSpec
parse_spec spec = if spec_ok spec then some spec else none

parse_spec-Conforms : (v spec : PdfSplitSpec) → parse_spec v ≡ some spec → Conforms spec
parse_spec-Conforms v spec h = elim (Bool-cases (spec_ok v)) [
  | inl e ↦ ground (arith, spec_ok-Conforms v e, spec_ok-Conforms spec)
  | inr e ↦ ground arith
]

abbrev test_schema : SpecSchema
test_schema = record {
  V = PdfSplitSpec;
  safe_parse = parse_spec;
  safe_parse-Conforms = parse_spec-Conforms;
}

parse_spec-ranges :
    (rs : List PdfPageRange)
    → AreRanges rs × (1 ≤ length rs) × (length rs ≤ max_documents)
    → parse_spec (ranges rs) ≡ some (ranges rs)
parse_spec-ranges rs h = ground (arith, ranges_ok-AreRanges rs)

parse_spec-keeps :
    (rs : List PdfPageRange) (spec : PdfSplitSpec)
    → parse_spec (ranges rs) ≡ some spec
    → spec ≡ ranges rs
parse_spec-keeps rs spec h = ground arith

abbrev test_input : RangesInput test_schema
test_input = record {
  value = ranges;
  accepts = λ rs h. parse_spec-ranges rs (h.0, h.1, h.2);
  keeps = parse_spec-keeps;
}

range : ℕ → ℕ → PdfPageRange
range a b = record { start = a; end = b }

abbrev picked : List PdfPageRange
picked =
    record { start = 1; end = 2 }
    ∷ record { start = 5; end = 5 }
    ∷ record { start = 7; end = 9 }
    ∷ []

picked_plan :
    plan_pdf_split test_schema (ranges picked) (whole 9)
    ≡ ok (record { ranges = picked; selected_pages = 6 })
unfolding plan_pdf_split
picked_plan = refl

overlap_refused :
    plan_pdf_split test_schema
      (ranges (record { start = 1; end = 3 } ∷ record { start = 3; end = 4 } ∷ []))
      (whole 9)
    ≡ err invalid_ranges
unfolding plan_pdf_split
overlap_refused = refl

plan_pdf_split-IsSound_example :
    (p : ℕ) × (whole 9 ≡ whole p) × IsSound p (record { ranges = picked; selected_pages = 6 })
plan_pdf_split-IsSound_example =
    plan_pdf_split-IsSound test_schema (ranges picked) (whole 9) picked_plan

plan_pdf_split-every_example :
    let r = plan_pdf_split test_schema (every 4) (whole 10) in
    (ceil_div 10 4 ≤ 20
      → (plan : PdfSplitPlan) × (r ≡ ok plan)
        × Tiles 0 10 plan.ranges
        × AllShort 4 plan.ranges
        × (plan.selected_pages ≡ 10))
    × (20 < ceil_div 10 4 → r ≡ err document_limit)
plan_pdf_split-every_example =
    plan_pdf_split-every test_schema (every 4) 4 10 refl (omega arith) (omega arith)

plan_pdf_split-ranges_example :
    (plan_pdf_split test_schema (ranges picked) (whole 9)
      ≡ ok (record { ranges = picked; selected_pages = 6 }))
    ↔ IsOrdered 0 9 picked
plan_pdf_split-ranges_example =
    plan_pdf_split-ranges test_schema (ranges picked) picked 9 refl (omega arith) (omega arith)

abbrev halves : List PdfPageRange
halves = record { start = 1; end = 1 } ∷ record { start = 2; end = 3 } ∷ []

plan_pdf_split-marker_example :
    (plan_pdf_split test_schema (marker (codes "Invoice") halves) (whole 3)
      ≡ ok (record { ranges = halves; selected_pages = 3 }))
    ↔ Tiles 0 3 halves
plan_pdf_split-marker_example =
    plan_pdf_split-marker test_schema (marker (codes "Invoice") halves) (codes "Invoice") halves 3
      refl (omega arith) (omega arith)

abbrev bounded : Str → Option Str
bounded t = if leb 1 (length t) && leb (length t) 200 then some t else none

parse_marker : Str → Option Str
unfolding normalize_pdf_marker_text
parse_marker m = bounded (normalize_pdf_marker_text m)

parse_marker-normal :
    (m t : Str)
    → parse_marker m ≡ some t
    → (t ≡ normalize_pdf_marker_text m) × (1 ≤ length t) × (length t ≤ 200)
unfolding parse_marker
parse_marker-normal m t h = ground arith

abbrev marker_schema : MarkerSchema
marker_schema = record { safe_parse = parse_marker; safe_parse-normal = parse_marker-normal }

abbrev pages : List Str
pages = codes "Summary" ∷ codes "  Invoice   no 1" ∷ codes "more" ∷ []

abbrev preview : PdfMarkerRanges
preview = record {
  marker = codes "Invoice no";
  ranges = halves;
  matched_pages = 2 ∷ [];
  textless_pages = [];
  selected_pages = 3;
}

found : find_pdf_marker_ranges marker_schema (codes "Invoice no") pages ≡ ok preview
unfolding find_pdf_marker_ranges parse_marker
found = refl

not_found : find_pdf_marker_ranges marker_schema (codes "Receipt") pages ≡ err marker_not_found
unfolding find_pdf_marker_ranges parse_marker
not_found = refl

find_pdf_marker_ranges-IsMarkerCover_example : IsMarkerCover pages preview
find_pdf_marker_ranges-IsMarkerCover_example =
    find_pdf_marker_ranges-IsMarkerCover marker_schema (codes "Invoice no") pages preview found

verify_pdf_marker_ranges_iff_example :
    (verify_pdf_marker_ranges marker_schema (marker (codes "Invoice no") halves) pages ≡ ok tt) ↔ (
      (r : PdfMarkerRanges) × (find_pdf_marker_ranges marker_schema (codes "Invoice no") pages
        ≡ ok r)
      × (r.ranges ≡ halves))
verify_pdf_marker_ranges_iff_example =
    verify_pdf_marker_ranges_iff marker_schema (codes "Invoice no") halves pages

plan-find_pdf_marker_ranges_example :
    plan_pdf_split test_schema (marker (codes "Invoice no") halves) (whole 3)
    ≡ ok (record { ranges = halves; selected_pages = 3 })
plan-find_pdf_marker_ranges_example =
    plan-find_pdf_marker_ranges marker_schema test_schema (marker (codes "Invoice no") halves)
      (codes "Invoice no") pages preview found refl

spaced_field : parse_pdf_ranges test_schema test_input (codes " 1-2, 5,7 - 9 ") ≡ ok picked
unfolding parse_pdf_ranges plan_pdf_split
spaced_field = refl

parse_pdf_ranges-print_ranges_example :
    parse_pdf_ranges test_schema test_input (print_ranges picked) ≡ ok picked
parse_pdf_ranges-print_ranges_example =
    parse_pdf_ranges-print_ranges test_schema test_input picked (omega arith) (omega arith)
