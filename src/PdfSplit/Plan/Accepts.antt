-- ===== src/PdfSplit/Plan/Accepts.antt =====
-- What `planPdfSplit` accepts, and what its plan covers.
use maintainflow.Prelude.{
  ℕ, ◌*◌, ◌≤◌, ◌<◌, ◌≡◌, ◌↔◌, refl, true, false, List, some, length, min, ok, err, arith, inl, inr,
  Option-cases,
}
use maintainflow.Prelude.Text.{Str}
use maintainflow.PdfSplit.{
  PdfPageRange, PdfSplitSpec, every, ranges, marker, document_limit, JsNumber, whole, other,
  SpecSchema, max_pages, max_documents,
}
use maintainflow.PdfSplit.Ranges.{
  IsOrdered, Tiles, total_pages, Tiles-total_pages, IsOrdered-total_pages,
}
use maintainflow.PdfSplit.Plan.{
  PdfSplitPlan, is_marker, ceil_div, every_ranges, spec_ranges, plan_spec, canonical_pdf_split_spec,
  plan_pdf_split,
}
use maintainflow.PdfSplit.Plan.Laws.{
  check_ranges-IsOrdered, check_ranges-ok, check_ranges-Tiles, Tiles-check_ranges, ceil_div_bounds,
  every_ranges-Tiles, length-every_ranges, AllShort, every_ranges-AllShort,
}

-- The pages of a plan for a document of `p` pages.
pub record IsSound (p : ℕ) (plan : PdfSplitPlan) : Type 0 where
  pub positive : 1 ≤ p
  pub bounded : p ≤ max_pages
  pub ordered : IsOrdered 0 p plan.ranges
  pub selected : plan.selected_pages ≡ total_pages plan.ranges
  pub within : plan.selected_pages ≤ p
  pub few : length plan.ranges ≤ max_documents

plan_spec-IsSound :
    (spec : PdfSplitSpec) (p : ℕ) {plan : PdfSplitPlan}
    → plan_spec spec p ≡ ok plan
    → IsSound p plan
unfolding plan_spec
plan_spec-IsSound spec p {plan} h =
    let rs = spec_ranges spec p in
    ground (arith, check_ranges-IsOrdered (is_marker spec) p 0 0 rs, IsOrdered-total_pages 0 p rs)

all-Tiles : (k p : ℕ) → 1 ≤ k → Tiles 0 p (every_ranges k p (ceil_div p k) 0)
all-Tiles k p h =
    let b = ceil_div_bounds p k h in
    let e : min (0 * k) p ≡ 0 = omega arith in
    rw e at (every_ranges-Tiles k p (ceil_div p k) 0 h (omega arith) (omega arith))

plan_spec-every :
    (k p : ℕ)
    → 1 ≤ k
    → 1 ≤ p
    → p ≤ max_pages
    → ceil_div p k ≤ max_documents
    → plan_spec (every k) p
      ≡ ok (record { ranges = every_ranges k p (ceil_div p k) 0; selected_pages = p })
unfolding plan_spec spec_ranges is_marker
plan_spec-every k p k1 p1 p30 few =
    let n = ceil_div p k in
    let rs = every_ranges k p n 0 in
    let tiles : Tiles 0 p rs = all-Tiles k p k1 in
    ground (
      arith,
      Tiles-check_ranges false p 0 0 p rs (omega arith) tiles,
      Tiles-total_pages 0 p rs tiles,
      length-every_ranges k p n 0,
    )

plan_spec-every_many :
    (k p : ℕ)
    → 1 ≤ p
    → p ≤ max_pages
    → max_documents < ceil_div p k
    → plan_spec (every k) p ≡ err document_limit
unfolding plan_spec spec_ranges
plan_spec-every_many k p p1 p30 many = ground (arith, length-every_ranges k p (ceil_div p k) 0)

plan_spec-ranges :
    (rs : List PdfPageRange) (p : ℕ)
    → 1 ≤ p
    → p ≤ max_pages
    → length rs ≤ max_documents
    → IsOrdered 0 p rs
    → plan_spec (ranges rs) p ≡ ok (record { ranges = rs; selected_pages = total_pages rs })
unfolding plan_spec spec_ranges is_marker
plan_spec-ranges rs p p1 p30 few h = ground (arith, check_ranges-ok p 0 0 rs h)

plan_spec-marker :
    (m : Str) (rs : List PdfPageRange) (p : ℕ)
    → 1 ≤ p
    → p ≤ max_pages
    → length rs ≤ max_documents
    → Tiles 0 p rs
    → plan_spec (marker m rs) p ≡ ok (record { ranges = rs; selected_pages = p })
unfolding plan_spec spec_ranges is_marker
plan_spec-marker m rs p p1 p30 few h =
    ground (arith, Tiles-check_ranges true p 0 0 p rs (omega arith) h, Tiles-total_pages 0 p rs h)

plan_spec-marker_Tiles :
    (m : Str) (rs : List PdfPageRange) (p : ℕ) {plan : PdfSplitPlan}
    → plan_spec (marker m rs) p ≡ ok plan
    → Tiles 0 p rs
unfolding plan_spec spec_ranges is_marker
plan_spec-marker_Tiles m rs p h = ground (arith, check_ranges-Tiles p 0 0 rs)

module _ (schema : SpecSchema) where
  open schema use {V, safe_parse}

  pub plan_pdf_split-some :
      (v : V) (spec : PdfSplitSpec) (p : ℕ)
      → safe_parse v ≡ some spec
      → plan_pdf_split schema v (whole p) ≡ plan_spec spec p
  unfolding plan_pdf_split canonical_pdf_split_spec
  plan_pdf_split-some v spec p e = ground arith

  -- A plan is made only of a document of 1 to 30 pages. Its ranges are non-empty, in order, without
  -- overlap and inside the document, at most 20, and `selected_pages` is the number of their pages.
  pub plan_pdf_split-IsSound :
      (v : V) (n : JsNumber) {plan : PdfSplitPlan}
      → plan_pdf_split schema v n ≡ ok plan
      → (p : ℕ) × (n ≡ whole p) × IsSound p plan
  unfolding plan_pdf_split canonical_pdf_split_spec
  plan_pdf_split-IsSound v other h = elim (Option-cases (safe_parse v)) [
    | inl e ↦ ground arith
    | inr (spec, e) ↦ ground arith
  ]
  plan_pdf_split-IsSound v (whole p) {plan} h = elim (Option-cases (safe_parse v)) [
    | inl e ↦ ground arith
    | inr (spec, e) ↦ (p, refl, ground (arith, plan_spec-IsSound spec p {plan = plan}))
  ]

  -- Splitting every `k` pages: a document of 1 to 30 pages is covered from its first page to its
  -- last, by ranges of at most `k` pages; it is refused exactly if that takes more than 20 ranges.
  pub plan_pdf_split-every :
      (v : V) (k p : ℕ)
      → safe_parse v ≡ some (every k)
      → 1 ≤ p
      → p ≤ max_pages
      → let r = plan_pdf_split schema v (whole p) in
        let n = ceil_div p k in
        (n ≤ max_documents
          → (plan : PdfSplitPlan) × (r ≡ ok plan)
            × Tiles 0 p plan.ranges
            × AllShort k plan.ranges
            × (plan.selected_pages ≡ p))
        × (max_documents < n → r ≡ err document_limit)
  plan_pdf_split-every v k p e p1 p30 =
      let one : 1 ≤ k = (schema.safe_parse-Conforms v (every k) e).positive in
      (
        λ few. (
          record { ranges = every_ranges k p (ceil_div p k) 0; selected_pages = p },
          rw (plan_pdf_split-some v (every k) p e) (plan_spec-every k p one p1 p30 few),
          all-Tiles k p one,
          every_ranges-AllShort k p (ceil_div p k) 0 one,
          refl,
        ),
        λ many. rw (plan_pdf_split-some v (every k) p e) (plan_spec-every_many k p p1 p30 many),
      )

  -- Chosen ranges are accepted, as they stand, exactly if they are in order, without overlap and
  -- inside the document.
  pub plan_pdf_split-ranges :
      (v : V) (rs : List PdfPageRange) (p : ℕ)
      → safe_parse v ≡ some (ranges rs)
      → 1 ≤ p
      → p ≤ max_pages
      → (plan_pdf_split schema v (whole p)
          ≡ ok (record { ranges = rs; selected_pages = total_pages rs }))
        ↔ IsOrdered 0 p rs
  plan_pdf_split-ranges v rs p e p1 p30 =
      let few = (schema.safe_parse-Conforms v (ranges rs) e).2 in
      rw (plan_pdf_split-some v (ranges rs) p e) (
        (λ h. (plan_spec-IsSound (ranges rs) p h).ordered),
        (λ h. plan_spec-ranges rs p p1 p30 few h),
      )

  -- Ranges behind a text marker are accepted exactly if they cover the document from its first page
  -- to its last with no gap.
  pub plan_pdf_split-marker :
      (v : V) (m : Str) (rs : List PdfPageRange) (p : ℕ)
      → safe_parse v ≡ some (marker m rs)
      → 1 ≤ p
      → p ≤ max_pages
      → (plan_pdf_split schema v (whole p) ≡ ok (record { ranges = rs; selected_pages = p }))
        ↔ Tiles 0 p rs
  plan_pdf_split-marker v m rs p e p1 p30 =
      let few = (schema.safe_parse-Conforms v (marker m rs) e).0.2 in
      rw (plan_pdf_split-some v (marker m rs) p e)
        ((λ h. plan_spec-marker_Tiles m rs p h), (λ h. plan_spec-marker m rs p p1 p30 few h))
