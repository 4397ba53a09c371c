-- ===== src/PdfSplit/Plan/Laws.antt =====
-- The loop of `planPdfSplit` over the ranges, and the ranges of a plan by page count.
use maintainflow.Prelude.{
  ℕ, zero, suc, ◌+◌, ◌-◌, ◌*◌, ◌≤◌, ◌<◌, ◌≡◌, refl, Bool, true, false, List, [], ◌∷◌, length, min,
  ok, Ensures, arith, ap,
}
use maintainflow.PdfSplit.{PdfPageRange}
use maintainflow.PdfSplit.Ranges.{IsOrdered, Tiles, total_pages, last_page, Tiles-le}
use maintainflow.PdfSplit.Plan.{ceil_div, every_ranges, check_ranges}

pub check_ranges-IsOrdered :
    (by_marker : Bool) (p last sel : ℕ) (rs : List PdfPageRange)
    → Ensures
        (λ d. IsOrdered last p rs × (d.0 ≡ last_page last rs) × (d.1 ≡ sel + total_pages rs))
        (check_ranges by_marker p last sel rs)
unfolding check_ranges
check_ranges-IsOrdered m p last sel [] = ground arith
check_ranges-IsOrdered m p last sel (r ∷ rs) =
    ground (arith, check_ranges-IsOrdered m p r.end (sel + (r.end - r.start + 1)) rs)

pub check_ranges-ok :
    (p last sel : ℕ) (rs : List PdfPageRange)
    → IsOrdered last p rs
    → check_ranges false p last sel rs ≡ ok (last_page last rs, sel + total_pages rs)
unfolding check_ranges
check_ranges-ok p last sel [] h = ground arith
check_ranges-ok p last sel (r ∷ rs) h =
    ground (arith, check_ranges-ok p r.end (sel + (r.end - r.start + 1)) rs)

pub check_ranges-Tiles :
    (p last sel : ℕ) (rs : List PdfPageRange)
    → Ensures (λ d. Tiles last d.0 rs) (check_ranges true p last sel rs)
unfolding check_ranges
check_ranges-Tiles p last sel [] = ground arith
check_ranges-Tiles p last sel (r ∷ rs) =
    ground (arith, check_ranges-Tiles p r.end (sel + (r.end - r.start + 1)) rs)

pub Tiles-check_ranges :
    (by_marker : Bool) (p last sel q : ℕ) (rs : List PdfPageRange)
    → q ≤ p
    → Tiles last q rs
    → check_ranges by_marker p last sel rs ≡ ok (q, sel + total_pages rs)
unfolding check_ranges
Tiles-check_ranges m p last sel q [] b h = ground arith
Tiles-check_ranges m p last sel q (r ∷ rs) b h = ground (
  arith,
  Tiles-le r.end q rs h.2,
  Tiles-check_ranges m p r.end (sel + (r.end - r.start + 1)) q rs b h.2,
)

pub ceil_div_bounds : (p k : ℕ) → 1 ≤ k → (p ≤ ceil_div p k * k) × (ceil_div p k * k < p + k)
unfolding ceil_div
ceil_div_bounds p k h = omega arith

-- From the index `i` on, the ranges of `k` pages tile what is left of the document.
pub every_ranges-Tiles :
    (k p n i : ℕ)
    → 1 ≤ k
    → p ≤ (i + n) * k
    → (i + n) * k < p + k
    → Tiles (min (i * k) p) p (every_ranges k p n i)
unfolding every_ranges
every_ranges-Tiles k p zero i one low high = omega arith
every_ranges-Tiles k p (suc n) i one low high = (
  grind arith,
  grind arith,
  every_ranges-Tiles k p n (i + 1) one (omega (arith, low)) (omega arith),
)

pub length-every_ranges : (k p n i : ℕ) → length (every_ranges k p n i) ≡ n
unfolding every_ranges
length-every_ranges k p zero i = refl
length-every_ranges k p (suc n) i = ap suc (length-every_ranges k p n (i + 1))

abbrev pub AllShort : ℕ → List PdfPageRange → Type 0
AllShort k [] = Unit
AllShort k (r ∷ rs) = (r.end - r.start + 1 ≤ k) × AllShort k rs

pub every_ranges-AllShort : (k p n i : ℕ) → 1 ≤ k → AllShort k (every_ranges k p n i)
unfolding every_ranges
every_ranges-AllShort k p zero i h = tt
every_ranges-AllShort k p (suc n) i h = (omega arith, every_ranges-AllShort k p n (i + 1) h)
