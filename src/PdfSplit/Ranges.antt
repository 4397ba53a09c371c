-- ===== src/PdfSplit/Ranges.antt =====
-- Lists of page ranges: ordered inside a document, or tiling a stretch of its pages.
use maintainflow.Prelude.{ℕ, ◌+◌, ◌-◌, ◌≤◌, ◌<◌, ◌≡◌, List, [], ◌∷◌, arith}
use maintainflow.PdfSplit.{PdfPageRange}

-- Behind page `last`, in order, without overlap, up to page `p`.
abbrev pub IsOrdered : ℕ → ℕ → List PdfPageRange → Type 0
IsOrdered last p [] = Unit
IsOrdered last p (r ∷ rs) =
    (last < r.start) × (r.start ≤ r.end) × (r.end ≤ p) × IsOrdered r.end p rs

-- The ranges are exactly the pages behind `last` up to `q`, in order and without a gap.
abbrev pub Tiles : ℕ → ℕ → List PdfPageRange → Type 0
Tiles last q [] = last ≡ q
Tiles last q (r ∷ rs) = (r.start ≡ last + 1) × (r.start ≤ r.end) × Tiles r.end q rs

abbrev pub total_pages : List PdfPageRange → ℕ
total_pages [] = 0
total_pages (r ∷ rs) = (r.end - r.start + 1) + total_pages rs

abbrev pub last_page : ℕ → List PdfPageRange → ℕ
last_page last [] = last
last_page last (r ∷ rs) = last_page r.end rs

pub Tiles-total_pages :
    (last q : ℕ) (rs : List PdfPageRange) → Tiles last q rs → last + total_pages rs ≡ q
Tiles-total_pages last q [] h = omega arith
Tiles-total_pages last q (r ∷ rs) h = omega (arith, Tiles-total_pages r.end q rs h.2)

pub IsOrdered-total_pages :
    (last p : ℕ) (rs : List PdfPageRange)
    → last ≤ p
    → IsOrdered last p rs
    → last + total_pages rs ≤ p
IsOrdered-total_pages last p [] b h = omega arith
IsOrdered-total_pages last p (r ∷ rs) b h = omega (arith, IsOrdered-total_pages r.end p rs h.2 h.3)

pub Tiles-le : (last q : ℕ) (rs : List PdfPageRange) → Tiles last q rs → last ≤ q
Tiles-le last q rs h = omega (arith, Tiles-total_pages last q rs h)

pub Tiles-IsOrdered :
    (last q p : ℕ) (rs : List PdfPageRange) → q ≤ p → Tiles last q rs → IsOrdered last p rs
Tiles-IsOrdered last q p [] b h = tt
Tiles-IsOrdered last q p (r ∷ rs) b h =
    (omega arith, h.1, omega (arith, Tiles-le r.end q rs h.2), Tiles-IsOrdered r.end q p rs b h.2)
