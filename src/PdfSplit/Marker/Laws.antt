-- ===== src/PdfSplit/Marker/Laws.antt =====
-- The page scan of `findPdfMarkerRanges`, and the comparison of ranges.
use maintainflow.Prelude.{
  ℕ, zero, suc, ◌+◌, ◌-◌, ◌≤◌, ◌<◌, ◌≡◌, refl, ◌∙◌, ◌↔◌, Bool, true, false, ◌||◌, List, [], ◌∷◌,
  length, arith, Bool-cases, inl, inr, ◌==◌, get_elem?, Option, none, some,
}
use maintainflow.Prelude.Text.{Str, includes}
use maintainflow.PdfSplit.{PdfPageRange}
use maintainflow.PdfSplit.Ranges.{Tiles}
use maintainflow.PdfSplit.Marker.{
  matched, push_page, page_kind, scan_pages, starts_of, ranges_of, same_ranges,
  normalize_pdf_marker_text,
}

-- Page numbers from `low` on, rising, up to `high`.
abbrev pub Rising : ℕ → ℕ → List ℕ → Type 0
Rising low high [] = Unit
Rising low high (n ∷ ns) = (low ≤ n) × (n ≤ high) × Rising (n + 1) high ns

Rising-low : (a b high : ℕ) (ns : List ℕ) → a ≤ b → Rising b high ns → Rising a high ns
Rising-low a b high [] l h = tt
Rising-low a b high (n ∷ ns) l h = (omega arith, h.1, h.2)

scan_pages-Rising_from :
    (m : Str) (n high : ℕ) (pages : List Str)
    → n + length pages ≡ high + 1
    → Rising n high (scan_pages m n pages).0
unfolding scan_pages push_page
scan_pages-Rising_from m n high [] e = tt
scan_pages-Rising_from m n high (text ∷ rest) e =
    let ih = scan_pages-Rising_from m (n + 1) high rest (omega arith) in
    let low = Rising-low n (n + 1) high (scan_pages m (n + 1) rest).0 (omega arith) ih in
    ground arith

pub scan_pages-Rising :
    (m : Str) (pages : List Str) → Rising 1 (length pages) (scan_pages m 1 pages).0
scan_pages-Rising m pages = scan_pages-Rising_from m 1 (length pages) pages (omega arith)

-- Rising starts cut the pages from the first of them to the end.
pub ranges_of-Tiles :
    (n count : ℕ) (ns : List ℕ)
    → 1 ≤ n
    → n ≤ count
    → Rising (n + 1) count ns
    → Tiles (n - 1) count (ranges_of (n ∷ ns) count)
unfolding ranges_of
ranges_of-Tiles n count [] n1 le h = omega arith
ranges_of-Tiles n count (k ∷ ks) n1 le h =
    (omega arith, omega arith, ranges_of-Tiles k count ks (omega arith) h.1 h.2)

pub starts_of-Tiles :
    (count : ℕ) (ms : List ℕ)
    → 1 ≤ count
    → Rising 1 count ms
    → Tiles 0 count (ranges_of (starts_of ms) count)
unfolding starts_of
starts_of-Tiles count [] c1 h = ranges_of-Tiles 1 count [] (omega arith) c1 tt
starts_of-Tiles count (n ∷ ns) c1 h = elim (Bool-cases (n == 1)) [
  | inl e ↦
      let one : n - 1 ≡ 0 = ground arith in
      rw e (rw one at (ranges_of-Tiles n count ns h.0 h.1 h.2))
  | inr e ↦ rw e (ranges_of-Tiles 1 count (n ∷ ns) (omega arith) c1 (ground arith, h.1, h.2))
]

abbrev pub contains : List ℕ → ℕ → Bool
contains [] n = false
contains (k ∷ ks) n = (k == n) || contains ks n

-- A range begins at the page.
abbrev pub begins : List PdfPageRange → ℕ → Bool
begins [] n = false
begins (r ∷ rs) n = (r.start == n) || begins rs n

ranges_of-begins : (ns : List ℕ) (count n : ℕ) → begins (ranges_of ns count) n ≡ contains ns n
unfolding ranges_of
ranges_of-begins [] count n = refl
ranges_of-begins (k ∷ ns) count n = rw (ranges_of-begins ns count n) refl

starts_of-contains : (ms : List ℕ) (n : ℕ) → contains (starts_of ms) n ≡ ((1 == n) || contains ms n)
unfolding starts_of
starts_of-contains [] n = refl
starts_of-contains (m ∷ ms) n = elim (Bool-cases (m == 1)) [
  | inl e ↦ let same : m ≡ 1 = ground arith in rw same (ground arith)
  | inr e ↦ rw e refl
]

-- The ranges begin at the first page and at the pages that are given.
pub ranges_of-starts_of :
    (ms : List ℕ) (count n : ℕ)
    → begins (ranges_of (starts_of ms) count) n ≡ ((1 == n) || contains ms n)
ranges_of-starts_of ms count n = ranges_of-begins (starts_of ms) count n ∙ starts_of-contains ms n

-- The marker stands on the page: its text, with spaces folded, includes it.
unfoldable pub marker_on : Str → Option Str → Bool
marker_on m none = false
marker_on m (some text) = includes (normalize_pdf_marker_text text) m

includes-nil : (m : Str) → 1 ≤ length m → includes [] m ≡ false
unfolding includes
includes-nil [] h = elim h [ ]
includes-nil (c ∷ m) h = refl

page_kind_iff : (m t : Str) → 1 ≤ length m → (page_kind m t ≡ matched) ↔ (includes t m ≡ true)
unfolding page_kind
page_kind_iff m [] h = ground (arith, includes-nil m h)
page_kind_iff m (c ∷ t) h = ground arith

Rising-contains :
    (low high k : ℕ) (ns : List ℕ) → k < low → Rising low high ns → contains ns k ≡ false
Rising-contains low high k [] l h = refl
Rising-contains low high k (n ∷ ns) l h =
    ground (arith, Rising-contains (n + 1) high k ns (omega arith) h.2)

-- The page numbers kept are those of the pages that hold the marker.
pub scan_pages-contains :
    (m : Str) (n i : ℕ) (pages : List Str)
    → 1 ≤ length m
    → contains (scan_pages m n pages).0 (n + i) ≡ marker_on m (get_elem? pages i)
unfolding scan_pages push_page marker_on
scan_pages-contains m n i [] h = refl
scan_pages-contains m n zero (text ∷ rest) h =
    let later =
      Rising-contains (n + 1) (n + length rest) n (scan_pages m (n + 1) rest).0 (omega arith)
        (scan_pages-Rising_from m (n + 1) (n + length rest) rest (omega arith)) in
    ground (arith, later, page_kind_iff m (normalize_pdf_marker_text text) h)
scan_pages-contains m n (suc i) (text ∷ rest) h =
    let e : n + suc i ≡ n + 1 + i = omega arith in
    rw e (ground (arith, scan_pages-contains m (n + 1) i rest h))

pub same_ranges_iff : (rs qs : List PdfPageRange) → (same_ranges rs qs ≡ true) ↔ (rs ≡ qs)
unfolding same_ranges
same_ranges_iff [] [] = ground arith
same_ranges_iff [] (q ∷ qs) = ground arith
same_ranges_iff (r ∷ rs) [] = ground arith
same_ranges_iff (r ∷ rs) (q ∷ qs) = ground (arith, same_ranges_iff rs qs)
