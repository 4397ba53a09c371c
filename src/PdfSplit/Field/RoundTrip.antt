-- ===== src/PdfSplit/Field/RoundTrip.antt =====
-- Printed ranges, and the parser of the range field on them.
use mathlib.Core.List.{append-nil, append_assoc}
use maintainflow.Prelude.{
  ℕ, ◌+◌, ◌-◌, ◌*◌, ◌/◌, ◌%◌, ◌≤◌, ◌≡◌, refl, true, false, List, [], ◌∷◌, ◌++◌, map, some, length,
  length-append, length-map, ok, ltb, if◌then◌else◌, map_result, arith, ap, Bool-cases, inl, inr,
  ◌∙◌,
}
use maintainflow.Prelude.Text.{
  Str, is_digit, is_space, drop_spaces, trim, split, IsFreeOf, split-free, split-append, trim-first,
}
use maintainflow.PdfSplit.{
  PdfPageRange, SpecSchema, AreRanges, AreBoundedRanges, max_pages, max_documents, whole,
}
use maintainflow.PdfSplit.Ranges.{IsOrdered, total_pages}
use maintainflow.PdfSplit.Plan.{PdfSplitPlan, plan_pdf_split}
use maintainflow.PdfSplit.Marker.{is_empty}
use maintainflow.PdfSplit.Plan.Accepts.{plan_pdf_split-ranges}
use maintainflow.PdfSplit.Field.{
  RangesInput, take_digits, take_number, close_range, rest_of_range, parse_chunk, range_of_chunk,
  parse_pdf_ranges,
}

abbrev pub print_page : ℕ → Str
print_page n = if ltb n 10 then (b'0' + n) ∷ [] else (b'0' + n / 10) ∷ (b'0' + n % 10) ∷ []

abbrev pub print_range : PdfPageRange → Str
print_range r = print_page r.start ++ b'-' ∷ print_page r.end

-- The ranges as a user writes them, `1-2,5-5,7-9`.
abbrev pub print_ranges : List PdfPageRange → Str
print_ranges [] = []
print_ranges (r ∷ []) = print_range r
print_ranges (r ∷ q ∷ rs) = print_range r ++ b',' ∷ print_ranges (q ∷ rs)

abbrev StopsDigits : Str → Type 0
StopsDigits [] = Unit
StopsDigits (c ∷ s) = is_digit c ≡ false

take_digits-stop : (n : ℕ) (s : Str) → StopsDigits s → take_digits n s ≡ (n, s)
unfolding take_digits
take_digits-stop n [] h = refl
take_digits-stop n (c ∷ s) h = rw h

digit_read : (d : ℕ) → d ≤ 9 → (is_digit (b'0' + d) ≡ true) × (b'0' + d - b'0' ≡ d)
unfolding is_digit
digit_read d h = ground arith

take_number-one :
    (n : ℕ) (s : Str) → n ≤ 9 → StopsDigits s → take_number ((b'0' + n) ∷ s) ≡ some (n, s)
unfolding take_number
take_number-one n s h stop = let r = digit_read n h in rw (r.0, r.1, take_digits-stop n s stop)

take_number-two :
    (a b : ℕ) (s : Str)
    → a ≤ 9
    → b ≤ 9
    → StopsDigits s
    → take_number ((b'0' + a) ∷ (b'0' + b) ∷ s) ≡ some (a * 10 + b, s)
unfolding take_number take_digits
take_number-two a b s ha hb stop =
    let r = digit_read a ha in
    let q = digit_read b hb in rw (r.0, q.0, r.1, q.1, take_digits-stop (a * 10 + b) s stop)

take_number-print_page :
    (n : ℕ) (s : Str) → n ≤ 99 → StopsDigits s → take_number (print_page n ++ s) ≡ some (n, s)
take_number-print_page n s h stop = elim (Bool-cases (ltb n 10)) [
  | inl e ↦ rw e (take_number-one n s (ground arith) stop)
  | inr e ↦
      let back : n / 10 * 10 + n % 10 ≡ n = omega arith in
      rw e (rw back at (take_number-two (n / 10) (n % 10) s (omega arith) (omega arith) stop))
]

drop_spaces-print_page :
    (n : ℕ) (s : Str) → n ≤ 99 → drop_spaces (print_page n ++ s) ≡ print_page n ++ s
unfolding drop_spaces is_space
drop_spaces-print_page n s h = ground arith

parse_chunk-read :
    (chunk t rest rest' : Str) (n : ℕ)
    → drop_spaces chunk ≡ t
    → take_number t ≡ some (n, rest)
    → drop_spaces rest ≡ rest'
    → parse_chunk chunk ≡ rest_of_range n rest'
unfolding parse_chunk
parse_chunk-read chunk t rest rest' n e f g = ground arith

rest_of_range-read :
    (s t : Str) (n k : ℕ)
    → drop_spaces s ≡ t
    → take_number t ≡ some (k, [])
    → rest_of_range n (b'-' ∷ s) ≡ some (record { start = n; end = k })
unfolding rest_of_range close_range drop_spaces
rest_of_range-read s t n k e f = ground arith

parse_chunk-print_range :
    (r : PdfPageRange) → r.start ≤ 99 → r.end ≤ 99 → parse_chunk (print_range r) ≡ some r
unfolding is_digit drop_spaces
parse_chunk-print_range r a b =
    let tail = b'-' ∷ print_page r.end in
    parse_chunk-read (print_range r) (print_range r) tail tail r.start
      (drop_spaces-print_page r.start tail a) (take_number-print_page r.start tail a refl) refl
    ∙ rest_of_range-read (print_page r.end) (print_page r.end) r.start r.end
        (rw append-nil at (drop_spaces-print_page r.end [] b))
        (rw append-nil at (take_number-print_page r.end [] b tt))

IsFreeOf-append : (sep : ℕ) (s t : Str) → IsFreeOf sep s → IsFreeOf sep t → IsFreeOf sep (s ++ t)
IsFreeOf-append sep [] t h k = k
IsFreeOf-append sep (c ∷ s) t h k = (h.0, IsFreeOf-append sep s t h.1 k)

print_page-IsFreeOf : (n : ℕ) → IsFreeOf b',' (print_page n)
print_page-IsFreeOf n = ground arith

print_range-IsFreeOf : (r : PdfPageRange) → IsFreeOf b',' (print_range r)
print_range-IsFreeOf r =
    IsFreeOf-append b',' (print_page r.start) (b'-' ∷ print_page r.end)
      (print_page-IsFreeOf r.start) (refl, print_page-IsFreeOf r.end)

split-print_ranges :
    (r : PdfPageRange) (rs : List PdfPageRange)
    → split b',' (print_ranges (r ∷ rs)) ≡ map print_range (r ∷ rs)
split-print_ranges r [] = split-free b',' (print_range r) (print_range-IsFreeOf r)
split-print_ranges r (q ∷ rs) =
    split-append b',' (print_range r) (print_ranges (q ∷ rs)) (print_range-IsFreeOf r)
    ∙ ap (λ t. print_range r ∷ t) (split-print_ranges q rs)

range_of_chunk-print_range :
    (r : PdfPageRange) → r.start ≤ 99 → r.end ≤ 99 → range_of_chunk (print_range r) ≡ ok r
unfolding range_of_chunk
range_of_chunk-print_range r a b = ground (arith, parse_chunk-print_range r a b)

map_result-print_ranges :
    (rs : List PdfPageRange) → AreRanges rs → map_result range_of_chunk (map print_range rs) ≡ ok rs
unfolding map_result
map_result-print_ranges [] h = refl
map_result-print_ranges (r ∷ rs) h =
    let a : r.start ≤ 99 = omega (arith, h.0.bounded) in
    let b : r.end ≤ 99 = omega (arith, h.1.bounded) in
    rw (range_of_chunk-print_range r a b, map_result-print_ranges rs h.2)

length-print_page : (n : ℕ) → length (print_page n) ≤ 2
length-print_page n = ground arith

length-print_range : (r : PdfPageRange) → length (print_range r) ≤ 5
length-print_range r = omega (
  arith,
  length-append {0} (print_page r.start) (b'-' ∷ print_page r.end),
  length-print_page r.start,
  length-print_page r.end,
)

length-print_ranges : (rs : List PdfPageRange) → length (print_ranges rs) ≤ 6 * length rs
length-print_ranges [] = omega arith
length-print_ranges (r ∷ []) = omega (arith, length-print_range r)
length-print_ranges (r ∷ q ∷ rs) = omega (
  arith,
  length-append {0} (print_range r) (b',' ∷ print_ranges (q ∷ rs)),
  length-print_range r,
  length-print_ranges (q ∷ rs),
)

-- A printed page begins with a digit.
print_page-first :
    (n : ℕ) (s : Str)
    → n ≤ 99
    → (c : ℕ) × (t : Str) × (print_page n ++ s ≡ c ∷ t) × (is_space c ≡ false)
unfolding is_space
print_page-first n s h = elim (Bool-cases (ltb n 10)) [
  | inl e ↦ (b'0' + n, s, rw e, ground arith)
  | inr e ↦ (b'0' + n / 10, (b'0' + n % 10) ∷ s, rw e, ground arith)
]

print_ranges-first :
    (r : PdfPageRange) (rs : List PdfPageRange)
    → (s : Str) × (print_ranges (r ∷ rs) ≡ print_page r.start ++ s)
print_ranges-first r [] = (b'-' ∷ print_page r.end, refl)
print_ranges-first r (q ∷ rs) = (
  (b'-' ∷ print_page r.end) ++ b',' ∷ print_ranges (q ∷ rs),
  append_assoc (print_page r.start) (b'-' ∷ print_page r.end) (b',' ∷ print_ranges (q ∷ rs)),
)

trim-print_ranges :
    (r : PdfPageRange) (rs : List PdfPageRange)
    → r.start ≤ 99
    → is_empty (trim (print_ranges (r ∷ rs))) ≡ false
unfolding is_empty
trim-print_ranges r rs h =
    let (s, e) = print_ranges-first r rs in
    let (c, t, f, space) = print_page-first r.start s h in
    let (u, g) = trim-first c t space in rw (e, f, g)

module _ (schema : SpecSchema) (input : RangesInput schema) where
  parse_pdf_ranges-steps :
      (text : Str) (chunks : List Str) (rs : List PdfPageRange) (plan : PdfSplitPlan)
      → length text ≤ 1000
      → is_empty (trim text) ≡ false
      → split b',' text ≡ chunks
      → length chunks ≤ max_documents
      → map_result range_of_chunk chunks ≡ ok rs
      → plan_pdf_split schema (input.value rs) (whole max_pages) ≡ ok plan
      → parse_pdf_ranges schema input text ≡ ok plan.ranges
  unfolding parse_pdf_ranges
  parse_pdf_ranges-steps text chunks rs plan short full cut few read planned = ground arith

  -- The field reads 1 to 20 ranges, printed as `1-2,5-5,7-9`, back as they are, if they are in order,
  -- without overlap and within 30 pages.
  pub parse_pdf_ranges-print_ranges :
      (rs : List PdfPageRange)
      → AreBoundedRanges rs
      → IsOrdered 0 max_pages rs
      → parse_pdf_ranges schema input (print_ranges rs) ≡ ok rs
  parse_pdf_ranges-print_ranges [] h ord = absurd (omega arith)
  parse_pdf_ranges-print_ranges (r ∷ rs) h ord =
      let all = r ∷ rs in
      parse_pdf_ranges-steps (print_ranges all) (map print_range all) all
        (record { ranges = all; selected_pages = total_pages all })
        (omega (arith, length-print_ranges all))
        (trim-print_ranges r rs (omega (arith, h.0.0.bounded))) (split-print_ranges r rs)
        (omega (arith, length-map all print_range)) (map_result-print_ranges all h.0)
        ((plan_pdf_split-ranges schema (input.value all) all max_pages (input.accepts all h)
            (omega arith) (omega arith)).1
          ord)
