-- ===== src/Csv/RoundTrip.antt =====
-- Cells that are written by `csv_quote`, and the tokens that `quoted_cells` reads.
use maintainflow.Prelude.{
  length-append, bind-ok, refuse-ok, ℕ, zero, suc, ◌+◌, ◌≤◌, ◌<◌, ◌≡◌, Bool, true, false, not, List,
  [], ◌∷◌, ◌++◌, some, length, ltb, ◌==◌, Result, ok, refl, ap, sym, ◌∙◌, arith, Bool-cases,
  Option-cases, inl, inr,
}
use maintainflow.Prelude.Text.{Str, str_eq, str_eq_iff}
use maintainflow.Csv.Quote.{
  quote, escape, csv_quote, unescape, take_quoted, take_plain, skip_separator,
}
use maintainflow.Csv.{
  Quoted, set_token, Cells, CsvStop, ends_cell, quoted_cell, plain_cell, scan_cell, scan_cells,
  drop_mark, scan_pages, was_decoded, drop_decoded, quoted_cells, character_limit, page_limit,
  cell_limit,
}

pub unescape-escape : (v : Str) → unescape false (escape v) ≡ v
unfolding unescape escape
unescape-escape [] = refl
unescape-escape (c ∷ v) = elim (Bool-cases (c == quote)) [
  | inl e ↦ ground (arith, unescape-escape v)
  | inr e ↦ ground (arith, unescape-escape v)
]

take_quoted-escape : (v : Str) → take_quoted false (escape v ++ quote ∷ []) ≡ some (escape v, [])
unfolding take_quoted escape
take_quoted-escape [] = refl
take_quoted-escape (c ∷ v) = elim (Bool-cases (c == quote)) [
  | inl e ↦ ground (arith, take_quoted-escape v)
  | inr e ↦ ground (arith, take_quoted-escape v)
]

-- What stands inside a quoted token is the escaped text of its value.
escape-unescape :
    (pending : Bool) (s inner rest : Str)
    → take_quoted pending s ≡ some (inner, rest)
    → escape (unescape false inner) ≡ inner
unfolding take_quoted unescape escape
escape-unescape true [] inner rest h = ground arith
escape-unescape false [] inner rest h = cc
escape-unescape true (c ∷ s) inner rest h = elim (Option-cases (take_quoted false s)) [
  | inl e ↦ ground arith
  | inr ((i, r), e) ↦ ground (arith, escape-unescape false s i r e)
]
escape-unescape false (c ∷ s) inner rest h = elim (Option-cases (take_quoted (c == quote) s)) [
  | inl e ↦ ground arith
  | inr ((i, r), e) ↦ ground (arith, escape-unescape (c == quote) s i r e)
]

abbrev pub AllQuoted : Quoted → Type 0
AllQuoted [] = Unit
AllQuoted ((token, value) ∷ rest) = (token ≡ csv_quote value) × AllQuoted rest

set_token-AllQuoted :
    (m : Quoted) (token value : Str)
    → token ≡ csv_quote value
    → AllQuoted m
    → AllQuoted (set_token m token value)
unfolding set_token
set_token-AllQuoted [] token value e h = (e, tt)
set_token-AllQuoted ((k, v) ∷ rest) token value e h = elim (Bool-cases (str_eq k token)) [
  | inl q ↦ rw q ((str_eq_iff k token).0 q ∙ e, h.1)
  | inr q ↦ rw q (h.0, set_token-AllQuoted rest token value e h.1)
]

drop_decoded-AllQuoted :
    (decoded : List Str) (m : Quoted) → AllQuoted m → AllQuoted (drop_decoded decoded m)
unfolding drop_decoded
drop_decoded-AllQuoted decoded [] h = tt
drop_decoded-AllQuoted decoded ((k, v) ∷ rest) h = elim (Bool-cases (was_decoded k decoded)) [
  | inl q ↦ rw q (drop_decoded-AllQuoted decoded rest h.1)
  | inr q ↦ rw q (h.0, drop_decoded-AllQuoted decoded rest h.1)
]

keep-AllQuoted :
    {x y : Cells × Str}
    → ◌≡◌ {A = Result CsvStop (Cells × Str)} (ok x) (ok y)
    → AllQuoted x.0.quoted
    → AllQuoted y.0.quoted
keep-AllQuoted {x} {y} h k = let e : x ≡ y = cc in rw e at k

quoted_cell-AllQuoted :
    (st : Cells) (s : Str) (next : Cells) (rest : Str)
    → AllQuoted st.quoted
    → quoted_cell st s ≡ ok (next, rest)
    → AllQuoted next.quoted
unfolding quoted_cell csv_quote
quoted_cell-AllQuoted st s next rest k h = elim (Option-cases (take_quoted false s)) [
  | inl e ↦ let h1 = rw (e, quoted_cell) at h in cc
  | inr ((inner, behind), e) ↦
      refuse-ok (not (ends_cell behind)) _ _ (rw (e, quoted_cell) at h) λ _ h1.
        let same =
          ap (λ (t : Str). quote ∷ t ++ quote ∷ []) (escape-unescape false s inner behind e) in
        keep-AllQuoted h1 (
          set_token-AllQuoted st.quoted (quote ∷ inner ++ quote ∷ []) (unescape false inner)
            (sym same) k)
]

plain_cell-AllQuoted :
    (st : Cells) (s : Str) (next : Cells) (rest : Str)
    → AllQuoted st.quoted
    → plain_cell st s ≡ ok (next, rest)
    → AllQuoted next.quoted
unfolding plain_cell
plain_cell-AllQuoted st s next rest k h = elim (Option-cases (take_plain s)) [
  | inl e ↦ let h1 = rw (e, plain_cell) at h in cc
  | inr ((value, behind), e) ↦ keep-AllQuoted (rw (e, plain_cell) at h) k
]

scan_cell-AllQuoted :
    (st : Cells) (c : ℕ) (s : Str) (next : Cells) (rest : Str)
    → AllQuoted st.quoted
    → scan_cell st c s ≡ ok (next, rest)
    → AllQuoted next.quoted
unfolding scan_cell
scan_cell-AllQuoted st c s next rest k h =
    let counted : Cells = record st { cells = st.cells + 1 } in
    refuse-ok (ltb cell_limit (st.cells + 1)) _ _ h λ _ h1. elim (Bool-cases (c == quote)) [
      | inl e ↦ quoted_cell-AllQuoted counted s next rest k (rw e at h1)
      | inr e ↦ plain_cell-AllQuoted counted (c ∷ s) next rest k (rw e at h1)
    ]

scan_cells-AllQuoted :
    (fuel : ℕ) (st : Cells) (s : Str) (final : Cells)
    → AllQuoted st.quoted
    → scan_cells fuel st s ≡ ok final
    → AllQuoted final.quoted
unfolding scan_cells
scan_cells-AllQuoted fuel st [] final k h = let e : st ≡ final = cc in rw e at k
scan_cells-AllQuoted zero st (c ∷ s) final k h = cc
scan_cells-AllQuoted (suc fuel) st (c ∷ s) final k h =
    bind-ok (scan_cell st c s) _ h λ (next, rest) cell h1.
      scan_cells-AllQuoted fuel next (skip_separator rest) final
        (scan_cell-AllQuoted st c s next rest k cell) h1

scan_pages-AllQuoted :
    (characters : ℕ) (st : Cells) (pages : List Str) (final : Cells)
    → AllQuoted st.quoted
    → scan_pages characters st pages ≡ ok final
    → AllQuoted final.quoted
unfolding scan_pages
scan_pages-AllQuoted characters st [] final k h = let e : st ≡ final = cc in rw e at k
scan_pages-AllQuoted characters st (text ∷ pages) final k h =
    refuse-ok (ltb character_limit (characters + length text)) _ _ h λ _ h1.
      bind-ok (scan_cells (length text) st (drop_mark text)) _ h1 λ next cells h2.
        scan_pages-AllQuoted (characters + length text) next pages final
          (scan_cells-AllQuoted (length text) st (drop_mark text) next k cells) h2

-- Each token that is read from a document stands for the value whose quoted form it is.
pub quoted_cells-AllQuoted :
    (pages : List Str) (m : Quoted) → quoted_cells pages ≡ ok m → AllQuoted m
unfolding quoted_cells
quoted_cells-AllQuoted pages m h = refuse-ok (ltb page_limit (length pages)) _ _ h λ _ h1.
    bind-ok (scan_pages 0 (record { cells = 0; quoted = []; decoded = [] }) pages) _ h1
      λ final run h2.
        let all = drop_decoded-AllQuoted final.decoded final.quoted (
          scan_pages-AllQuoted 0 (record { cells = 0; quoted = []; decoded = [] }) pages final tt
            run) in
        let e : drop_decoded final.decoded final.quoted ≡ m = cc in rw e at all

length-escape : (v : Str) → length v ≤ length (escape v)
unfolding escape
length-escape [] = omega arith
length-escape (c ∷ v) = elim (Bool-cases (c == quote)) [
  | inl e ↦ rw e (omega (arith, length-escape v))
  | inr e ↦ rw e (omega (arith, length-escape v))
]

length-csv_quote : (v : Str) → length v < length (csv_quote v)
unfolding csv_quote
length-csv_quote v = rw (length-append (escape v) (quote ∷ [])) (omega (arith, length-escape v))

quote_differs : (v : Str) → str_eq (csv_quote v) v ≡ false
quote_differs v = elim (Bool-cases (str_eq (csv_quote v) v)) [
  | inl e ↦
      let same = ap (λ (t : Str). length t) ((str_eq_iff (csv_quote v) v).0 e) in
      absurd (omega (arith, same, length-csv_quote v))
  | inr e ↦ e
]

abbrev start : Cells
start = record { cells = 0; quoted = []; decoded = [] }

abbrev one_read : Str → Cells
one_read v = record { cells = 1; quoted = (csv_quote v, v) ∷ []; decoded = v ∷ [] }

quoted_cell-escape :
    (v : Str)
    → quoted_cell (record start { cells = 1 }) (escape v ++ quote ∷ []) ≡ ok (one_read v, [])
unfolding quoted_cell set_token csv_quote
quoted_cell-escape v = rw (take_quoted-escape v, quoted_cell, unescape-escape v) refl

scan_cells-csv_quote :
    (v : Str) → scan_cells (length (csv_quote v)) start (csv_quote v) ≡ ok (one_read v)
unfolding scan_cells scan_cell csv_quote
scan_cells-csv_quote v = rw (quoted_cell-escape v) refl

drop_mark-csv_quote : (v : Str) → drop_mark (csv_quote v) ≡ csv_quote v
unfolding drop_mark csv_quote
drop_mark-csv_quote v = refl

scan_pages-csv_quote :
    (v : Str)
    → length (csv_quote v) ≤ character_limit
    → scan_pages 0 start (csv_quote v ∷ []) ≡ ok (one_read v)
unfolding scan_pages
scan_pages-csv_quote v h =
    let short : ltb character_limit (0 + length (csv_quote v)) ≡ false = ground arith in
    rw (short, drop_mark-csv_quote v, scan_cells-csv_quote v) refl

-- A document that is one quoted cell, no longer than the limit, gives the token of that cell with its
-- value.
quoted_cells-csv_quote :
    (v : Str)
    → length (csv_quote v) ≤ character_limit
    → quoted_cells (csv_quote v ∷ []) ≡ ok ((csv_quote v, v) ∷ [])
unfolding quoted_cells drop_decoded was_decoded
quoted_cells-csv_quote v h = rw (scan_pages-csv_quote v h, quote_differs v) refl
