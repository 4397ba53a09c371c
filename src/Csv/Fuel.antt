-- ===== src/Csv/Fuel.antt =====
-- The fuel of the loop over the cells of a page.
use maintainflow.Prelude.{
  ℕ, zero, suc, ◌+◌, ◌-◌, ◌≤◌, ◌≡◌, Bool, true, false, not, ◌&&◌, List, [], ◌∷◌, some, length, ltb,
  ◌==◌, Result, ok, err, refuse, ◌>>=◌, ◌>>◌, arith, Bool-cases, Option-cases, inl, inr,
}
use maintainflow.Prelude.Text.{Str}
use maintainflow.Csv.Quote.{quote, take_quoted, take_plain, skip_separator}
use maintainflow.Csv.{
  Cells, CsvStop, refused, out_of_fuel, ends_cell, quoted_cell, plain_cell, scan_cell, scan_cells,
  drop_mark, scan_pages, quoted_cells, character_limit, page_limit, cell_limit,
}

-- A result that is not for want of fuel, with what holds of its value.
abbrev pub IsSettled : {A : Type 0} → (A → Type 0) → Result CsvStop A → Type 0
IsSettled P (ok a) = P a
IsSettled P (err refused) = Unit
IsSettled P (err out_of_fuel) = ⊥

bind-IsSettled :
    {A B : Type 0} (P : A → Type 0) (Q : B → Type 0) (m : Result CsvStop A)
    (f : A → Result CsvStop B)
    → IsSettled P m
    → ((a : A) → P a → IsSettled Q (f a))
    → IsSettled Q (m >>= f)
bind-IsSettled P Q (ok a) f h k = k a h
bind-IsSettled P Q (err refused) f h k = tt
bind-IsSettled P Q (err out_of_fuel) f h k = h

refuse-IsSettled :
    {B : Type 0} (Q : B → Type 0) (t : Bool) (k : Result CsvStop B)
    → IsSettled Q k
    → IsSettled Q (refuse t refused >> k)
refuse-IsSettled Q true k h = tt
refuse-IsSettled Q false k h = h

take_plain-length : (s v rest : Str) → take_plain s ≡ some (v, rest) → length rest ≤ length s
unfolding take_plain
take_plain-length [] v rest h = ground arith
take_plain-length (c ∷ s) v rest h = elim (Option-cases (take_plain s)) [
  | inl e ↦ ground arith
  | inr ((w, r), e) ↦ ground (arith, take_plain-length s w r e)
]

take_quoted-length :
    (pending : Bool) (s v rest : Str)
    → take_quoted pending s ≡ some (v, rest)
    → length rest ≤ length s
unfolding take_quoted
take_quoted-length true [] v rest h = ground arith
take_quoted-length false [] v rest h = cc
take_quoted-length true (c ∷ s) v rest h = elim (Option-cases (take_quoted false s)) [
  | inl e ↦ ground arith
  | inr ((w, r), e) ↦ ground (arith, take_quoted-length false s w r e)
]
take_quoted-length false (c ∷ s) v rest h = elim (Option-cases (take_quoted (c == quote) s)) [
  | inl e ↦ ground arith
  | inr ((w, r), e) ↦ ground (arith, take_quoted-length (c == quote) s w r e)
]

skip_separator-length : (s : Str) → length (skip_separator s) ≤ length s - 1
unfolding skip_separator
skip_separator-length [] = omega arith
skip_separator-length (c ∷ []) = omega arith
skip_separator-length (c ∷ d ∷ s) = elim (Bool-cases (c == 13 && d == 10)) [
  | inl e ↦ rw e (omega arith)
  | inr e ↦ rw e (omega arith)
]

abbrev LeavesAtMost : ℕ → Cells × Str → Type 0
LeavesAtMost n (st, rest) = length rest ≤ n

quoted_cell-IsSettled :
    (st : Cells) (s : Str) → IsSettled (LeavesAtMost (suc (length s))) (quoted_cell st s)
unfolding quoted_cell
quoted_cell-IsSettled st s = elim (Option-cases (take_quoted false s)) [
  | inl e ↦ rw (e, IsSettled) tt
  | inr ((inner, rest), e) ↦
      rw (e, IsSettled)
        (refuse-IsSettled (LeavesAtMost (suc (length s))) (not (ends_cell rest)) _
          (omega (arith, take_quoted-length false s inner rest e)))
]

plain_cell-IsSettled :
    (st : Cells) (s : Str) → IsSettled (LeavesAtMost (length s)) (plain_cell st s)
unfolding plain_cell
plain_cell-IsSettled st s = elim (Option-cases (take_plain s)) [
  | inl e ↦ rw (e, IsSettled) tt
  | inr ((v, rest), e) ↦ rw (e, IsSettled) (take_plain-length s v rest e)
]

scan_cell-IsSettled :
    (st : Cells) (c : ℕ) (s : Str) → IsSettled (LeavesAtMost (suc (length s))) (scan_cell st c s)
unfolding scan_cell
scan_cell-IsSettled st c s =
    let counted : Cells = record st { cells = st.cells + 1 } in
    refuse-IsSettled (LeavesAtMost (suc (length s))) (ltb cell_limit (st.cells + 1)) _
      (elim (Bool-cases (c == quote)) [
        | inl e ↦ rw e (quoted_cell-IsSettled counted s)
        | inr e ↦ rw e (plain_cell-IsSettled counted (c ∷ s))
      ])

scan_cells-IsSettled :
    (fuel : ℕ) (st : Cells) (s : Str)
    → length s ≤ fuel
    → IsSettled (λ _. Unit {0}) (scan_cells fuel st s)
unfolding scan_cells
scan_cells-IsSettled fuel st [] h = tt
scan_cells-IsSettled zero st (c ∷ s) h = absurd (omega arith)
scan_cells-IsSettled (suc fuel) st (c ∷ s) h =
    bind-IsSettled (LeavesAtMost (suc (length s))) (λ _. Unit {0}) (scan_cell st c s) _
      (scan_cell-IsSettled st c s)
      λ (next, rest) left.
        scan_cells-IsSettled fuel next (skip_separator rest)
          (omega (arith, left, h, skip_separator-length rest))

drop_mark-length : (s : Str) → length (drop_mark s) ≤ length s
unfolding drop_mark
drop_mark-length [] = omega arith
drop_mark-length (c ∷ s) = ground arith

scan_pages-IsSettled :
    (characters : ℕ) (st : Cells) (pages : List Str)
    → IsSettled (λ _. Unit {0}) (scan_pages characters st pages)
unfolding scan_pages
scan_pages-IsSettled characters st [] = tt
scan_pages-IsSettled characters st (text ∷ pages) =
    refuse-IsSettled (λ _. Unit {0}) (ltb character_limit (characters + length text)) _
      (bind-IsSettled (λ _. Unit {0}) (λ _. Unit {0}) (scan_cells (length text) st (drop_mark text))
        _ (scan_cells-IsSettled (length text) st (drop_mark text) (drop_mark-length text))
        λ next _. scan_pages-IsSettled (characters + length text) next pages)

-- For any document the reader gives its tokens or null: the fuel is enough.
pub quoted_cells-IsSettled : (pages : List Str) → IsSettled (λ _. Unit {0}) (quoted_cells pages)
unfolding quoted_cells
quoted_cells-IsSettled pages =
    refuse-IsSettled (λ _. Unit {0}) (ltb page_limit (length pages)) _
      (bind-IsSettled (λ _. Unit {0}) (λ _. Unit {0})
        (scan_pages 0 (record { cells = 0; quoted = []; decoded = [] }) pages) _
        (scan_pages-IsSettled 0 (record { cells = 0; quoted = []; decoded = [] }) pages)
        λ final _. tt)
