-- ===== src/Provider/Sheets/Bounds.antt =====
-- The columns and the rows of a sheet, of server/integrations/provider-policy.ts.
use maintainflow.Export.{Cell}
use maintainflow.Prelude.{
  ℕ, zero, suc, ◌+◌, ◌-◌, ◌/◌, ◌%◌, ◌==◌, Bool-cases, inl, inr, ◌*◌, ◌≤◌, ◌≡◌, false, ◌||◌, List,
  [], ◌∷◌, Result, ok, refl, arith, bind-ok, refuse-ok, ok-Ensures, map_result, ltb, not_ltb,
  length,
}
use maintainflow.Prelude.All.{All, map_result-All}
use maintainflow.Prelude.Json.{Json}
use maintainflow.Prelude.Text.{Str}
use maintainflow.Provider.Sheets.{
  column_loop, sheet_column, sheet_items, SheetConfig, ApprovalPayload, sheet_cell, sheet_rows,
}

-- The number that the letters of a column write: A is 1, Z is 26, AA is 27.
unfoldable pub column_number : Str → ℕ → ℕ
column_number [] n = n
column_number (c ∷ s) n = column_number s (n * 26 + (c - 64))

column_loop-value :
    (fuel index : ℕ)
    → 1 ≤ index
    → index ≤ 50
    → column_number (column_loop (suc (suc (suc fuel))) index []) 0 ≡ index
unfolding column_loop column_number
column_loop-value fuel index low high = ground arith

-- `c` is one of the letters A to Z.
abbrev pub IsCapital : ℕ → Type 0
IsCapital c = (65 ≤ c) × (c ≤ 90)

capital : (index : ℕ) → IsCapital (65 + (index - 1) % 26)
capital index = (omega arith, omega arith)

column_loop-capitals :
    (fuel index : ℕ) (name : Str) → All IsCapital name → All IsCapital (column_loop fuel index name)
unfolding column_loop
column_loop-capitals zero index name h = h
column_loop-capitals (suc fuel) index name h = elim (Bool-cases (index == 0)) [
  | inl e ↦ rw e h
  | inr e ↦ rw e (
      column_loop-capitals fuel ((index - 1) / 26) ((65 + (index - 1) % 26) ∷ name)
        (capital index, h))
]

column_allowed : (index : ℕ) → 1 ≤ index → index ≤ 50 → (ltb index 1 || ltb 50 index) ≡ false
column_allowed index low high = ground arith

-- The name of a column, of the 50 that there may be, has letters from A to Z only, and they write
-- the column's number with A for 1, so that no two columns have the same name.
pub sheet_column-column_number :
    (index : ℕ)
    → 1 ≤ index
    → index ≤ 50
    → (name : Str) × (sheet_column index ≡ ok name)
      × All IsCapital name
      × (column_number name 0 ≡ index)
unfolding sheet_column
sheet_column-column_number index low high = (
  column_loop 50 index [],
  rw (column_allowed index low high, sheet_column),
  column_loop-capitals 50 index [] tt,
  column_loop-value 47 index low high,
)

map_result-length {ℓ} :
    {E B : Type 0} {A : Type ℓ} (f : A → Result E B) (xs : List A) (ys : List B)
    → map_result f xs ≡ ok ys
    → length ys ≡ length xs
unfolding map_result
map_result-length f [] ys h = ok-Ensures (λ z. length z ≡ 0) h refl
map_result-length f (x ∷ xs) ys h = bind-ok (f x) _ h λ y _ h1.
    bind-ok (map_result f xs) _ h1 λ zs e h2.
      let same = map_result-length f xs zs e in
      ok-Ensures (λ z. length z ≡ suc (length xs)) h2 (omega (arith, same))

-- An approval has a row for each of its items, 1,000 at most, and a row has a cell for each column.
pub sheet_rows-AreBounded :
    (stringify : Json → Str) (payload : ApprovalPayload) (config : SheetConfig)
    (rows : List (List Cell))
    → sheet_rows stringify payload config ≡ ok rows
    → (length rows ≡ length (sheet_items payload config))
      × (length rows ≤ 1000)
      × All (λ row. length row ≡ length config.sheet_columns) rows
unfolding sheet_rows
sheet_rows-AreBounded stringify payload config rows h =
    let items = sheet_items payload config in
    let cells =
      λ (item : Json). map_result (sheet_cell stringify payload item) config.sheet_columns in
    refuse-ok (ltb 1000 (length items)) _ _ h λ few h1.
      let size = map_result-length cells items rows h1 in
      (
        size,
        omega (arith, size, not_ltb 1000 (length items) few),
        map_result-All (λ row. length row ≡ length config.sheet_columns) cells
            (λ item row e.
              map_result-length (sheet_cell stringify payload item) config.sheet_columns row e)
            items rows h1,
      )
