-- ===== src/Export/Table.antt =====
-- The table of `exportRows` of server/integrations/export-format.ts.
use maintainflow.Export.{
  Cell, text_cell, number_cell, bool_cell, ExportColumn, ExportOptions, ExportRecord,
  starts_formula, protected_text, is_finite_text, expanded_items, text_of, export_columns,
  ExportTable, safe_cell, row_cell, get_path, export_records, export_rows,
}
use maintainflow.Prelude.{
  ℕ, ◌+◌, ◌*◌, ◌≤◌, ◌≡◌, Bool, true, false, ◌||◌, List, [], ◌∷◌, ◌++◌, map, Option, ok, ltb,
  not_ltb, or_false, drop, if◌then◌else◌, length, length-append, length-map, refl, arith,
  Bool-cases, inl, inr, ◌⊎◌, bind-ok, refuse-ok, ok-Ensures,
}
use maintainflow.Prelude.All.{All}
use maintainflow.Prelude.Json.{whole, other_number, Json, null, number, bool, string, array, object}
use maintainflow.Prelude.Text.{Str, codes, str_eq, starts_with, is_space}

-- A text that a spreadsheet runs: behind blanks, which are the controls and every space of
-- JavaScript, it begins with an equals sign, a plus, a minus or an at sign.
abbrev pub IsFormula : Str → Type 0
IsFormula [] = ⊥
IsFormula (c ∷ s) =
    ((c ≡ 61) ⊎ (c ≡ 43) ⊎ (c ≡ 45) ⊎ (c ≡ 64)) ⊎ (((c ≤ 32) ⊎ (is_space c ≡ true)) × IsFormula s)

-- A cell that a spreadsheet does not run.
abbrev pub IsInert : Cell → Type 0
IsInert (text_cell s) = ¬ IsFormula s
IsInert (number_cell n) = Unit
IsInert (bool_cell b) = Unit

-- The identifiers, which are written as they are, are no formulas.
pub record AreIdsInert (record1 : ExportRecord) : Type 0 where
  pub document : ¬ IsFormula record1.document_id
  pub run : ¬ IsFormula record1.run_id
  pub approval : ¬ IsFormula (text_of record1.approval_id)

blank_lem : (c : ℕ) → (is_space c || ltb c 32) ≡ false → ((c ≤ 32) ⊎ (is_space c ≡ true)) → ⊥
unfolding is_space
blank_lem c h (inl low) = ground arith
blank_lem c h (inr space) = ground arith

mark_lem :
    (c : ℕ) → ((c ≡ 61) ⊎ (c ≡ 43) ⊎ (c ≡ 45) ⊎ (c ≡ 64)) → (is_space c || ltb c 32) ≡ true → ⊥
unfolding is_space
mark_lem c m h = ground arith

pub starts_formula-IsFormula : (s : Str) → starts_formula s ≡ false → ¬ IsFormula s
unfolding starts_formula
starts_formula-IsFormula [] h f = f
starts_formula-IsFormula (c ∷ s) h (inl m) = elim (Bool-cases (is_space c || ltb c 32)) [
  | inl t ↦ mark_lem c m t
  | inr t ↦ let other = rw t at h in ground arith
]
starts_formula-IsFormula (c ∷ s) h (inr (blank, f)) = elim (Bool-cases (is_space c || ltb c 32)) [
  | inl t ↦ starts_formula-IsFormula s (rw t at h) f
  | inr t ↦ blank_lem c t blank
]

quoted_inert : (s : Str) → starts_formula (b'\'' ∷ s) ≡ false
unfolding starts_formula
quoted_inert s = refl

protected_text-IsInert : (s : Str) → ¬ IsFormula (protected_text s)
unfolding protected_text
protected_text-IsInert s = elim (Bool-cases (starts_formula s)) [
  | inl t ↦ rw (t, protected_text) (starts_formula-IsFormula (b'\'' ∷ s) (quoted_inert s))
  | inr t ↦ rw (t, protected_text) (starts_formula-IsFormula s t)
]

All-append {ℓ} :
    {A : Type ℓ} (P : A → Type 0) (xs ys : List A) → All P xs → All P ys → All P (xs ++ ys)
All-append P [] ys h k = k
All-append P (x ∷ xs) ys h k = (h.0, All-append P xs ys h.1 k)

All-map {ℓ κ} :
    {A : Type ℓ} {B : Type κ} (P : B → Type 0) (f : A → B)
    → ((a : A) → P (f a))
    → (xs : List A) → All P (map f xs)
All-map P f h [] = tt
All-map P f h (x ∷ xs) = (h x, All-map P f h xs)

if_IsInert : (t : Bool) (a b : Cell) → IsInert a → IsInert b → IsInert (if t then a else b)
if_IsInert true a b h k = h
if_IsInert false a b h k = k

module _ (stringify : Json → Str) where
  safe_cell-IsInert : (value : Json) → IsInert (safe_cell stringify value)
  unfolding safe_cell
  safe_cell-IsInert null = λ f. f
  safe_cell-IsInert (number (whole n)) = tt
  safe_cell-IsInert (number (other_number s)) = elim (Bool-cases (is_finite_text s)) [
    | inl t ↦ rw t tt
    | inr t ↦ rw t (protected_text-IsInert s)
  ]
  safe_cell-IsInert (bool b) = tt
  safe_cell-IsInert (string s) = protected_text-IsInert s
  safe_cell-IsInert (array items) = protected_text-IsInert (stringify (array items))
  safe_cell-IsInert (object fields) = protected_text-IsInert (stringify (object fields))

  row_cell-IsInert :
      (record1 : ExportRecord) (item : Json) (column : ExportColumn)
      → AreIdsInert record1
      → IsInert (row_cell stringify record1 item column)
  unfolding row_cell
  row_cell-IsInert record1 item column ids =
      let named = λ (name : Str). str_eq column.source name in
      if_IsInert (named (codes "$filename")) _ _ (safe_cell-IsInert (string record1.filename)) (
        if_IsInert (named (codes "$documentId")) _ _ ids.document (
          if_IsInert (named (codes "$runId")) _ _ ids.run (
            if_IsInert (named (codes "$revision")) _ _ tt (
              if_IsInert (named (codes "$approvalId")) _ _ ids.approval (
                if_IsInert (starts_with column.source (codes "$item.")) _ _
                  (safe_cell-IsInert (get_path item (drop 6 column.source)))
                  (safe_cell-IsInert (get_path (object record1.values) column.source)))))))

  -- The rows of the records, `count` rows in front of them.
  record AreRows (columns : List ExportColumn) (count : ℕ) (rows : List (List Cell)) : Type 0 where
    complete : All (λ row. length row ≡ length columns) rows
    few_rows : count + length rows ≤ 100000
    few_cells : (count + length rows) * length columns ≤ 2000000

  rows_complete :
      (columns : List ExportColumn) (record1 : ExportRecord) (items : List Json)
      → All
          (λ row. length row ≡ length columns)
          (map (λ item. map (row_cell stringify record1 item) columns) items)
  rows_complete columns record1 items =
      All-map (λ row. length row ≡ length columns)
        (λ item. map (row_cell stringify record1 item) columns)
        (λ item. length-map columns (row_cell stringify record1 item)) items

  export_records-AreRows :
      (columns : List ExportColumn) (line_items : Option Str) (count : ℕ)
      (records : List ExportRecord) (rows : List (List Cell))
      → count ≤ 100000
      → count * length columns ≤ 2000000
      → export_records stringify columns line_items count records ≡ ok rows
      → AreRows columns count rows
  unfolding export_records
  export_records-AreRows columns line_items count [] rows small few h =
      ok-Ensures (AreRows columns count) h
        (record { complete = tt; few_rows = ground arith; few_cells = ground arith })
  export_records-AreRows columns line_items count (record1 ∷ records) rows small few h =
      let items = expanded_items line_items record1 in
      let here = map (λ item. map (row_cell stringify record1 item) columns) items in
      let size = length-map items (λ item. map (row_cell stringify record1 item) columns) in
      refuse-ok
        (ltb 100000 (count + length items) || ltb 2000000 ((count + length items) * length columns))
        _ _ h
        λ t h1.
          bind-ok (export_records stringify columns line_items (count + length items) records) _ h1
            λ others e h2.
              let within = or_false _ _ t in
              let rest =
                export_records-AreRows columns line_items (count + length items) records others
                  (not_ltb _ _ within.0) (not_ltb _ _ within.1) e in
              let total : count + length (here ++ others) ≡ count + length items + length others =
                omega (arith, length-append here others, size) in
              ok-Ensures (AreRows columns count) h2 (record {
                complete =
                    All-append (λ row. length row ≡ length columns) here others
                      (rows_complete columns record1 items) rest.complete;
                few_rows = rw total rest.few_rows;
                few_cells = rw total rest.few_cells;
              })

  row-AreInert :
      (columns : List ExportColumn) (record1 : ExportRecord) (items : List Json)
      → AreIdsInert record1
      → All (All IsInert) (map (λ item. map (row_cell stringify record1 item) columns) items)
  row-AreInert columns record1 items ids =
      All-map (All IsInert) (λ item. map (row_cell stringify record1 item) columns)
        (λ item.
          All-map IsInert (row_cell stringify record1 item)
            (λ column. row_cell-IsInert record1 item column ids) columns)
        items

  export_records-AreInert :
      (columns : List ExportColumn) (line_items : Option Str) (count : ℕ)
      (records : List ExportRecord) (rows : List (List Cell))
      → All AreIdsInert records
      → export_records stringify columns line_items count records ≡ ok rows
      → All (All IsInert) rows
  unfolding export_records
  export_records-AreInert columns line_items count [] rows ids h =
      ok-Ensures (All (All IsInert)) h tt
  export_records-AreInert columns line_items count (record1 ∷ records) rows ids h =
      let items = expanded_items line_items record1 in
      let here = map (λ item. map (row_cell stringify record1 item) columns) items in
      refuse-ok
        (ltb 100000 (count + length items) || ltb 2000000 ((count + length items) * length columns))
        _ _ h
        λ t h1.
          bind-ok (export_records stringify columns line_items (count + length items) records) _ h1
            λ others e h2. ok-Ensures (All (All IsInert)) h2 (
              All-append (All IsInert) here others (row-AreInert columns record1 items ids.0) (
                export_records-AreInert columns line_items (count + length items) records others
                  ids.1 e))

  -- A table that is exported has at most 100,000 rows and 2 million cells, and each of its rows
  -- has as many cells as there are headers.
  pub export_rows-AreRows :
      (records : List ExportRecord) (options : ExportOptions) (table : ExportTable)
      → export_rows stringify records options ≡ ok table
      → All (λ row. length row ≡ length table.headers) table.rows
        × (length table.rows ≤ 100000)
        × (length table.rows * length table.headers ≤ 2000000)
  unfolding export_rows
  export_rows-AreRows records options table h =
      let columns = export_columns records options in
      let header = λ (c : ExportColumn). safe_cell stringify (string c.label) in
      bind-ok (export_records stringify columns options.line_items 0 records) _ h λ rows e h1.
        let known =
          export_records-AreRows columns options.line_items 0 records rows (omega arith)
            (omega arith) e in
        let wide : length (map header columns) ≡ length columns = length-map columns header in
        ok-Ensures
          (λ t.
            All (λ row. length row ≡ length t.headers) t.rows
            × (length t.rows ≤ 100000)
            × (length t.rows * length t.headers ≤ 2000000))
          h1
          (
            rw wide known.complete,
            omega (arith, known.few_rows),
            rw wide (omega (arith, known.few_cells)),
          )

  -- Where the identifiers of the records, which are written as they are, are no formulas, no cell
  -- of a table that is exported is: a text that, behind blanks, begins with one of `=`, `+`, `-` and
  -- `@`.
  pub export_rows-AreInert :
      (records : List ExportRecord) (options : ExportOptions) (table : ExportTable)
      → All AreIdsInert records
      → export_rows stringify records options ≡ ok table
      → All IsInert table.headers × All (All IsInert) table.rows
  unfolding export_rows
  export_rows-AreInert records options table ids h =
      let columns = export_columns records options in
      let header = λ (c : ExportColumn). safe_cell stringify (string c.label) in
      bind-ok (export_records stringify columns options.line_items 0 records) _ h λ rows e h1.
        ok-Ensures (λ t. All IsInert t.headers × All (All IsInert) t.rows) h1
          (
            All-map IsInert header (λ c. safe_cell-IsInert (string c.label)) columns,
            export_records-AreInert columns options.line_items 0 records rows ids e,
          )
