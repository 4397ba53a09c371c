-- ===== src/Export.antt =====
-- The export of approved values: server/integrations/export-format.ts. `JSON.stringify` is a
-- parameter.
pub mod Table
pub mod Text
pub mod Read
pub mod RoundTrip
mod Examples
use maintainflow.Prelude.{
  ℕ, ◌+◌, ◌*◌, Bool, true, false, not, ◌&&◌, ◌||◌, List, [], ◌∷◌, ◌++◌, map, Option, some, none,
  Result, ok, err, ◌>>=◌, ◌>>◌, refuse, ltb, leb, ◌==◌, if◌then◌else◌, length, get_elem?, drop,
}
use maintainflow.Prelude.Json.{
  Num, whole, other_number, Json, string, array, object, Items, Fields, no_fields, field, null,
  bool, number, lookup, list_of_items,
}
use maintainflow.Prelude.Text.{
  Str, is_listed, first_of_each, codes, str_eq, is_space, split, starts_with, only_digits,
  digits_value,
}

pub data Cell : Type 0 where
  text_cell : Str → Cell
  number_cell : Num → Cell
  bool_cell : Bool → Cell

-- `source` and `label` of a column.
pub record ExportColumn : Type 0 where
  pub source : Str
  pub label : Str

pub record ExportOptions : Type 0 where
  pub columns : Option (List ExportColumn)
  pub line_items : Option Str

pub record ExportRecord : Type 0 where
  pub document_id : Str
  pub filename : Str
  pub run_id : Str
  pub revision : ℕ
  pub approval_id : Option Str
  pub values : Fields

abbrev is_formula_mark : ℕ → Bool
is_formula_mark c = c == b'=' || c == b'+' || c == b'@' || c == b'-'

-- `/^[\s\u0000-\u001f]*[=+@-]/u`
unfoldable pub starts_formula : Str → Bool
unfolding is_space
starts_formula [] = false
starts_formula (c ∷ s) =
    let rest = starts_formula s in if is_space c || ltb c 32 then rest else is_formula_mark c

-- The text of a cell, behind a quote where a spreadsheet would run it.
unfoldable pub protected_text : Str → Str
unfolding starts_formula
protected_text text = if starts_formula text then b'\'' ∷ text else text

-- The index that a text writes, without leading zeros.
unfoldable pub array_index : Str → Option ℕ
unfolding only_digits digits_value
array_index [] = none
array_index (c ∷ s) =
    if only_digits (c ∷ s) && (not (c == b'0') || length s == 0)
    then some (digits_value (c ∷ s) 0)
    else none

-- `current && typeof current === 'object' && Object.hasOwn(current, key) ? current[key] : null`.
unfoldable pub own_property : Json → Str → Json
unfolding lookup array_index
own_property (object fields) key = elim (lookup key fields) [ none ↦ null | some value ↦ value ]
own_property (array items) key =
    let list = list_of_items items in
    if str_eq key (codes "length") then number (whole (length list)) else elim (array_index key) [
      | none ↦ null
      | some i ↦ elim (get_elem? list i) [ none ↦ null | some value ↦ value ]
    ]
own_property _ key = null

unfoldable pub follow : Json → List Str → Json
unfolding own_property
follow value [] = value
follow value (key ∷ keys) = follow (own_property value key) keys

unfoldable pub get_path : Json → Str → Json
unfolding follow split
get_path value path = follow value (split b'.' path)

abbrev is_excluded : Str → Option Str → Bool
is_excluded prefix none = false
is_excluded prefix (some path) = str_eq prefix path

-- `prefix ? `${prefix}.${key}` : key`.
abbrev join_path : Str → Str → Str
join_path [] key = key
join_path (c ∷ s) key = (c ∷ s) ++ b'.' ∷ key

abbrev leaf : Str → List Str
leaf [] = []
leaf (c ∷ s) = (c ∷ s) ∷ []

unfoldable mutual
  pub leaf_paths : Json → Str → Option Str → List Str
  leaf_paths (object fields) prefix exclude =
      let inside = paths_of_fields fields prefix exclude in
      if is_excluded prefix exclude then [] else inside
  leaf_paths _ prefix exclude = if is_excluded prefix exclude then [] else leaf prefix

  pub paths_of_fields : Fields → Str → Option Str → List Str
  paths_of_fields no_fields prefix exclude = []
  paths_of_fields (field key value rest) prefix exclude =
      leaf_paths value (join_path prefix key) exclude ++ paths_of_fields rest prefix exclude

abbrev pub flat_map {ℓ κ} : {A : Type ℓ} {B : Type κ} → (A → List B) → List A → List B
flat_map f [] = []
flat_map f (x ∷ xs) = f x ++ flat_map f xs

-- The items of a record, where the options name line items and the path leads to an array.
unfoldable pub line_items_of : Option Str → ExportRecord → List Json
unfolding get_path
line_items_of none record1 = []
line_items_of (some []) record1 = []
line_items_of (some (c ∷ s)) record1 = elim (get_path (object record1.values) (c ∷ s)) [
  | array items ↦ list_of_items items
  | _ ↦ []
]

-- The rows that a record takes: one for each item, or one.
unfoldable pub expanded_items : Option Str → ExportRecord → List Json
unfolding line_items_of
expanded_items line_items record1 = elim (line_items_of line_items record1) [
  | [] ↦ null ∷ []
  | item ∷ items ↦ item ∷ items
]

abbrev text_of : Option Str → Str
text_of none = []
text_of (some s) = s

unfoldable pub export_columns : List ExportRecord → ExportOptions → List ExportColumn
unfolding leaf_paths first_of_each line_items_of
export_columns records options =
    let sources =
      first_of_each []
        (flat_map (λ r. leaf_paths (object r.values) [] options.line_items) records) in
    let item_paths = first_of_each [] (
      flat_map (λ r. flat_map (λ i. leaf_paths i [] none) (line_items_of options.line_items r))
        records) in
    let found =
      map (λ s. record { source = s; label = s }) sources
      ++ map
          (λ s. record {
            source = codes "$item." ++ s;
            label = text_of options.line_items ++ b'.' ∷ s;
          })
          item_paths in
    elim options.columns [ none ↦ found | some [] ↦ found | some (c ∷ cs) ↦ c ∷ cs ]

-- The export is refused with status 413.
pub data ExportRefusal : Type 0 where
  too_large : ExportRefusal

pub record ExportTable : Type 0 where
  pub headers : List Cell
  pub rows : List (List Cell)

-- `Number.isFinite`, by the text of a number that is not whole or not positive.
abbrev pub is_finite_text : Str → Bool
is_finite_text s =
    not (str_eq s (codes "Infinity") || str_eq s (codes "-Infinity") || str_eq s (codes "NaN"))

module _ (stringify : Json → Str) where
  -- `safeCell` of a value that is there.
  unfoldable pub safe_cell : Json → Cell
  unfolding protected_text
  safe_cell null = text_cell []
  safe_cell (number (whole n)) = number_cell (whole n)
  safe_cell (number (other_number s)) =
      if is_finite_text s then number_cell (other_number s) else text_cell (protected_text s)
  safe_cell (bool b) = bool_cell b
  safe_cell (string s) = text_cell (protected_text s)
  safe_cell value = text_cell (protected_text (stringify value))

  unfoldable pub row_cell : ExportRecord → Json → ExportColumn → Cell
  unfolding safe_cell starts_with get_path
  row_cell record1 item column =
      if str_eq column.source (codes "$filename")
      then safe_cell (string record1.filename)
      else if str_eq column.source (codes "$documentId")
      then text_cell record1.document_id
      else if str_eq column.source (codes "$runId")
      then text_cell record1.run_id
      else if str_eq column.source (codes "$revision")
      then number_cell (whole record1.revision)
      else if str_eq column.source (codes "$approvalId")
      then text_cell (text_of record1.approval_id)
      else if starts_with column.source (codes "$item.")
      then safe_cell (get_path item (drop 6 column.source))
      else safe_cell (get_path (object record1.values) column.source)

  -- The loop over the records, with the number of rows so far.
  unfoldable pub export_records :
      List ExportColumn
      → Option Str
      → ℕ
      → List ExportRecord
      → Result ExportRefusal (List (List Cell))
  unfolding expanded_items row_cell
  export_records columns line_items count [] = ok []
  export_records columns line_items count (record1 ∷ records) =
      let expanded = expanded_items line_items record1 in
      let rest = export_records columns line_items (count + length expanded) records in
      do
        refuse
            (ltb 100000 (count + length expanded)
              || ltb 2000000 ((count + length expanded) * length columns))
            too_large
        rows ← rest
        ok (map (λ item. map (row_cell record1 item) columns) expanded ++ rows)

  unfoldable pub export_rows : List ExportRecord → ExportOptions → Result ExportRefusal ExportTable
  unfolding export_columns export_records safe_cell
  export_rows records options = do
    let columns = export_columns records options
    rows ← export_records columns options.line_items 0 records
    ok (record { headers = map (λ c. safe_cell (string c.label)) columns; rows = rows })
