-- ===== src/Csv/Read.antt =====
-- What the loop over the cells does with one quoted cell of a longer text, and the token of a
-- cell among the tokens that are read.
use maintainflow.Csv.Quote.{quote, escape, csv_quote, unescape, take_quoted}
use maintainflow.Csv.{
  Quoted, set_token, Cells, ends_cell, quoted_cell, scan_cell, was_decoded, drop_decoded,
  cell_limit,
}
use maintainflow.Csv.RoundTrip.{unescape-escape}
use maintainflow.Csv.Values.{token_value}
use maintainflow.Prelude.{
  ◌+◌, ◌<◌, ◌≡◌, true, false, [], ◌∷◌, ◌++◌, List, some, ltb, ok, refl, ap, sym, ◌∙◌, arith,
  Bool-cases, inl, inr, ◌==◌,
}
use maintainflow.Prelude.Text.{Str, str_eq, str_eq_iff}

take_quoted-behind :
    (v rest : Str)
    → ends_cell rest ≡ true
    → take_quoted false (escape v ++ quote ∷ rest) ≡ some (escape v, rest)
unfolding take_quoted escape ends_cell
take_quoted-behind [] [] h = refl
take_quoted-behind [] (c ∷ rest) h = ground arith
take_quoted-behind (c ∷ v) rest h = elim (Bool-cases (c == quote)) [
  | inl e ↦ ground (arith, take_quoted-behind v rest h)
  | inr e ↦ ground (arith, take_quoted-behind v rest h)
]

-- The state behind a cell that was written for `v`.
abbrev pub read_cell : Cells → Str → Cells
read_cell st v = record {
  cells = st.cells + 1;
  quoted = set_token st.quoted (csv_quote v) v;
  decoded = v ∷ st.decoded;
}

-- A cell that is written for a value is read as that value, with a separator or the end behind it.
pub scan_cell-csv_quote :
    (st : Cells) (v rest : Str)
    → st.cells < cell_limit
    → ends_cell rest ≡ true
    → scan_cell st quote (escape v ++ quote ∷ rest) ≡ ok (read_cell st v, rest)
unfolding scan_cell quoted_cell csv_quote
scan_cell-csv_quote st v rest few h =
    let within : ltb cell_limit (st.cells + 1) ≡ false = ground arith in
    rw (within, take_quoted-behind v rest h, quoted_cell, unescape-escape v, h) refl

csv_quote-inj : (v w : Str) → csv_quote v ≡ csv_quote w → v ≡ w
unfolding csv_quote ends_cell
csv_quote-inj v w h =
    let behind : escape v ++ quote ∷ [] ≡ escape w ++ quote ∷ [] = cc in
    let read = ap (take_quoted false) behind in
    let read_v = take_quoted-behind v [] refl in
    let read_w = take_quoted-behind w [] refl in
    let same : escape v ≡ escape w = cc in
    sym (unescape-escape v) ∙ ap (unescape false) same ∙ unescape-escape w

pub token_value-set_token :
    (m : Quoted) (v w : Str)
    → token_value m (csv_quote v) ≡ some v
    → token_value (set_token m (csv_quote w) w) (csv_quote v) ≡ some v
unfolding token_value set_token
token_value-set_token [] v w h = cc
token_value-set_token ((k, x) ∷ m) v w h =
    let key = str_eq_iff k (csv_quote v) in
    let set = str_eq_iff k (csv_quote w) in
    elim (Bool-cases (str_eq k (csv_quote w))) [
      | inl e ↦ elim (Bool-cases (str_eq k (csv_quote v))) [
        | inl t ↦ rw (e, t, token_value) (ap some (csv_quote-inj w v (sym (set.0 e) ∙ key.0 t)))
        | inr t ↦ rw (e, t, token_value) (rw t at h)
      ]
      | inr e ↦ elim (Bool-cases (str_eq k (csv_quote v))) [
        | inl t ↦ rw (e, t, token_value) (rw t at h)
        | inr t ↦ rw (e, t, token_value) (token_value-set_token m v w (rw t at h))
      ]
    ]

pub token_value-set_same :
    (m : Quoted) (token v : Str) → token_value (set_token m token v) token ≡ some v
unfolding token_value set_token
token_value-set_same [] token v = rw ((str_eq_iff token token).1 refl) refl
token_value-set_same ((k, x) ∷ m) token v = elim (Bool-cases (str_eq k token)) [
  | inl e ↦ rw (e, token_value, e) refl
  | inr e ↦ rw (e, token_value, e) (token_value-set_same m token v)
]

pub token_value-drop_decoded :
    (decoded : List Str) (m : Quoted) (token : Str)
    → was_decoded token decoded ≡ false
    → token_value (drop_decoded decoded m) token ≡ token_value m token
unfolding token_value drop_decoded
token_value-drop_decoded decoded [] token h = refl
token_value-drop_decoded decoded ((k, v) ∷ m) token h = elim (Bool-cases (was_decoded k decoded)) [
  | inl e ↦ elim (Bool-cases (str_eq k token)) [
    | inl t ↦ let same = (str_eq_iff k token).0 t in let kept = rw same at e in cc
    | inr t ↦ rw (e, t) (token_value-drop_decoded decoded m token h)
  ]
  | inr e ↦ rw (e, token_value, token_value-drop_decoded decoded m token h) refl
]
