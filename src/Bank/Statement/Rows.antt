-- ===== src/Bank/Statement/Rows.antt =====
-- What a row without an error has, and what its round does to the totals.
use maintainflow.Prelude.{
  true, false, not, ◌&&◌, ◌++◌, ◌≡◌, ◌≤◌, inl, inr, refl, arith, Bool-cases, Option-cases, some,
  none,
}
use maintainflow.Prelude.Int.{pos, scale_ℤ, is_zero_ℤ}
use maintainflow.Bank.Types.{
  BankScalar, BankAccount, BankTransaction, BankContext, warning, IssueCode, IssueField,
}
use maintainflow.Bank.Decimal.{Exact, exact, zero_exact}
use maintainflow.Bank.Decimal.Value.{value}
use maintainflow.Bank.Decimal.RoundTrip.{exact-IsMoney}
use maintainflow.Bank.Identity.{Platform, text}
use maintainflow.Bank.Date.{iso_date}
use maintainflow.Bank.Amounts.{
  RowAmounts, row_amounts, pair_amounts, exact_or_zero, is_some, scalar_eq, holds,
}
use maintainflow.Bank.Check.Row.{
  RowState, is_nonzero, is_bad_amount, add_row, row_issues, row_date_issues, row_currency_issues,
  row_amount_issues, running_mismatch, row_evidence_issues, when, row_issue,
}
use maintainflow.Bank.Statement.Errors.{has_error, clean-append}
use maintainflow.Bank.Statement.Books.{amount_value}

-- The amounts that a row is totalled with are those that it states.
abbrev pub AreStated : BankScalar → BankScalar → RowAmounts → Type 0
AreStated d c a =
    (value a.debit ≡ amount_value d)
    × (value a.credit ≡ amount_value c)
    × (a.debit.scale ≤ 8)
    × (a.credit.scale ≤ 8)

pub value-zero : value zero_exact ≡ pos 0
unfolding value scale_ℤ
value-zero = refl

exact_or_zero-none :
    (e : Exact) × (exact_or_zero none ≡ some e)
    × (value e ≡ amount_value none)
    × (e.scale ≤ 8)
    × (is_zero_ℤ e.units ≡ not (is_nonzero none))
unfolding exact_or_zero exact value scale_ℤ
exact_or_zero-none = (zero_exact, refl, refl, omega arith, refl)

exact_or_zero-value :
    (v : BankScalar)
    → is_bad_amount v ≡ false
    → (e : Exact) × (exact_or_zero v ≡ some e)
      × (value e ≡ amount_value v)
      × (e.scale ≤ 8)
      × (is_zero_ℤ e.units ≡ not (is_nonzero v))
unfolding exact_or_zero is_some
exact_or_zero-value none h = exact_or_zero-none
exact_or_zero-value (some v) h = elim (Option-cases (exact (some v))) [
  | inl e ↦ ground arith
  | inr (x, e) ↦ (x, e, ground arith, (exact-IsMoney v x e).scale_bound, ground arith)
]

row_amounts-stated :
    (row : BankTransaction)
    → is_bad_amount row.debit ≡ false
    → is_bad_amount row.credit ≡ false
    → (not (is_some row.debit) && not (is_some row.credit)) ≡ false
    → (is_nonzero row.debit && is_nonzero row.credit) ≡ false
    → (a : RowAmounts) × (row_amounts row ≡ some a) × AreStated row.debit row.credit a
unfolding row_amounts pair_amounts
row_amounts-stated row bd bc one both =
    let (d, ed, vd, sd, zd) = exact_or_zero-value row.debit bd in
    let (c, ec, vc, sc, zc) = exact_or_zero-value row.credit bc in
    (record { debit = d; credit = c }, rw (ed, ec, one, zd, zc) (ground arith), (vd, vc, sd, sc))

-- A row without an error.
pub record IsClean (host : Platform) (account : BankAccount) (row : BankTransaction) (st : RowState)
    : Type 0 where
  pub dated : holds iso_date row.date ≡ true
  pub in_currency : scalar_eq row.currency account.currency ≡ true
  pub amounts : (a : RowAmounts) × (row_amounts row ≡ some a) × AreStated row.debit row.credit a
  pub balance : is_bad_amount row.balance ≡ false
  pub matches :
      has_error (
        running_mismatch host account row (exact row.balance) (add_row host account row st).running)
      ≡ false

row_date_issues-clean :
    (host : Platform) (account : BankAccount) (row : BankTransaction)
    → has_error (row_date_issues host account row) ≡ false
    → holds iso_date row.date ≡ true
unfolding row_date_issues
row_date_issues-clean host account row h = elim (Bool-cases (holds iso_date row.date)) [
  | inl e ↦ e
  | inr e ↦ ground arith
]

row_currency_issues-clean :
    (host : Platform) (account : BankAccount) (row : BankTransaction)
    → has_error (row_currency_issues host account row) ≡ false
    → scalar_eq row.currency account.currency ≡ true
unfolding row_currency_issues
row_currency_issues-clean host account row h =
    elim (Bool-cases (scalar_eq row.currency account.currency)) [ inl e ↦ e | inr e ↦ ground arith ]

row_amount_issues-clean :
    (account : BankAccount) (row : BankTransaction)
    → has_error (row_amount_issues account row) ≡ false
    → (is_bad_amount row.debit ≡ false)
      × (is_bad_amount row.credit ≡ false)
      × (is_bad_amount row.balance ≡ false)
      × ((not (is_some row.debit) && not (is_some row.credit)) ≡ false)
      × ((is_nonzero row.debit && is_nonzero row.credit) ≡ false)
unfolding row_amount_issues
row_amount_issues-clean account row h = ground arith

pub row_issues-IsClean :
    (host : Platform) (context : BankContext) (account : BankAccount) (row : BankTransaction)
    (st : RowState)
    → has_error (row_issues host context account row st) ≡ false
    → IsClean host account row st
unfolding row_issues
row_issues-IsClean host context account row st h =
    let date = row_date_issues host account row in
    let words = when (not (is_some (text row.description)) && not (is_some (text row.reference))) (
      row_issue account row IssueCode.transaction_description_missing warning
        (some IssueField.description) none) in
    let currency = row_currency_issues host account row in
    let amount = row_amount_issues account row in
    let balance =
      running_mismatch host account row (exact row.balance) (add_row host account row st).running in
    let (h1, _) =
      clean-append (date ++ words ++ currency ++ amount ++ balance)
        (row_evidence_issues context account row) h in
    let (h2, m) = clean-append (date ++ words ++ currency ++ amount) balance h1 in
    let (h3, a) = clean-append (date ++ words ++ currency) amount h2 in
    let (h4, c) = clean-append (date ++ words) currency h3 in
    let (d, _) = clean-append date words h4 in
    let (bd, bc, bb, one, both) = row_amount_issues-clean account row a in
    record {
      dated = row_date_issues-clean host account row d;
      in_currency = row_currency_issues-clean host account row c;
      amounts = row_amounts-stated row bd bc one both;
      balance = bb;
      matches = m;
    }
