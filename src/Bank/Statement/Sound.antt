-- ===== src/Bank/Statement/Sound.antt =====
-- The loop over rows without an error: the totals, and the balances that the rows state.
use maintainflow.Prelude.{true, false, List, [], ◌∷◌, ◌≡◌, ◌≤◌, ◌∙◌, some}
use maintainflow.Prelude.Int.{ℤ, ◌+ℤ◌, int_laws}
use maintainflow.Bank.Types.{BankAccount, BankTransaction, BankContext}
use maintainflow.Bank.Decimal.{Exact}
use maintainflow.Bank.Decimal.Value.{value, value-add, scale-add}
use maintainflow.Bank.Identity.{Platform}
use maintainflow.Bank.Amounts.{holds}
use maintainflow.Bank.Check.Row.{is_known, RowState, row_step, row_issues, check_rows}
use maintainflow.Bank.Statement.Errors.{has_error, clean-append}
use maintainflow.Bank.Statement.Books.{
  amount_value, total_debit, total_credit, Follows, IsResolved, AllResolved,
}
use maintainflow.Bank.Statement.Rows.{IsClean, row_issues-IsClean}
use maintainflow.Bank.Statement.Steps.{row_step-totals, row_step-running}

IsClean-IsResolved :
    (host : Platform) (account : BankAccount) (row : BankTransaction) (st : RowState)
    → IsClean host account row st
    → IsResolved host account row
IsClean-IsResolved host account row st c = record {
  dated = c.dated;
  in_currency = c.in_currency;
  amounts = (c.amounts.0, c.amounts.1);
}

module _ (host : Platform) (context : BankContext) (account : BankAccount)
    (known : holds host.is_currency account.currency ≡ true) where
  -- What the loop has found when it began with the totals `d` and `c`.
  pub record Totals (rows : List BankTransaction) (d c : ℤ) (final : RowState) : Type 0 where
    pub resolved : AllResolved host account rows
    pub can_total : final.can_total ≡ true
    pub debit : value final.sum_debit ≡ d +ℤ total_debit rows
    pub credit : value final.sum_credit ≡ c +ℤ total_credit rows
    pub debit_scale : final.sum_debit.scale ≤ 8
    pub credit_scale : final.sum_credit.scale ≤ 8

  pub check_rows-Totals :
      (rows : List BankTransaction) (st : RowState)
      → has_error (check_rows host context account rows st).0 ≡ false
      → st.can_total ≡ true
      → st.sum_debit.scale ≤ 8
      → st.sum_credit.scale ≤ 8
      → Totals rows
          (value st.sum_debit)
          (value st.sum_credit)
          (check_rows host context account rows st).1
  unfolding check_rows
  check_rows-Totals [] st h t sd sc = record {
    resolved = tt;
    can_total = t;
    debit = omega int_laws;
    credit = omega int_laws;
    debit_scale = sd;
    credit_scale = sc;
  }
  check_rows-Totals (row ∷ rows) st h t sd sc =
      let next = row_step host account row st in
      let (now, later) =
        clean-append (row_issues host context account row st)
          (check_rows host context account rows next).0 h in
      let clean = row_issues-IsClean host context account row st now in
      let (a, f, stated) = clean.amounts in
      let (vd, vc, ad, ac) = stated in
      let (ct, ed, ec) = row_step-totals host account row st clean known in
      let ih =
        check_rows-Totals rows next later (ct ∙ t) (rw ed (scale-add st.sum_debit a.debit sd ad))
          (rw ec (scale-add st.sum_credit a.credit sc ac)) in
      let nd : value next.sum_debit ≡ value st.sum_debit +ℤ amount_value row.debit =
        rw ed (value-add st.sum_debit a.debit sd ad ∙ rw vd) in
      let nc : value next.sum_credit ≡ value st.sum_credit +ℤ amount_value row.credit =
        rw ec (value-add st.sum_credit a.credit sc ac ∙ rw vc) in
      record {
        resolved = (IsClean-IsResolved host account row st clean, ih.resolved);
        can_total = ih.can_total;
        debit = ih.debit ∙ rw nd (omega int_laws);
        credit = ih.credit ∙ rw nc (omega int_laws);
        debit_scale = ih.debit_scale;
        credit_scale = ih.credit_scale;
      }

  pub check_rows-Follows :
      (rows : List BankTransaction) (st : RowState) (r : Exact)
      → has_error (check_rows host context account rows st).0 ≡ false
      → st.running ≡ some r
      → r.scale ≤ 8
      → is_known account.balance_convention ≡ true
      → Follows account.balance_convention (value r) rows
  unfolding check_rows
  check_rows-Follows [] st r h e few k = tt
  check_rows-Follows (row ∷ rows) st r h e few k =
      let next = row_step host account row st in
      let (now, later) =
        clean-append (row_issues host context account row st)
          (check_rows host context account rows next).0 h in
      let clean = row_issues-IsClean host context account row st now in
      let (stated, n, run, few_n, vn) =
        row_step-running host account row st clean known r e few k in
      (stated, rw vn at (check_rows-Follows rows next n later run few_n k))
