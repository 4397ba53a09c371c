-- ===== src/Bank/Check.antt =====
-- `checkBankStatement` of server/core/bank-statement-domain.ts, on values that have been parsed and
-- bound to their context. Each list of issues is in the order of the source.
pub mod Row
use mathlib.Core.List.{filter}
use maintainflow.Prelude.{
  Bool, true, false, not, ◌&&◌, ◌||◌, List, [], ◌∷◌, ◌++◌, Option, some, none, if◌then◌else◌,
}
use maintainflow.Prelude.Text.{Str, str_eq}
use maintainflow.Bank.Types.{
  BankScalar, BankAccount, BankTransaction, BankValues, BankContext, BankIssue, AccountSource,
  FormatStatus, missing, supported, unresolved, Movement, unresolved_movement, BankAccountFormats,
  error, warning, IssueCode, IssueField,
}
use maintainflow.Bank.Decimal.{Exact, exact, add, negate, same, zero_exact}
use maintainflow.Bank.Decimal.Print.{decimal}
use maintainflow.Bank.Date.{iso_date}
use maintainflow.Bank.Identity.{Platform, text, account_identity}
use maintainflow.Bank.Amounts.{is_some, holds}
use Row.{
  when, account_issue, is_known, directed, RowState, after, is_negative, is_bad_amount,
  period_valid, check_rows,
}

abbrev pub is_unresolved : FormatStatus → Bool
is_unresolved unresolved = true
is_unresolved _ = false

abbrev pub is_unresolved_movement : Movement → Bool
is_unresolved_movement unresolved_movement = true
is_unresolved_movement _ = false

-- `context.accounts[account.id]?.formats`.
unfoldable pub formats_of : Str → List (Str × AccountSource) → Option BankAccountFormats
formats_of id [] = none
formats_of id ((key, source) ∷ rest) = if str_eq key id then source.formats else formats_of id rest

unfoldable pub format_issues : BankAccount → Option BankAccountFormats → List BankIssue
format_issues account none = []
format_issues account (some f) =
    when (is_unresolved f.date_status)
      (account_issue account IssueCode.date_format_unresolved warning none none)
    ++ when (is_unresolved f.number_status)
        (account_issue account IssueCode.amount_format_unresolved warning none none)
    ++ when (is_unresolved_movement f.movement)
        (account_issue account IssueCode.movement_convention_unresolved warning none none)

-- `!value`, then `!isoDate(value)`.
unfoldable pub boundary_issues : BankAccount → IssueField → BankScalar → List BankIssue
boundary_issues account field none =
    account_issue account IssueCode.statement_period_missing warning (some field) none ∷ []
boundary_issues account field (some []) =
    account_issue account IssueCode.statement_period_missing warning (some field) none ∷ []
boundary_issues account field (some (c ∷ s)) =
    when (not (iso_date (c ∷ s)))
      (account_issue account IssueCode.date_invalid error (some field) none)

unfoldable pub stated_issues :
    BankAccount → IssueCode → Bool → IssueField → BankScalar → List BankIssue
stated_issues account absent signed field value =
    (if not (is_some value)
      then account_issue account absent warning (some field) none ∷ []
      else when (is_bad_amount value)
          (account_issue account IssueCode.amount_invalid error (some field) none))
    ++ when (signed && is_negative value)
        (account_issue account IssueCode.signed_column_amount warning (some field) none)

unfoldable pub money_issues : BankAccount → List BankIssue
unfolding stated_issues
money_issues account =
    stated_issues account IssueCode.statement_balance_missing false IssueField.opening_balance
      account.opening_balance
    ++ stated_issues account IssueCode.statement_balance_missing false IssueField.closing_balance
        account.closing_balance
    ++ stated_issues account IssueCode.statement_total_missing true IssueField.total_debits
        account.total_debits
    ++ stated_issues account IssueCode.statement_total_missing true IssueField.total_credits
        account.total_credits

unfoldable pub active_rows : List BankTransaction → List BankTransaction
active_rows [] = []
active_rows (row ∷ rows) = let rest = active_rows rows in if row.excluded then rest else row ∷ rest

unfoldable pub start_state : BankAccount → RowState
start_state account = record {
  sum_debit = zero_exact;
  sum_credit = zero_exact;
  can_total = true;
  running = exact account.opening_balance;
  last_provided = none;
  missing_running = false;
}

unfoldable pub total_issue : BankAccount → IssueField → BankScalar → Exact → List BankIssue
total_issue account field stated sum = elim (exact stated) [
  | none ↦ []
  | some t ↦ when (not (same t sum)) (
      account_issue account IssueCode.statement_total_mismatch error (some field)
        (some (decimal sum)))
]

unfoldable pub expected_closing : BankAccount → RowState → Exact → Exact
expected_closing account st opening =
    add opening (directed account.balance_convention (add st.sum_credit (negate st.sum_debit)))

unfoldable pub closing_issue : BankAccount → RowState → List BankIssue
unfolding expected_closing
closing_issue account st = elim (exact account.opening_balance) [
  | none ↦ []
  | some opening ↦ elim (exact account.closing_balance) [
    | none ↦ []
    | some closing ↦
        when
          (is_known account.balance_convention
            && not (same (expected_closing account st opening) closing))
          (account_issue account IssueCode.closing_balance_mismatch error
            (some IssueField.closing_balance)
            (some (decimal (expected_closing account st opening))))
  ]
]

unfoldable pub last_balance_issue : BankAccount → RowState → List BankIssue
last_balance_issue account st = elim st.last_provided [
  | none ↦ []
  | some last ↦ elim (exact account.closing_balance) [
    | none ↦ []
    | some closing ↦ when (not (same last closing)) (
        account_issue account IssueCode.closing_running_balance_mismatch error
          (some IssueField.closing_balance) none)
  ]
]

-- What is raised behind the loop over the rows.
unfoldable pub closing_issues : BankAccount → RowState → List BankIssue
unfolding total_issue closing_issue last_balance_issue
closing_issues account st =
    when st.missing_running (
      account_issue account IssueCode.running_balances_incomplete warning
        (some IssueField.transactions) none)
    ++ (if st.can_total
        then total_issue account IssueField.total_debits account.total_debits st.sum_debit
          ++ total_issue account IssueField.total_credits account.total_credits st.sum_credit
          ++ closing_issue account st
        else [])
    ++ last_balance_issue account st
    ++ account_issue account IssueCode.source_review_required warning none none ∷ []
