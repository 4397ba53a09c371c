-- ===== src/Bank/Check/Row.antt =====
-- One row of `checkBankStatement` of server/core/bank-statement-domain.ts: what the loop carries, and
-- the issues that a row raises, in the order of the source.
use maintainflow.Prelude.{
  ℕ, Bool, true, false, not, ◌&&◌, ◌||◌, List, [], ◌∷◌, ◌++◌, Option, some, none, if◌then◌else◌,
}
use maintainflow.Prelude.Int.{is_zero_ℤ, is_neg_ℤ}
use maintainflow.Prelude.Text.{Str, str_eq, str_ltb}
use maintainflow.Bank.Types.{
  BankScalar, BankAccount, BankTransaction, BankContext, BankIssue, BankBalanceConvention,
  credit_increases, unknown, Origin, extracted, user, TransactionSource, Severity, error, warning,
  IssueCode, IssueField,
}
use maintainflow.Bank.Decimal.{Exact, exact, add, negate, same}
use maintainflow.Bank.Decimal.Print.{decimal}
use maintainflow.Bank.Date.{iso_date}
use maintainflow.Bank.Identity.{Platform, text}
use maintainflow.Bank.Amounts.{RowAmounts, row_amounts, is_some, scalar_eq, holds}

abbrev pub when : Bool → BankIssue → List BankIssue
when true i = i ∷ []
when false i = []

-- `accountIssue` and `rowIssue`.
abbrev pub account_issue :
    BankAccount → IssueCode → Severity → Option IssueField → BankScalar → BankIssue
account_issue account code severity field detail = record {
  code = code;
  severity = severity;
  account_id = some account.id;
  transaction_id = none;
  field = field;
  detail = detail;
  related_document_ids = [];
}

abbrev pub row_issue :
    BankAccount
    → BankTransaction
    → IssueCode
    → Severity
    → Option IssueField
    → BankScalar
    → BankIssue
row_issue account row code severity field detail = record {
  code = code;
  severity = severity;
  account_id = some account.id;
  transaction_id = some row.id;
  field = field;
  detail = detail;
  related_document_ids = [];
}

abbrev pub is_known : BankBalanceConvention → Bool
is_known unknown = false
is_known _ = true

-- `balance_convention === 'credit_increases' ? delta : negate(delta)`.
abbrev pub directed : BankBalanceConvention → Exact → Exact
directed credit_increases delta = delta
directed _ delta = negate delta

-- What the loop over the rows carries.
pub record RowState : Type 0 where
  pub sum_debit : Exact
  pub sum_credit : Exact
  pub can_total : Bool
  pub running : Option Exact
  pub last_provided : Option Exact
  pub missing_running : Bool

-- `start > end`.
abbrev pub after : BankScalar → BankScalar → Bool
after (some a) (some b) = str_ltb b a
after _ _ = false

abbrev pub is_negative : BankScalar → Bool
is_negative v = elim (exact v) [ none ↦ false | some e ↦ is_neg_ℤ e.units ]

abbrev pub is_nonzero : BankScalar → Bool
is_nonzero v = elim (exact v) [ none ↦ false | some e ↦ not (is_zero_ℤ e.units) ]

-- A text that stands for no amount.
abbrev pub is_bad_amount : BankScalar → Bool
is_bad_amount none = false
is_bad_amount (some v) = not (is_some (exact (some v)))

abbrev pub both_zero : Option RowAmounts → Bool
both_zero none = false
both_zero (some a) = is_zero_ℤ a.debit.units && is_zero_ℤ a.credit.units

abbrev pub period_valid : BankAccount → Bool
period_valid account =
    holds iso_date account.statement_start && holds iso_date account.statement_end

-- The expected balance behind a row, where one is known.
unfoldable pub advance_running : BankBalanceConvention → RowAmounts → Option Exact → Option Exact
advance_running convention amounts none = none
advance_running unknown amounts (some r) = some r
advance_running convention amounts (some r) =
    some (add r (directed convention (add amounts.credit (negate amounts.debit))))

abbrev pub amount_issue :
    BankAccount → BankTransaction → IssueCode → Severity → IssueField → BankIssue
amount_issue account row code severity field = row_issue account row code severity (some field) none

abbrev pub is_extracted : Origin → Bool
is_extracted extracted = true
is_extracted user = false

unfoldable pub row_amount_issues : BankAccount → BankTransaction → List BankIssue
row_amount_issues account row =
    when (is_bad_amount row.debit)
      (amount_issue account row IssueCode.amount_invalid error IssueField.debit)
    ++ when (is_negative row.debit)
        (amount_issue account row IssueCode.signed_column_amount warning IssueField.debit)
    ++ when (is_bad_amount row.credit)
        (amount_issue account row IssueCode.amount_invalid error IssueField.credit)
    ++ when (is_negative row.credit)
        (amount_issue account row IssueCode.signed_column_amount warning IssueField.credit)
    ++ when (is_bad_amount row.balance)
        (amount_issue account row IssueCode.amount_invalid error IssueField.balance)
    ++ (if not (is_some row.debit) && not (is_some row.credit)
        then amount_issue account row IssueCode.transaction_amount_missing error IssueField.debit
          ∷ []
        else when (is_nonzero row.debit && is_nonzero row.credit) (
            amount_issue account row IssueCode.transaction_direction_ambiguous error
              IssueField.debit))
    ++ when (both_zero (row_amounts row))
        (amount_issue account row IssueCode.zero_value_transaction warning IssueField.debit)

abbrev pub some_page : List ℕ → Bool
some_page [] = false
some_page (_ ∷ _) = true

-- `context.transactions[row.id]?.sourcePages.length`.
unfoldable pub has_pages : Str → List (Str × TransactionSource) → Bool
has_pages id [] = false
has_pages id ((key, source) ∷ rest) =
    if str_eq key id then some_page source.source_pages else has_pages id rest

unfoldable pub row_evidence_issues : BankContext → BankAccount → BankTransaction → List BankIssue
unfolding has_pages
row_evidence_issues context account row =
    when (is_extracted row.origin && not (has_pages row.id context.transactions))
      (row_issue account row IssueCode.source_evidence_missing warning none none)

module _ (host : Platform) where
  open host use {is_currency}

  abbrev pub same_currency : BankAccount → BankTransaction → Bool
  same_currency account row =
      holds is_currency account.currency && scalar_eq row.currency account.currency

  -- The first half of a round: the totals and the expected balance.
  unfoldable pub add_row : BankAccount → BankTransaction → RowState → RowState
  unfolding advance_running
  add_row account row st = elim (row_amounts row) [
    | none ↦ record st { can_total = false; running = none }
    | some a ↦
        (if same_currency account row
          then record st {
            sum_debit = add st.sum_debit a.debit;
            sum_credit = add st.sum_credit a.credit;
            running = advance_running account.balance_convention a st.running;
          }
          else record st { can_total = false; running = none })
  ]

  -- The second half: a balance that the row states is the anchor of what follows.
  unfoldable pub anchor_row : BankAccount → BankTransaction → RowState → RowState
  anchor_row account row st = elim row.balance [
    | none ↦ record st { last_provided = none; missing_running = true }
    | some v ↦ elim (exact (some v)) [
      | none ↦ record st { running = none; last_provided = none }
      | some b ↦
          (if same_currency account row
            then record st { running = some b; last_provided = some b }
            else record st { running = none; last_provided = none })
    ]
  ]

  unfoldable pub running_mismatch :
      BankAccount → BankTransaction → Option Exact → Option Exact → List BankIssue
  running_mismatch account row (some balance) (some running) =
      when
        (same_currency account row
          && is_known account.balance_convention
          && not (same balance running))
        (row_issue account row IssueCode.running_balance_mismatch error (some IssueField.balance)
          (some (decimal running)))
  running_mismatch account row _ _ = []

  unfoldable pub row_date_issues : BankAccount → BankTransaction → List BankIssue
  row_date_issues account row =
      if not (holds iso_date row.date)
      then row_issue account row IssueCode.transaction_date_unresolved error (some IssueField.date)
          none
        ∷ []
      else when
          (period_valid account
            && not (after account.statement_start account.statement_end)
            && (after account.statement_start row.date || after row.date account.statement_end))
          (row_issue account row IssueCode.transaction_outside_period warning (some IssueField.date)
            none)

  unfoldable pub row_currency_issues : BankAccount → BankTransaction → List BankIssue
  row_currency_issues account row =
      if not (holds is_currency row.currency)
      then row_issue account row IssueCode.currency_unresolved error (some IssueField.currency) none
        ∷ []
      else when (not (scalar_eq row.currency account.currency))
          (row_issue account row IssueCode.currency_conflict error (some IssueField.currency) none)

  -- The issues of one row, with the state before its round.
  unfoldable pub row_issues :
      BankContext → BankAccount → BankTransaction → RowState → List BankIssue
  unfolding row_date_issues row_currency_issues row_amount_issues running_mismatch
      row_evidence_issues add_row text
  row_issues context account row st =
      row_date_issues account row
      ++ when (not (is_some (text row.description)) && not (is_some (text row.reference))) (
          row_issue account row IssueCode.transaction_description_missing warning
            (some IssueField.description) none)
      ++ row_currency_issues account row
      ++ row_amount_issues account row
      ++ running_mismatch account row (exact row.balance) (add_row account row st).running
      ++ row_evidence_issues context account row

  unfoldable pub row_step : BankAccount → BankTransaction → RowState → RowState
  unfolding add_row anchor_row
  row_step account row st = anchor_row account row (add_row account row st)

  -- The loop over the active rows: their issues and the last state.
  unfoldable pub check_rows :
      BankContext → BankAccount → List BankTransaction → RowState → List BankIssue × RowState
  unfolding row_issues row_step
  check_rows context account [] st = ([], st)
  check_rows context account (row ∷ rows) st =
      let (later, final) = check_rows context account rows (row_step account row st) in
      (row_issues context account row st ++ later, final)
