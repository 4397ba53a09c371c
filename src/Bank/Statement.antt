-- ===== src/Bank/Statement.antt =====
-- `uniqueIssues` and the whole of `checkBankStatement` of server/core/bank-statement-domain.ts, on
-- values that have been parsed and bound to their context.
pub mod Errors
pub mod Books
pub mod Rows
pub mod Steps
pub mod Sound
pub mod Accounts
use native.Mathlib.Decide.{ℕ_discrete}
use maintainflow.Prelude.{
  Bool, true, false, not, ◌&&◌, ◌||◌, List, [], ◌∷◌, ◌++◌, Option, some, none, if◌then◌else◌,
}
use maintainflow.Prelude.Text.{Str}
use maintainflow.Bank.Types.{
  BankScalar, BankAccount, BankTransaction, BankValues, BankContext, BankIssue, error, warning,
  IssueCode, Severity, IssueField,
}
use maintainflow.Bank.Identity.{Platform, text, account_identity}
use maintainflow.Bank.Amounts.{is_some, holds}
use maintainflow.Bank.Check.{
  format_issues, formats_of, boundary_issues, money_issues, active_rows, start_state,
  closing_issues,
}
use maintainflow.Bank.Check.Row.{when, account_issue, is_known, after, period_valid, check_rows}

pub BankIssue-discrete : Discrete BankIssue
BankIssue-discrete = hlevel ℕ_discrete

abbrev pub is_yes {ℓ} : {P : Type ℓ} → Dec P → Bool
is_yes (yes _) = true
is_yes (no _) = false

-- `JSON.stringify(a) === JSON.stringify(b)`.
unfoldable pub same_issue : BankIssue → BankIssue → Bool
same_issue a b = is_yes (BankIssue-discrete a b)

unfoldable pub was_seen : BankIssue → List BankIssue → Bool
unfolding same_issue
was_seen i [] = false
was_seen i (j ∷ seen) = same_issue i j || was_seen i seen

-- The filter of `uniqueIssues`, with the set that it fills.
unfoldable pub unique_from : List BankIssue → List BankIssue → List BankIssue
unfolding was_seen
unique_from seen [] = []
unique_from seen (i ∷ issues) =
    let repeated = unique_from seen issues in
    let fresh = i ∷ unique_from (i ∷ seen) issues in if was_seen i seen then repeated else fresh

unfoldable pub unique_issues : List BankIssue → List BankIssue
unfolding unique_from
unique_issues issues = unique_from [] issues

abbrev pub is_empty_list {ℓ} : {A : Type ℓ} → List A → Bool
is_empty_list [] = true
is_empty_list (_ ∷ _) = false

module _ (host : Platform) where
  open host use {is_currency}

  unfoldable pub identity_issues : BankAccount → List BankIssue
  identity_issues account =
      when (not (is_some (text account.bank_name)))
        (account_issue account IssueCode.bank_name_missing warning (some IssueField.bank_name) none)
      ++ (if not (is_some (text account.account_identifier))
          then account_issue account IssueCode.account_identifier_missing warning
              (some IssueField.account_identifier) none
            ∷ []
          else when (not (is_some (account_identity host account))) (
              account_issue account IssueCode.account_identity_unresolved warning
                (some IssueField.account_identifier) none))
      ++ when (not (holds is_currency account.currency)) (
          account_issue account IssueCode.currency_unresolved error (some IssueField.currency) none)

  unfoldable pub period_issues : BankAccount → List BankIssue
  unfolding boundary_issues
  period_issues account =
      boundary_issues account IssueField.statement_start account.statement_start
      ++ boundary_issues account IssueField.statement_end account.statement_end
      ++ when (period_valid account && after account.statement_start account.statement_end) (
          account_issue account IssueCode.statement_period_reversed error
            (some IssueField.statement_end) none)
      ++ when (not (is_known account.balance_convention)) (
          account_issue account IssueCode.balance_convention_unknown warning
            (some IssueField.balance_convention) none)

  unfoldable pub account_issues : BankContext → BankAccount → List BankIssue
  unfolding formats_of format_issues identity_issues period_issues money_issues active_rows
      start_state check_rows closing_issues
  account_issues context account =
      let rows = active_rows account.transactions in
      let checked = check_rows host context account rows (start_state account) in
      format_issues account (formats_of account.id context.accounts)
      ++ identity_issues account
      ++ period_issues account
      ++ money_issues account
      ++ when (is_empty_list rows) (
          account_issue account IssueCode.no_transactions warning (some IssueField.transactions)
            none)
      ++ checked.0
      ++ closing_issues account checked.1

  unfoldable pub accounts_issues : BankContext → List BankAccount → List BankIssue
  unfolding account_issues
  accounts_issues context [] = []
  accounts_issues context (account ∷ rest) =
      (if account.excluded then [] else account_issues context account)
      ++ accounts_issues context rest

  unfoldable pub has_active : List BankAccount → Bool
  has_active [] = false
  has_active (account ∷ rest) = not account.excluded || has_active rest

  unfoldable pub statement_issues : BankValues → BankContext → List BankIssue
  unfolding unique_issues accounts_issues has_active
  statement_issues values context = unique_issues (
      when (not (has_active values.accounts)) (record {
        code = IssueCode.no_active_accounts;
        severity = error;
        account_id = none;
        transaction_id = none;
        field = some IssueField.accounts;
        detail = none;
        related_document_ids = [];
      })
      ++ accounts_issues context values.accounts)
