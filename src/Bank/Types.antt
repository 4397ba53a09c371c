-- ===== src/Bank/Types.antt =====
-- shared/bank-statements.ts: the bank statement that is kept, its context and its issues.
use maintainflow.Prelude.{ℕ, Bool, List, Option}
use maintainflow.Prelude.Text.{Str}
pub use maintainflow.Bank.Decimal.{BankScalar}

pub data BankBalanceConvention : Type 0 where
  credit_increases debit_increases unknown : BankBalanceConvention

pub data Origin : Type 0 where
  extracted user : Origin

pub record BankTransaction : Type 0 where
  pub id : Str
  pub origin : Origin
  pub excluded : Bool
  pub exclusion_reason : BankScalar
  pub date : BankScalar
  pub description : BankScalar
  pub reference : BankScalar
  pub debit : BankScalar
  pub credit : BankScalar
  pub balance : BankScalar
  pub currency : BankScalar

pub record BankAccount : Type 0 where
  pub id : Str
  pub origin : Origin
  pub excluded : Bool
  pub exclusion_reason : BankScalar
  pub bank_name : BankScalar
  pub account_identifier : BankScalar
  pub currency : BankScalar
  pub statement_start : BankScalar
  pub statement_end : BankScalar
  pub opening_balance : BankScalar
  pub closing_balance : BankScalar
  pub total_debits : BankScalar
  pub total_credits : BankScalar
  pub balance_convention : BankBalanceConvention
  pub transactions : List BankTransaction

pub record BankValues : Type 0 where
  pub accounts : List BankAccount

pub data FormatStatus : Type 0 where
  missing supported unresolved : FormatStatus

pub data Movement : Type 0 where
  columns positive_credit positive_debit unresolved_movement : Movement

-- The parts of a source that the checks read; its texts and its separators are not modelled.
pub record BankAccountFormats : Type 0 where
  pub date_status : FormatStatus
  pub number_status : FormatStatus
  pub movement : Movement

pub record AccountSource : Type 0 where
  pub formats : Option BankAccountFormats

pub record TransactionSource : Type 0 where
  pub account_id : Str
  pub source_pages : List ℕ

-- `Record<string, …>` as a list of entries.
pub record BankContext : Type 0 where
  pub accounts : List (Str × AccountSource)
  pub transactions : List (Str × TransactionSource)

pub data Severity : Type 0 where
  error warning : Severity

pub data IssueCode : Type 0 where
  no_active_accounts date_format_unresolved amount_format_unresolved movement_convention_unresolved
        bank_name_missing account_identifier_missing account_identity_unresolved currency_unresolved
        statement_period_missing date_invalid statement_period_reversed balance_convention_unknown
        statement_balance_missing statement_total_missing amount_invalid signed_column_amount
        no_transactions transaction_date_unresolved transaction_outside_period
        transaction_description_missing currency_conflict transaction_amount_missing
        transaction_direction_ambiguous zero_value_transaction running_balance_mismatch
        source_evidence_missing running_balances_incomplete statement_total_mismatch
        closing_balance_mismatch closing_running_balance_mismatch source_review_required
        cross_file_identity_unresolved cross_file_period_unresolved statement_period_overlap
        related_statement_period_unresolved possible_duplicate_transaction :
      IssueCode

pub data IssueField : Type 0 where
  accounts bank_name account_identifier currency statement_start statement_end opening_balance
        closing_balance total_debits total_credits balance_convention transactions date description
        debit credit balance :
      IssueField

-- The message is a function of the code, of whether a transaction is named, and of `detail`, the
-- amount that some messages quote.
pub record BankIssue : Type 0 where
  pub code : IssueCode
  pub severity : Severity
  pub account_id : Option Str
  pub transaction_id : Option Str
  pub field : Option IssueField
  pub detail : BankScalar
  pub related_document_ids : List Str
