-- ===== src/Bank/Statement/Books.antt =====
-- The books of an account as whole numbers of hundred-millionths: an independent reading of its rows.
use maintainflow.Prelude.{true, List, [], ◌∷◌, ◌≡◌, some, none}
use maintainflow.Prelude.Int.{ℤ, pos, ◌+ℤ◌, neg_ℤ}
use maintainflow.Bank.Types.{
  BankScalar, BankAccount, BankTransaction, BankBalanceConvention, credit_increases,
}
use maintainflow.Bank.Decimal.{Exact, exact}
use maintainflow.Bank.Decimal.Value.{value}
use maintainflow.Bank.Identity.{Platform}
use maintainflow.Bank.Date.{iso_date}
use maintainflow.Bank.Amounts.{RowAmounts, row_amounts, scalar_eq, holds}
use maintainflow.Bank.Check.Row.{is_known}

-- An amount that is absent or no amount counts as nothing.
abbrev pub amount_value : BankScalar → ℤ
amount_value v = elim (exact v) [ none ↦ pos 0 | some e ↦ value e ]

abbrev pub total_debit : List BankTransaction → ℤ
total_debit [] = pos 0
total_debit (row ∷ rows) = amount_value row.debit +ℤ total_debit rows

abbrev pub total_credit : List BankTransaction → ℤ
total_credit [] = pos 0
total_credit (row ∷ rows) = amount_value row.credit +ℤ total_credit rows

-- What debits and credits do to the balance.
abbrev pub movement : BankBalanceConvention → ℤ → ℤ → ℤ
movement credit_increases debit credit = credit +ℤ neg_ℤ debit
movement _ debit credit = debit +ℤ neg_ℤ credit

-- Each balance that a row states is the balance before the row and what the row moves.
abbrev pub Follows : BankBalanceConvention → ℤ → List BankTransaction → Type 0
Follows convention before [] = Unit
Follows convention before (row ∷ rows) =
    let next = before +ℤ movement convention (amount_value row.debit) (amount_value row.credit) in
    ((b : Exact) → exact row.balance ≡ some b → value b ≡ next) × Follows convention next rows

module _ (host : Platform) where
  -- A row with a date, in the account's currency, with one amount that moves the balance at most.
  pub record IsResolved (account : BankAccount) (row : BankTransaction) : Type 0 where
    pub dated : holds iso_date row.date ≡ true
    pub in_currency : scalar_eq row.currency account.currency ≡ true
    pub amounts : (a : RowAmounts) × (row_amounts row ≡ some a)

  abbrev pub AllResolved : BankAccount → List BankTransaction → Type 0
  AllResolved account [] = Unit
  AllResolved account (row ∷ rows) = IsResolved account row × AllResolved account rows

  -- An account whose books agree.
  pub record Reconciles (account : BankAccount) (rows : List BankTransaction) : Type 0 where
    pub currency : holds host.is_currency account.currency ≡ true
    pub resolved : AllResolved account rows
    pub debits : (t : Exact) → exact account.total_debits ≡ some t → value t ≡ total_debit rows
    pub credits : (t : Exact) → exact account.total_credits ≡ some t → value t ≡ total_credit rows
    pub balances :
        (o : Exact)
        → exact account.opening_balance ≡ some o
        → is_known account.balance_convention ≡ true
        → Follows account.balance_convention (value o) rows
    pub closing :
        (o c : Exact)
        → exact account.opening_balance ≡ some o
        → exact account.closing_balance ≡ some c
        → is_known account.balance_convention ≡ true
        → value c
          ≡ value o +ℤ movement account.balance_convention (total_debit rows) (total_credit rows)
