-- ===== src/Bank/Amounts.antt =====
-- `rowAmounts`, `rowResolved` and `bankTransactionFingerprint` of
-- server/core/bank-statement-domain.ts.
use maintainflow.Prelude.{
  Bool, true, false, not, ◌&&◌, ◌||◌, [], ◌∷◌, Option, some, none, if◌then◌else◌,
}
use maintainflow.Prelude.Int.{is_zero_ℤ}
use maintainflow.Prelude.Text.{Str, codes, str_eq, fold_spaces}
use maintainflow.Bank.Types.{BankScalar, BankAccount, BankTransaction}
use maintainflow.Bank.Decimal.{Exact, exact, zero_exact}
use maintainflow.Bank.Decimal.Print.{canonical}
use maintainflow.Bank.Date.{iso_date}
use maintainflow.Bank.Identity.{Platform, text, bank_account_key}

pub record RowAmounts : Type 0 where
  pub debit : Exact
  pub credit : Exact

unfoldable pub is_some {ℓ} : {A : Type ℓ} → Option A → Bool
is_some none = false
is_some (some _) = true

-- `value === null ? zero : exact(value)`.
unfoldable pub exact_or_zero : BankScalar → Option Exact
exact_or_zero none = some zero_exact
exact_or_zero (some v) = exact (some v)

-- Both amounts were read: one of them was written down, and they are not both other than zero.
unfoldable pub pair_amounts : Bool → Option Exact → Option Exact → Option RowAmounts
pair_amounts absent none c = none
pair_amounts absent (some d) none = none
pair_amounts absent (some d) (some c) =
    if not absent && not (not (is_zero_ℤ d.units) && not (is_zero_ℤ c.units))
    then some (record { debit = d; credit = c })
    else none

unfoldable pub row_amounts : BankTransaction → Option RowAmounts
unfolding is_some exact_or_zero pair_amounts
row_amounts row =
    pair_amounts (not (is_some row.debit) && not (is_some row.credit)) (exact_or_zero row.debit)
      (exact_or_zero row.credit)

unfoldable pub scalar_eq : BankScalar → BankScalar → Bool
scalar_eq none none = true
scalar_eq none (some _) = false
scalar_eq (some _) none = false
scalar_eq (some s) (some t) = str_eq s t

-- `Boolean(value && test(value))`: null and the empty text fail.
unfoldable pub holds : (Str → Bool) → BankScalar → Bool
holds test none = false
holds test (some []) = false
holds test (some (c ∷ s)) = test (c ∷ s)

-- `value ?? '0'`.
unfoldable pub or_nought : BankScalar → BankScalar
or_nought none = some (codes "0")
or_nought (some v) = some v

module _ (host : Platform) where
  open host use {nfkc, lower_case, is_currency, digest}

  unfoldable pub row_resolved : BankAccount → BankTransaction → Bool
  unfolding row_amounts scalar_eq holds is_some
  row_resolved account row =
      not account.excluded
      && not row.excluded
      && holds is_currency account.currency
      && scalar_eq row.currency account.currency
      && holds iso_date row.date
      && is_some (row_amounts row)
      && (not (is_some row.balance) || is_some (exact row.balance))

  unfoldable pub folded : BankScalar → Str
  folded v = elim (text v) [ none ↦ [] | some t ↦ fold_spaces false (lower_case (nfkc t)) ]

  unfoldable pub described : Str → Str → Bool
  described [] [] = false
  described _ _ = true

  unfoldable pub bank_transaction_fingerprint : BankAccount → BankTransaction → BankScalar
  unfolding row_resolved folded described or_nought
  bank_transaction_fingerprint account row = elim (bank_account_key host account) [
    | none ↦ none
    | some key ↦
        (if row_resolved account row && described (folded row.description) (folded row.reference)
          then some (
              digest (
                some key
                ∷ account.currency
                ∷ row.date
                ∷ canonical (or_nought row.debit)
                ∷ canonical (or_nought row.credit)
                ∷ some (folded row.reference)
                ∷ some (folded row.description)
                ∷ []))
          else none)
  ]
