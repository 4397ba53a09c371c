-- ===== src/Bank/Examples.antt =====
-- Tests of server/core/bank-statement-domain.ts, and the theorems at concrete inputs.
use maintainflow.Prelude.{◌≡◌, ◌≤◌, refl, ◌↔◌, true, false, List, [], ◌∷◌, some, none, arith}
use maintainflow.Prelude.Int.{negsuc, ◌+ℤ◌}
use maintainflow.Prelude.Text.{Str, codes, str_eq, str_ltb, lower_ascii}
use maintainflow.Bank.Decimal.{Exact, exact, add, same, sign_of}
use maintainflow.Bank.Decimal.Print.{canonical, canonical_decimal}
use maintainflow.Bank.Decimal.Canonical.{exact-canonical_decimal, magnitude}
use maintainflow.Bank.Decimal.Value.{value, same_iff, value-add}
use maintainflow.Bank.Decimal.RoundTrip.{exact-canonical}
use maintainflow.Bank.Types.{
  BankScalar, BankAccount, BankTransaction, BankValues, BankContext, user, credit_increases,
}
use maintainflow.Bank.Date.{iso_date}
use maintainflow.Bank.Identity.{Platform, is_masked, account_identity}
use maintainflow.Bank.Amounts.{is_some, holds, scalar_eq, row_amounts}
use maintainflow.Bank.Statement.{statement_issues, has_active}
use maintainflow.Bank.Statement.Errors.{has_error}
use maintainflow.Bank.Statement.Accounts.{AllReconcile, statement_issues-Reconcile}

abbrev lower : Str → Str
lower [] = []
lower (c ∷ s) = lower_ascii c ∷ lower s

abbrev first_scalar : List BankScalar → Str
first_scalar (some s ∷ _) = s
first_scalar _ = []

abbrev test_host : Platform
test_host = record {
  nfkc = λ s. s;
  lower_case = lower;
  upper_case = λ s. s;
  is_currency = λ s. str_eq s (codes "EUR");
  digest = first_scalar;
}

abbrev entry : Str → Str → BankScalar → BankScalar → BankScalar → BankTransaction
entry id date debit credit balance = record {
  id = id;
  origin = user;
  excluded = false;
  exclusion_reason = none;
  date = some date;
  description = some (codes "Card payment");
  reference = none;
  debit = debit;
  credit = credit;
  balance = balance;
  currency = some (codes "EUR");
}

abbrev entries : List BankTransaction
entries =
    entry (codes "t1") (codes "2024-02-29") (some (codes "40.25")) none (some (codes "59.75"))
    ∷ entry (codes "t2") (codes "2024-03-01") none (some (codes "10")) (some (codes "69.750"))
    ∷ []

abbrev account_closing : Str → BankAccount
account_closing closing = record {
  id = codes "a1";
  origin = user;
  excluded = false;
  exclusion_reason = none;
  bank_name = some (codes "First Bank");
  account_identifier = some (codes "IE29 AIBK 9311");
  currency = some (codes "EUR");
  statement_start = some (codes "2024-02-01");
  statement_end = some (codes "2024-03-31");
  opening_balance = some (codes "100.00");
  closing_balance = some closing;
  total_debits = some (codes "40.25");
  total_credits = some (codes "10.00");
  balance_convention = credit_increases;
  transactions = entries;
}

abbrev statement_closing : Str → BankValues
statement_closing closing = record { accounts = account_closing closing ∷ [] }

abbrev no_context : BankContext
no_context = record { accounts = []; transactions = [] }

clean_statement :
    has_error (statement_issues test_host (statement_closing (codes "69.75")) no_context) ≡ false
unfolding statement_issues is_some account_identity holds iso_date str_ltb exact scalar_eq
    row_amounts same
clean_statement = refl

wrong_closing :
    has_error (statement_issues test_host (statement_closing (codes "69.76")) no_context) ≡ true
unfolding statement_issues is_some account_identity holds iso_date str_ltb exact scalar_eq
    row_amounts same
wrong_closing = refl

leap_day : iso_date (codes "2024-02-29") ≡ true
unfolding iso_date
leap_day = refl

no_leap_day : iso_date (codes "1900-02-29") ≡ false
unfolding iso_date
no_leap_day = refl

masked_iban : is_masked false (codes "ending 1234") ≡ true
unfolding is_masked
masked_iban = refl

statement_issues-Reconcile_example :
    (has_active test_host (statement_closing (codes "69.75")).accounts ≡ true)
    × AllReconcile test_host no_context (statement_closing (codes "69.75")).accounts
statement_issues-Reconcile_example =
    statement_issues-Reconcile test_host no_context (statement_closing (codes "69.75"))
      clean_statement

abbrev half : Exact
half = record { units = negsuc 49; scale = 2 }

abbrev short_half : Exact
short_half = record { units = negsuc 4; scale = 1 }

same_iff_example : (same half short_half ≡ true) ↔ (value half ≡ value short_half)
same_iff_example = same_iff half short_half (omega arith) (omega arith)

value-add_example : value (add half short_half) ≡ value half +ℤ value short_half
value-add_example = value-add half short_half (omega arith) (omega arith)

read_long : exact (some (codes "-12.500")) ≡ some (record { units = negsuc 12499; scale = 3 })
unfolding exact
read_long = refl

exact-canonical_example :
    (t : Str) × (canonical (some (codes "-12.500")) ≡ some t)
    × (e : Exact) × (exact (some t) ≡ some e)
    × (value e ≡ value (record { units = negsuc 12499; scale = 3 }))
exact-canonical_example =
    exact-canonical (codes "-12.500") (record { units = negsuc 12499; scale = 3 }) read_long

printed : canonical (some (codes "-12.500")) ≡ some (codes "-12.50")
unfolding canonical exact
printed = refl

exact-canonical_decimal_example :
    (e : Exact) × (exact (some (canonical_decimal (codes "007") (codes "50") true)) ≡ some e)
    × (value e ≡ sign_of true (magnitude (codes "007") (codes "50")))
    × (e.scale ≤ 8)
exact-canonical_decimal_example =
    exact-canonical_decimal (codes "007") (codes "50") true (ground arith) (omega arith)
      (ground arith) (ground arith) (omega arith)
