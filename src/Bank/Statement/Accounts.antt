-- ===== src/Bank/Statement/Accounts.antt =====
-- From the issues of an account, and of a statement, to the books.
use maintainflow.Prelude.{
  true, false, not, List, [], ◌∷◌, ◌++◌, ◌≡◌, ◌≤◌, inl, inr, refl, sym, ◌∙◌, arith, Bool-cases,
  some, none, if◌then◌else◌,
}
use maintainflow.Prelude.Int.{◌+ℤ◌, int_laws}
use maintainflow.Bank.Types.{
  BankScalar, BankAccount, BankTransaction, BankContext, BankValues, error, warning, IssueCode,
  IssueField,
}
use maintainflow.Bank.Decimal.{Exact, exact, add, negate, same, zero_exact}
use maintainflow.Bank.Decimal.Value.{value, value-add, scale-add, same_iff}
use maintainflow.Bank.Decimal.RoundTrip.{exact-IsMoney}
use maintainflow.Bank.Identity.{Platform}
use maintainflow.Bank.Amounts.{holds}
use maintainflow.Bank.Check.{
  formats_of, format_issues, money_issues, active_rows, start_state, closing_issues, total_issue,
  closing_issue, last_balance_issue, expected_closing,
}
use maintainflow.Bank.Check.Row.{is_known, directed, RowState, check_rows, when, account_issue}
use maintainflow.Bank.Statement.{
  identity_issues, period_issues, account_issues, accounts_issues, statement_issues, has_active,
  is_empty_list,
}
use maintainflow.Bank.Statement.Errors.{has_error, clean-append, unique_issues-clean}
use maintainflow.Bank.Statement.Books.{total_debit, total_credit, movement, Follows, Reconciles}
use maintainflow.Bank.Statement.Rows.{value-zero}
use maintainflow.Bank.Statement.Sound.{Totals, check_rows-Totals, check_rows-Follows}
use maintainflow.Bank.Statement.Steps.{value-directed}

exact-none-some : (e : Exact) → exact none ≡ some e → ⊥
unfolding exact
exact-none-some e h = ground arith

total_issue-clean :
    (account : BankAccount) (field : IssueField) (stated : BankScalar) (sum : Exact)
    → sum.scale ≤ 8
    → has_error (total_issue account field stated sum) ≡ false
    → (t : Exact) → exact stated ≡ some t
    → value t ≡ value sum
unfolding total_issue
total_issue-clean account field none sum s h t e = absurd (exact-none-some t e)
total_issue-clean account field (some v) sum s h t e =
    let few = (exact-IsMoney v t e).scale_bound in
    elim (Bool-cases (same t sum)) [ inl g ↦ (same_iff t sum few s).0 g | inr g ↦ ground arith ]

scale-exact : (v : BankScalar) (e : Exact) → exact v ≡ some e → e.scale ≤ 8
scale-exact none e h = absurd (exact-none-some e h)
scale-exact (some v) e h = (exact-IsMoney v e h).scale_bound

closing_issue-same :
    (account : BankAccount) (st : RowState) (o c : Exact)
    → has_error (closing_issue account st) ≡ false
    → exact account.opening_balance ≡ some o
    → exact account.closing_balance ≡ some c
    → is_known account.balance_convention ≡ true
    → same (add o (directed account.balance_convention (add st.sum_credit (negate st.sum_debit)))) c
      ≡ true
unfolding closing_issue expected_closing
closing_issue-same account st o c h eo ec k =
    let delta = directed account.balance_convention (add st.sum_credit (negate st.sum_debit)) in
    elim (Bool-cases (same (add o delta) c)) [ inl g ↦ g | inr g ↦ ground arith ]

closing_issue-clean :
    (account : BankAccount) (st : RowState) (o c : Exact)
    → st.sum_debit.scale ≤ 8
    → st.sum_credit.scale ≤ 8
    → has_error (closing_issue account st) ≡ false
    → exact account.opening_balance ≡ some o
    → exact account.closing_balance ≡ some c
    → is_known account.balance_convention ≡ true
    → value c
      ≡ value o +ℤ movement account.balance_convention (value st.sum_debit) (value st.sum_credit)
closing_issue-clean account st o c sd sc h eo ec k =
    let (v, s) = value-directed account.balance_convention st.sum_debit st.sum_credit sd sc k in
    let delta = directed account.balance_convention (add st.sum_credit (negate st.sum_debit)) in
    let so = scale-exact account.opening_balance o eo in
    let all = value-add o delta so s ∙ rw v in
    sym (
      (same_iff (add o delta) c (scale-add o delta so s)
          (scale-exact account.closing_balance c ec)).0
        (closing_issue-same account st o c h eo ec k))
    ∙ all

closing_issues-clean :
    (account : BankAccount) (st : RowState)
    → st.can_total ≡ true
    → has_error (closing_issues account st) ≡ false
    → (has_error (total_issue account IssueField.total_debits account.total_debits st.sum_debit)
        ≡ false)
      × (has_error
            (total_issue account IssueField.total_credits account.total_credits st.sum_credit)
          ≡ false)
      × (has_error (closing_issue account st) ≡ false)
unfolding closing_issues
closing_issues-clean account st t h =
    let total_d = total_issue account IssueField.total_debits account.total_debits st.sum_debit in
    let total_c =
      total_issue account IssueField.total_credits account.total_credits st.sum_credit in
    let missing = when st.missing_running (
      account_issue account IssueCode.running_balances_incomplete warning
        (some IssueField.transactions) none) in
    let totals = if st.can_total then total_d ++ total_c ++ closing_issue account st else [] in
    let review = account_issue account IssueCode.source_review_required warning none none ∷ [] in
    let (h1, _) = clean-append (missing ++ totals ++ last_balance_issue account st) review h in
    let (h2, _) = clean-append (missing ++ totals) (last_balance_issue account st) h1 in
    let (_, h3) = clean-append missing totals h2 in
    let h4 : has_error (total_d ++ total_c ++ closing_issue account st) ≡ false =
      let pick : totals ≡ total_d ++ total_c ++ closing_issue account st = rw t in rw pick at h3 in
    let (h5, c) = clean-append (total_d ++ total_c) (closing_issue account st) h4 in
    let (d, e) = clean-append total_d total_c h5 in (d, e, c)

module _ (host : Platform) (context : BankContext) where
  identity_issues-clean :
      (account : BankAccount)
      → has_error (identity_issues host account) ≡ false
      → holds host.is_currency account.currency ≡ true
  unfolding identity_issues
  identity_issues-clean account h = elim (Bool-cases (holds host.is_currency account.currency)) [
    | inl e ↦ e
    | inr e ↦ ground arith
  ]

  -- What the loop has found, and no issue behind it, make the books agree.
  books-Reconcile :
      (account : BankAccount) (rows : List BankTransaction) (final : RowState)
      (known : holds host.is_currency account.currency ≡ true)
      → Totals host context account known rows (value zero_exact) (value zero_exact) final
      → has_error (closing_issues account final) ≡ false
      → ((o : Exact)
          → exact account.opening_balance ≡ some o
          → is_known account.balance_convention ≡ true
          → Follows account.balance_convention (value o) rows)
      → Reconciles host account rows
  books-Reconcile account rows final known totals hc follows =
      let (hd, he, hf) = closing_issues-clean account final totals.can_total hc in
      let d : value final.sum_debit ≡ total_debit rows =
        totals.debit ∙ rw value-zero (omega int_laws) in
      let c : value final.sum_credit ≡ total_credit rows =
        totals.credit ∙ rw value-zero (omega int_laws) in
      record {
        currency = known;
        resolved = totals.resolved;
        debits = λ t e.
            total_issue-clean account IssueField.total_debits account.total_debits final.sum_debit
              totals.debit_scale hd t e
            ∙ d;
        credits = λ t e.
            total_issue-clean account IssueField.total_credits account.total_credits
              final.sum_credit totals.credit_scale he t e
            ∙ c;
        balances = follows;
        closing = λ o x eo ex k.
            rw (d, c) at
              (closing_issue-clean account final o x totals.debit_scale totals.credit_scale hf eo ex
                k);
      }

  pub account_issues-Reconciles :
      (account : BankAccount)
      → has_error (account_issues host context account) ≡ false
      → Reconciles host account (active_rows account.transactions)
  unfolding account_issues start_state
  account_issues-Reconciles account h =
      let rows = active_rows account.transactions in
      let start = start_state account in
      let checked = check_rows host context account rows start in
      let formats = format_issues account (formats_of account.id context.accounts) in
      let empty = when (is_empty_list rows) (
        account_issue account IssueCode.no_transactions warning (some IssueField.transactions)
          none) in
      let (h1, hc) =
        clean-append
          (formats
            ++ identity_issues host account
            ++ period_issues host account
            ++ money_issues account
            ++ empty
            ++ checked.0)
          (closing_issues account checked.1) h in
      let (h2, hr) =
        clean-append
          (formats
            ++ identity_issues host account
            ++ period_issues host account
            ++ money_issues account
            ++ empty)
          checked.0 h1 in
      let (h3, _) =
        clean-append
          (formats
            ++ identity_issues host account
            ++ period_issues host account
            ++ money_issues account)
          empty h2 in
      let (h4, _) =
        clean-append (formats ++ identity_issues host account ++ period_issues host account)
          (money_issues account) h3 in
      let (h5, _) =
        clean-append (formats ++ identity_issues host account) (period_issues host account) h4 in
      let (_, hi) = clean-append formats (identity_issues host account) h5 in
      let known = identity_issues-clean account hi in
      books-Reconcile account rows checked.1 known
        (check_rows-Totals host context account known rows start hr refl (omega arith)
          (omega arith))
        hc
        (λ o e k.
          check_rows-Follows host context account known rows start o hr e
            (scale-exact account.opening_balance o e) k)

  abbrev pub AllReconcile : List BankAccount → Type 0
  AllReconcile [] = Unit
  AllReconcile (account ∷ rest) =
      (account.excluded ≡ false → Reconciles host account (active_rows account.transactions))
      × AllReconcile rest

  accounts_issues-AllReconcile :
      (accounts : List BankAccount)
      → has_error (accounts_issues host context accounts) ≡ false
      → AllReconcile accounts
  unfolding accounts_issues
  accounts_issues-AllReconcile [] h = tt
  accounts_issues-AllReconcile (account ∷ rest) h =
      let own = if account.excluded then [] else account_issues host context account in
      let (mine, others) = clean-append own (accounts_issues host context rest) h in
      (
        λ active.
            let pick : own ≡ account_issues host context account = rw active in
            account_issues-Reconciles account (rw pick at mine),
        accounts_issues-AllReconcile rest others,
      )

  -- A statement on which no error is raised has an active account, and in each active account: a
  -- known currency; each active row is dated, in that currency, and has resolved amounts; a stated
  -- total is the sum of the rows. Where the opening balance and the convention are known, each
  -- balance that a row states is the opening balance and all movements up to it, and a stated
  -- closing balance is the opening balance and all movements.
  pub statement_issues-Reconcile :
      (values : BankValues)
      → has_error (statement_issues host values context) ≡ false
      → (has_active host values.accounts ≡ true) × AllReconcile values.accounts
  unfolding statement_issues
  statement_issues-Reconcile values h =
      let found = accounts_issues host context values.accounts in
      let absent = when (not (has_active host values.accounts)) (record {
        code = IssueCode.no_active_accounts;
        severity = error;
        account_id = none;
        transaction_id = none;
        field = some IssueField.accounts;
        detail = none;
        related_document_ids = [];
      }) in
      let (none_absent, clean) =
        clean-append absent found (unique_issues-clean (absent ++ found) h) in
      (
        elim (Bool-cases (has_active host values.accounts)) [ inl e ↦ e | inr e ↦ ground arith ],
        accounts_issues-AllReconcile values.accounts clean,
      )
