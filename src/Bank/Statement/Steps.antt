-- ===== src/Bank/Statement/Steps.antt =====
-- What the round of a row without an error does to the totals and to the expected balance.
use maintainflow.Prelude.Text.{Str}
use maintainflow.Prelude.{
  true, false, ◌≡◌, ◌≤◌, inl, inr, ap, ◌∙◌, arith, Bool-cases, Option-cases, Option, some, none,
}
use maintainflow.Prelude.Int.{ℤ, ◌+ℤ◌, neg_ℤ, int_laws}
use maintainflow.Bank.Types.{
  BankAccount, BankTransaction, BankBalanceConvention, credit_increases, debit_increases, unknown,
}
use maintainflow.Bank.Decimal.{Exact, exact, add, negate, same}
use maintainflow.Bank.Decimal.Value.{
  value, value-add, value-negate, scale-add, scale-negate, same_iff,
}
use maintainflow.Bank.Decimal.RoundTrip.{exact-IsMoney}
use maintainflow.Bank.Identity.{Platform}
use maintainflow.Bank.Amounts.{is_some, scalar_eq, holds}
use maintainflow.Bank.Check.Row.{
  is_known, directed, RowState, advance_running, same_currency, add_row, anchor_row, row_step,
  running_mismatch,
}
use maintainflow.Bank.Statement.Rows.{IsClean}
use maintainflow.Bank.Statement.Errors.{has_error}
use maintainflow.Bank.Statement.Books.{amount_value, movement}

pub value-directed :
    (convention : BankBalanceConvention) (d c : Exact)
    → d.scale ≤ 8
    → c.scale ≤ 8
    → is_known convention ≡ true
    → (value (directed convention (add c (negate d))) ≡ movement convention (value d) (value c))
      × ((directed convention (add c (negate d))).scale ≤ 8)
value-directed credit_increases d c hd hc k =
    let n : (negate d).scale ≤ 8 = rw scale-negate hd in
    (value-add c (negate d) hc n ∙ rw value-negate, scale-add c (negate d) hc n)
value-directed debit_increases d c hd hc k =
    let n : (negate d).scale ≤ 8 = rw scale-negate hd in
    (
      value-negate (add c (negate d))
          ∙ ap neg_ℤ (value-add c (negate d) hc n ∙ rw value-negate)
          ∙ flip (value d) (value c),
      rw scale-negate (scale-add c (negate d) hc n),
    )
  where
    flip : (x y : ℤ) → neg_ℤ (y +ℤ neg_ℤ x) ≡ x +ℤ neg_ℤ y
    flip x y = omega int_laws
value-directed unknown d c hd hc k = cc

-- A clean row in an account with a known currency has the currency of its account.
same_currency-clean :
    (host : Platform) (account : BankAccount) (row : BankTransaction)
    → holds host.is_currency account.currency ≡ true
    → scalar_eq row.currency account.currency ≡ true
    → same_currency host account row ≡ true
same_currency-clean host account row h k = rw (h, k)

module _ (host : Platform) (account : BankAccount) (row : BankTransaction) (st : RowState) where
  module _ (clean : IsClean host account row st)
      (known : holds host.is_currency account.currency ≡ true) where
    pub row_step-totals :
        let next = row_step host account row st in
        (next.can_total ≡ st.can_total)
        × (next.sum_debit ≡ add st.sum_debit clean.amounts.0.debit)
        × (next.sum_credit ≡ add st.sum_credit clean.amounts.0.credit)
    unfolding row_step add_row anchor_row
    row_step-totals =
        let s = same_currency-clean host account row known clean.in_currency in
        let (a, e, stated) = clean.amounts in ground arith

    bad_balance : (t : Str) → row.balance ≡ some t → exact (some t) ≡ none → ⊥
    unfolding is_some
    bad_balance t e f = ground (arith, clean.balance)

    no_balance : (b : Exact) → row.balance ≡ none → exact row.balance ≡ some b → ⊥
    unfolding exact
    no_balance b e f = ground arith

    abbrev expected : Exact → Exact
    expected r = add r (
        directed account.balance_convention
          (add clean.amounts.0.credit (negate clean.amounts.0.debit)))

    add_row-running :
        (r : Exact)
        → st.running ≡ some r
        → is_known account.balance_convention ≡ true
        → (add_row host account row st).running ≡ some (expected r)
    unfolding add_row advance_running
    add_row-running r e k =
        let s = same_currency-clean host account row known clean.in_currency in
        let (a, f, stated) = clean.amounts in ground arith

    value-expected :
        (r : Exact)
        → r.scale ≤ 8
        → is_known account.balance_convention ≡ true
        → (value (expected r)
            ≡ value r
              +ℤ movement account.balance_convention
                  (amount_value row.debit)
                  (amount_value row.credit))
          × ((expected r).scale ≤ 8)
    value-expected r few k =
        let (a, f, stated) = clean.amounts in
        let (vd, vc, sd, sc) = stated in
        let (v, s) = value-directed account.balance_convention a.debit a.credit sd sc k in
        let delta = directed account.balance_convention (add a.credit (negate a.debit)) in
        (value-add r delta few s ∙ rw (v, vd, vc), scale-add r delta few s)

    mismatch-same :
        (b n : Exact) (stated expecting : Option Exact)
        → stated ≡ some b
        → expecting ≡ some n
        → has_error (running_mismatch host account row stated expecting) ≡ false
        → is_known account.balance_convention ≡ true
        → same b n ≡ true
    unfolding running_mismatch
    mismatch-same b n stated expecting e f h k =
        let s = same_currency-clean host account row known clean.in_currency in
        elim (Bool-cases (same b n)) [ inl g ↦ g | inr g ↦ ground arith ]

    anchored :
        (v : Str) (b : Exact)
        → row.balance ≡ some v
        → exact (some v) ≡ some b
        → (row_step host account row st).running ≡ some b
    unfolding row_step anchor_row
    anchored v b e f =
        let s = same_currency-clean host account row known clean.in_currency in ground arith

    unanchored :
        row.balance ≡ none
        → (row_step host account row st).running ≡ (add_row host account row st).running
    unfolding row_step anchor_row
    unanchored e = ground arith

    -- From an expected balance `r`: the row states the expected balance behind it or none, and the
    -- next round begins with that balance.
    pub row_step-running :
        (r : Exact)
        → st.running ≡ some r
        → r.scale ≤ 8
        → is_known account.balance_convention ≡ true
        → let after =
            value r
            +ℤ movement account.balance_convention
                (amount_value row.debit)
                (amount_value row.credit) in
          ((b : Exact) → exact row.balance ≡ some b → value b ≡ after)
          × (n : Exact) × ((row_step host account row st).running ≡ some n)
          × (n.scale ≤ 8)
          × (value n ≡ after)
    row_step-running r e few k =
        let run = add_row-running r e k in
        let (v, s) = value-expected r few k in
        elim (Option-cases row.balance) [
          | inl none_stated ↦ (
            λ b h. absurd (no_balance b none_stated h),
            expected r,
            unanchored none_stated ∙ run,
            s,
            v,
          )
          | inr (t, stated) ↦ elim (Option-cases (exact (some t))) [
            | inl bad ↦ absurd (bad_balance t stated bad)
            | inr (b, read) ↦
                let few_b = (exact-IsMoney t b read).scale_bound in
                let found : exact row.balance ≡ some b = ap exact stated ∙ read in
                let m =
                  mismatch-same b (expected r) (exact row.balance)
                    (add_row host account row st).running found run clean.matches k in
                let agree = (same_iff b (expected r) few_b s).0 m ∙ v in
                (
                  λ c h. let q : c ≡ b = cc (h, found) in rw q agree,
                  b,
                  anchored t b stated read,
                  few_b,
                  agree,
                )
          ]
        ]
