-- ===== src/Bank/Statement/Errors.antt =====
-- Lists of issues without an error.
use maintainflow.Prelude.{
  Bool, true, false, ◌||◌, List, [], ◌∷◌, ◌++◌, ◌≡◌, refl, ap, arith, Bool-cases, inl, inr,
}
use maintainflow.Bank.Types.{BankIssue, error, warning}
use maintainflow.Bank.Statement.{
  is_yes, same_issue, was_seen, unique_from, unique_issues, BankIssue-discrete,
}

abbrev pub is_error : BankIssue → Bool
is_error i = elim i.severity [ error ↦ true | warning ↦ false ]

abbrev pub has_error : List BankIssue → Bool
has_error [] = false
has_error (i ∷ issues) = is_error i || has_error issues

pub clean-append :
    (xs ys : List BankIssue)
    → has_error (xs ++ ys) ≡ false
    → (has_error xs ≡ false) × (has_error ys ≡ false)
clean-append [] ys h = (refl, h)
clean-append (x ∷ xs) ys h = ground (arith, clean-append xs ys)

is_yes_sound : {i j : BankIssue} (d : Dec (i ≡ j)) → is_yes d ≡ true → i ≡ j
is_yes_sound (yes p) h = p
is_yes_sound (no n) h = cc

same_issue-error : (i j : BankIssue) → same_issue i j ≡ true → is_error i ≡ is_error j
unfolding same_issue
same_issue-error i j h = ap is_error (is_yes_sound (BankIssue-discrete i j) h)

was_seen-error :
    (i : BankIssue) (seen : List BankIssue)
    → was_seen i seen ≡ true
    → is_error i ≡ true
    → has_error seen ≡ true
unfolding was_seen
was_seen-error i [] h e = cc
was_seen-error i (j ∷ seen) h e = ground (arith, same_issue-error i j, was_seen-error i seen)

-- Removing repeated issues removes no error for good.
unique_from-clean :
    (seen issues : List BankIssue)
    → has_error seen ≡ false
    → has_error (unique_from seen issues) ≡ false
    → has_error issues ≡ false
unfolding unique_from
unique_from-clean seen [] s h = refl
unique_from-clean seen (i ∷ issues) s h = elim (Bool-cases (was_seen i seen)) [
  | inl e ↦ ground (arith, was_seen-error i seen e, unique_from-clean seen issues s)
  | inr e ↦ ground (arith, unique_from-clean (i ∷ seen) issues)
]

pub unique_issues-clean :
    (issues : List BankIssue) → has_error (unique_issues issues) ≡ false → has_error issues ≡ false
unfolding unique_issues
unique_issues-clean issues h = unique_from-clean [] issues refl h
