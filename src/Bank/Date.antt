-- ===== src/Bank/Date.antt =====
-- `isoDate` of server/core/bank-statement-domain.ts.
use maintainflow.Prelude.{
  ℕ, ◌+◌, ◌-◌, ◌*◌, ◌%◌, Bool, false, not, ◌&&◌, ◌||◌, [], ◌∷◌, Option, some, none, leb, ◌==◌,
  if◌then◌else◌,
}
use maintainflow.Prelude.Text.{Str, is_digit}

pub record CalendarDate : Type 0 where
  pub year : ℕ
  pub month : ℕ
  pub day : ℕ

abbrev digit : ℕ → ℕ
digit c = c - b'0'

-- `/^\d{4}-\d{2}-\d{2}$/` and `value.split('-').map(Number)`.
unfoldable pub date_parts : Str → Option CalendarDate
unfolding is_digit
date_parts (a ∷ b ∷ c ∷ d ∷ p ∷ e ∷ f ∷ q ∷ g ∷ h ∷ []) =
    if is_digit a
      && is_digit b
      && is_digit c
      && is_digit d
      && p == b'-'
      && is_digit e
      && is_digit f
      && q == b'-'
      && is_digit g
      && is_digit h
    then some (record {
      year = ((digit a * 10 + digit b) * 10 + digit c) * 10 + digit d;
      month = digit e * 10 + digit f;
      day = digit g * 10 + digit h;
    })
    else none
date_parts _ = none

unfoldable pub is_leap : ℕ → Bool
is_leap year = (year % 4 == 0) && (not (year % 100 == 0) || year % 400 == 0)

unfoldable pub days_in_month : ℕ → ℕ → ℕ
unfolding is_leap
days_in_month year month =
    if month == 2
    then (if is_leap year then 29 else 28)
    else if month == 4 || month == 6 || month == 9 || month == 11
    then 30
    else 31

unfoldable pub is_calendar_date : CalendarDate → Bool
unfolding days_in_month
is_calendar_date d =
    leb 1 d.year
    && leb 1 d.month
    && leb d.month 12
    && leb 1 d.day
    && leb d.day (days_in_month d.year d.month)

unfoldable pub iso_date : Str → Bool
unfolding date_parts is_calendar_date
iso_date value = elim (date_parts value) [ none ↦ false | some d ↦ is_calendar_date d ]
