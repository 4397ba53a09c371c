-- ===== src/Monitor/Instant.antt =====
-- The instants of scripts/stale-monitor.ts: `Date.parse` and `toISOString` for texts such as
-- 2026-01-31T09:07:00.000Z. An instant is counted in milliseconds from the first of January of
-- the year 0, so a difference and an order are those of JavaScript's instants.
use maintainflow.Bank.Date.{days_in_month}
use maintainflow.Prelude.{
  ℕ, zero, suc, ◌+◌, ◌-◌, ◌*◌, ◌/◌, ◌%◌, Bool, true, false, ◌&&◌, ◌||◌, [], ◌∷◌, ◌++◌, Option, some,
  none, leb, ◌==◌, if◌then◌else◌, take, drop, length,
}
use maintainflow.Prelude.Text.{Str, codes, digits_value, is_digit, str_eq}

-- A regular expression of single characters; `#` is `\d`.
unfoldable pub fits : Str → Str → Bool
unfolding is_digit
fits [] [] = true
fits (p ∷ ps) (c ∷ cs) = (if p == b'#' then is_digit c else p == c) && fits ps cs
fits _ _ = false

-- The number that the digits from `start` on write.
unfoldable pub number_at : Str → ℕ → ℕ → ℕ
unfolding digits_value
number_at s start count = digits_value (take count (drop start s)) 0

unfoldable pub is_second_shape : Str → Bool
unfolding fits
is_second_shape s = fits (codes "####-##-##T##:##:##Z") s

unfoldable pub is_millisecond_shape : Str → Bool
unfolding fits
is_millisecond_shape s = fits (codes "####-##-##T##:##:##.###Z") s

-- `/^\d{4}-\d{2}-\d{2}T\d{2}:\d{2}:\d{2}(?:\.\d{3})?Z$/`
unfoldable pub is_instant_shape : Str → Bool
unfolding is_second_shape is_millisecond_shape
is_instant_shape s = is_second_shape s || is_millisecond_shape s

unfoldable days_in_months : ℕ → ℕ → ℕ
unfolding days_in_month
days_in_months year zero = 0
days_in_months year (suc months) =
    let before = days_in_months year months in before + days_in_month year (suc months)

-- The days from the first of January of the year 0.
unfoldable day_number : ℕ → ℕ → ℕ → ℕ
unfolding days_in_months
day_number year month day =
    365 * year
    + (year + 3) / 4
    + (year + 399) / 400
    - (year + 99) / 100
    + days_in_months year (month - 1)
    + day
    - 1

-- `Date.parse` of a text of that shape; no instant where it names no date or time of day.
unfoldable pub date_parse : Str → Option ℕ
unfolding number_at day_number is_instant_shape
date_parse s =
    let year = number_at s 0 4 in
    let month = number_at s 5 2 in
    let day = number_at s 8 2 in
    let hours = number_at s 11 2 in
    let minutes = number_at s 14 2 in
    let seconds = number_at s 17 2 in
    let millis = if length s == 24 then number_at s 20 3 else 0 in
    let in_day = ((hours * 60 + minutes) * 60 + seconds) * 1000 + millis in
    if is_instant_shape s
      && leb 1 month
      && leb month 12
      && leb 1 day
      && leb day (days_in_month year month)
      && leb minutes 59
      && leb seconds 59
      && leb in_day 86400000
    then some (day_number year month day * 86400000 + in_day)
    else none

abbrev put_digits : ℕ → ℕ → Str → Str
put_digits zero n tail = tail
put_digits (suc places) n tail = put_digits places (n / 10) ((b'0' + n % 10) ∷ tail)

-- `new Date(instant).toISOString()`. The day is found in a cycle of 400 years that begin in
-- March, one cycle before the year 0.
unfoldable pub to_iso_string : ℕ → Str
to_iso_string instant =
    let days = instant / 86400000 + 146037 in
    let in_day = instant % 86400000 in
    let of_cycle = days % 146097 in
    let of_era = (of_cycle - of_cycle / 1460 + of_cycle / 36524 - of_cycle / 146096) / 365 in
    let of_year = of_cycle - (365 * of_era + of_era / 4 - of_era / 100) in
    let from_march = (5 * of_year + 2) / 153 in
    let day = of_year - (153 * from_march + 2) / 5 + 1 in
    let month = if leb from_march 9 then from_march + 3 else from_march - 9 in
    let year = of_era + days / 146097 * 400 + (if leb month 2 then 1 else 0) - 400 in
    let year_text = if leb year 9999 then put_digits 4 year [] else b'+' ∷ put_digits 6 year [] in
    year_text
    ++ b'-'
      ∷ put_digits 2 month (
          b'-'
          ∷ put_digits 2 day (
              b'T'
              ∷ put_digits 2 (in_day / 3600000) (
                  b':'
                  ∷ put_digits 2 (in_day / 60000 % 60) (
                      b':'
                      ∷ put_digits 2 (in_day / 1000 % 60)
                          (b'.' ∷ put_digits 3 (in_day % 1000) (codes "Z"))))))

-- `text.replace('.000Z', 'Z')`, for a text that ends in `Z`.
unfoldable pub drop_millis : Str → Str
drop_millis [] = []
drop_millis (c ∷ s) =
    let rest = drop_millis s in if str_eq (c ∷ s) (codes ".000Z") then codes "Z" else c ∷ rest

-- `Date.parse` of a text that has passed `timestamp`.
unfoldable pub instant_of : Str → ℕ
unfolding date_parse
instant_of s = elim (date_parse s) [ none ↦ 0 | some at ↦ at ]

unfoldable pub timestamp : Str → ℕ → Bool
unfolding instant_of date_parse is_instant_shape to_iso_string drop_millis
timestamp value now = elim (date_parse value) [
  | none ↦ false
  | some at ↦
      is_instant_shape value
      && leb at now
      && str_eq (drop_millis (to_iso_string at)) (drop_millis value)
]
