-- ===== src/Bank/Decimal/Print.antt =====
-- `canonicalDecimal`, `decimal` and `canonical` of server/core/bank-statement-domain.ts.
use maintainflow.Prelude.{
  ℕ, zero, suc, ◌+◌, ◌-◌, ◌/◌, ◌%◌, Bool, true, false, not, ◌&&◌, ◌||◌, [], ◌∷◌, ◌++◌, some, none,
  length, ltb, ◌==◌, if◌then◌else◌, take, drop, replicate,
}
use maintainflow.Prelude.Int.{is_neg_ℤ, pos_part, neg_part}
use maintainflow.Prelude.Text.{Str, is_digit}
use maintainflow.Bank.Decimal.{BankScalar, Exact, exact}

-- `integer.replace(/^0+(?=\d)/, '')`.
unfoldable pub strip_leading : Str → Str
unfolding is_digit
strip_leading [] = []
strip_leading (c ∷ []) = c ∷ []
strip_leading (c ∷ d ∷ s) =
    let rest = strip_leading (d ∷ s) in if (c == b'0') && is_digit d then rest else c ∷ d ∷ s

unfoldable pub put_unless_zero : ℕ → Str → Str
put_unless_zero c [] = if c == b'0' then [] else c ∷ []
put_unless_zero c (d ∷ s) = c ∷ d ∷ s

-- `fraction.replace(/0+$/, '')`.
unfoldable pub strip_trailing : Str → Str
unfolding put_unless_zero
strip_trailing [] = []
strip_trailing (c ∷ s) = put_unless_zero c (strip_trailing s)

unfoldable pub pad_end : ℕ → Str → Str
pad_end w s = s ++ replicate (w - length s) b'0'

unfoldable pub pad_start : ℕ → Str → Str
pad_start w s = replicate (w - length s) b'0' ++ s

-- `/^0+$/.test(s)`.
unfoldable pub is_zeros : Str → Bool
is_zeros [] = false
is_zeros (c ∷ []) = c == b'0'
is_zeros (c ∷ d ∷ s) = (c == b'0') && is_zeros (d ∷ s)

unfoldable pub minus_if : Bool → Str → Str
minus_if true s = b'-' ∷ s
minus_if false s = s

unfoldable pub canonical_decimal : Str → Str → Bool → Str
unfolding strip_leading strip_trailing pad_end is_zeros minus_if
canonical_decimal integer fraction negative =
    let w = strip_leading integer in
    let f = pad_end 2 (strip_trailing fraction) in
    minus_if (negative && (not (is_zeros w) || not (is_zeros f))) (w ++ b'.' ∷ f)

-- `BigInt.prototype.toString` of a number that is not negative; `suc n` rounds are enough for `n`.
unfoldable pub digits_fuel : ℕ → ℕ → Str
digits_fuel zero n = []
digits_fuel (suc k) n =
    let more = digits_fuel k (n / 10) ++ (b'0' + n % 10) ∷ [] in
    if ltb n 10 then (b'0' + n) ∷ [] else more

unfoldable pub digits_of : ℕ → Str
unfolding digits_fuel
digits_of n = digits_fuel (suc n) n

unfoldable pub decimal : Exact → Str
unfolding canonical_decimal digits_of pad_start
decimal a =
    let digits = pad_start (a.scale + 1) (digits_of (pos_part a.units + neg_part a.units)) in
    let cut = length digits - a.scale in
    canonical_decimal (take cut digits) (drop cut digits) (is_neg_ℤ a.units)

unfoldable pub canonical : BankScalar → BankScalar
unfolding exact decimal
canonical value = elim (exact value) [ none ↦ none | some a ↦ some (decimal a) ]
