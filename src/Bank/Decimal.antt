-- ===== src/Bank/Decimal.antt =====
-- Exact decimal amounts of server/core/bank-statement-domain.ts: `canonicalMoney`, `exact`, `add`,
-- `negate`, `same`, `canonicalDecimal`, `decimal` and `canonical`. BigInt is ℤ.
pub mod Value
pub mod Print
pub mod Digits
pub mod Canonical
pub mod RoundTrip
use maintainflow.Prelude.{
  ℕ, zero, suc, ◌+◌, ◌-◌, ◌*◌, ◌/◌, ◌%◌, ◌^◌, ◌≡◌, Bool, true, false, not, ◌&&◌, ◌||◌, List, [],
  ◌∷◌, ◌++◌, Option, some, none, length, ltb, leb, ◌==◌, if◌then◌else◌, max, take, drop, replicate,
}
use maintainflow.Prelude.Int.{
  ℤ, pos, negsuc, ◌+ℤ◌, neg_ℤ, scale_ℤ, is_zero_ℤ, is_neg_ℤ, pos_part, neg_part,
}
use maintainflow.Prelude.Text.{Str, is_digit, str_eq}

-- A text or null.
abbrev pub BankScalar : Type 0
BankScalar = Option Str

pub record Exact : Type 0 where
  pub units : ℤ
  pub scale : ℕ

unfoldable pub all_digits : Str → Bool
unfolding is_digit
all_digits [] = true
all_digits (c ∷ s) = is_digit c && all_digits s

-- `value.split('.')` up to the first dot, and what stands behind it, if there is a dot.
unfoldable pub cut_dot : Str → Str × Option Str
cut_dot [] = ([], none)
cut_dot (c ∷ s) = let (w, f) = cut_dot s in if c == b'.' then ([], some s) else (c ∷ w, f)

-- `0|[1-9]\d{0,69}`.
unfoldable pub is_whole : Str → Bool
unfolding all_digits
is_whole [] = false
is_whole (c ∷ s) = all_digits (c ∷ s) && (if c == b'0' then leb (length s) 0 else leb (length s) 69)

-- `\d{1,8}`.
unfoldable pub is_fraction : Str → Bool
unfolding all_digits
is_fraction f = all_digits f && leb 1 (length f) && leb (length f) 8

unfoldable pub strip_sign : Str → Bool × Str
strip_sign [] = (false, [])
strip_sign (c ∷ s) = if c == b'-' then (true, s) else (false, c ∷ s)

-- What `canonicalMoney` demands behind the sign.
unfoldable pub is_unsigned_money : Str × Option Str → Bool
unfolding is_whole is_fraction
is_unsigned_money (w, none) = is_whole w
is_unsigned_money (w, some f) = is_whole w && is_fraction f

-- `canonicalMoney.test(value)`.
unfoldable pub is_canonical_money : Str → Bool
unfolding is_unsigned_money strip_sign cut_dot
is_canonical_money value = is_unsigned_money (cut_dot (strip_sign value).1)

-- The value of a run of digits, `BigInt(digits)`.
unfoldable pub digits_from : ℕ → Str → ℕ
digits_from n [] = n
digits_from n (c ∷ s) = digits_from (n * 10 + (c - b'0')) s

unfoldable pub sign_of : Bool → ℕ → ℤ
unfolding neg_ℤ
sign_of negative n = if negative then neg_ℤ (pos n) else pos n

unfoldable pub exact_parts : Bool → Str → Str → Exact
unfolding sign_of digits_from
exact_parts negative w f = record {
  units = sign_of negative (digits_from 0 (w ++ f));
  scale = length f;
}

unfoldable pub fraction_of : Option Str → Str
fraction_of none = []
fraction_of (some f) = f

unfoldable pub exact : BankScalar → Option Exact
unfolding is_canonical_money exact_parts fraction_of
exact none = none
exact (some value) =
    let (negative, body) = strip_sign value in
    let (w, f) = cut_dot body in
    if is_canonical_money value then some (exact_parts negative w (fraction_of f)) else none

unfoldable pub add : Exact → Exact → Exact
unfolding ◌+ℤ◌ scale_ℤ
add a b =
    let scale = max a.scale b.scale in
    record {
      units = scale_ℤ a.units (10 ^ (scale - a.scale)) +ℤ scale_ℤ b.units (10 ^ (scale - b.scale));
      scale = scale;
    }

unfoldable pub negate : Exact → Exact
unfolding neg_ℤ
negate a = record a { units = neg_ℤ a.units }

abbrev pub zero_exact : Exact
zero_exact = record { units = pos 0; scale = 0 }

unfoldable pub same : Exact → Exact → Bool
unfolding add negate
same a b = is_zero_ℤ (add a (negate b)).units
