-- ===== src/Bank/Decimal/RoundTrip.antt =====
-- `decimal` and `canonical`, read again by `exact`.
use native.Mathlib.Nat.{pow-le-pow_right}
use maintainflow.Prelude.{
  ℕ, ◌+◌, ◌-◌, ◌*◌, ◌^◌, ◌≤◌, ◌<◌, ◌≡◌, refl, Bool, true, [], ◌∷◌, ◌++◌, arith, length,
  length-append, replicate, length-replicate, ap, sym, ◌∙◌, Bool-cases, inl, inr, Option, some,
  none, take, drop, take-append-drop, length-drop, length-take,
}
use maintainflow.Prelude.Int.{ℤ, pos_part, neg_part, neg_ℤ, scale_ℤ, is_neg_ℤ}
use maintainflow.Prelude.Text.{Str}
use maintainflow.Bank.Decimal.{
  Exact, exact, exact_parts, sign_of, digits_from, is_whole, is_fraction, is_canonical_money,
  is_unsigned_money, cut_dot, strip_sign, fraction_of,
}
use maintainflow.Bank.Decimal.Value.{value, pow_add}
use maintainflow.Bank.Decimal.Print.{pad_start, digits_of, decimal, canonical}
use maintainflow.Bank.Decimal.Digits.{
  combine, AreDigits, number, digits_from-number, all_digits-AreDigits, AreDigits-append,
  AreDigits-take, AreDigits-drop, AreDigits-zeros, number-append, number-zeros, number-lt,
  digits_of-number, digits_of-AreDigits,
}
use maintainflow.Bank.Decimal.Canonical.{magnitude, sign_of-scale_ℤ, exact-canonical_decimal}

sign_of-parts : (u : ℤ) → sign_of (is_neg_ℤ u) (pos_part u + neg_part u) ≡ u
unfolding sign_of neg_ℤ
sign_of-parts u = ground arith

-- The digits of `n` before and behind the decimal point, `s` of them behind it.
abbrev padded : ℕ → ℕ → Str
padded s n = pad_start (s + 1) (digits_of n)

abbrev before : ℕ → ℕ → Str
before s n = take (length (padded s n) - s) (padded s n)

abbrev behind : ℕ → ℕ → Str
behind s n = drop (length (padded s n) - s) (padded s n)

padded-facts :
    (s n : ℕ) → (s + 1 ≤ length (padded s n)) × AreDigits (padded s n) × (number (padded s n) ≡ n)
unfolding pad_start
padded-facts s n =
    let d = digits_of n in
    let z = replicate (s + 1 - length d) b'0' in
    (
      omega (arith, length-append {0} z d, length-replicate {0} {A = ℕ} (s + 1 - length d) b'0'),
      AreDigits-append z d (AreDigits-zeros (s + 1 - length d)) (digits_of-AreDigits n),
      rw (number-append z d, number-zeros (s + 1 - length d)) (omega (arith, digits_of-number n)),
    )

length-before : (s n : ℕ) → 1 ≤ length (before s n)
length-before s n =
    omega (arith, length-take {0} (length (padded s n) - s) (padded s n), (padded-facts s n).0)

length-behind : (s n : ℕ) → length (behind s n) ≡ s
length-behind s n =
    omega (arith, length-drop {0} (length (padded s n) - s) (padded s n), (padded-facts s n).0)

before-behind : (s n : ℕ) → number (before s n) * 10 ^ s + number (behind s n) ≡ n
before-behind s n =
    let k = length (padded s n) - s in
    let e = number-append (before s n) (behind s n) in
    let j = rw (length-behind s n) at e in
    sym j ∙ ap number (take-append-drop k (padded s n)) ∙ (padded-facts s n).2

mul_lt_cancel : (b c p x : ℕ) → b * p + x < c * p → b < c
mul_lt_cancel b c p x h = grind arith

before-lt : (b n s x : ℕ) → b * 10 ^ s + x ≡ n → n < 10 ^ (70 + s) → b < 10 ^ 70
before-lt b n s x e h =
    let g : b * 10 ^ s + x < 10 ^ 70 * 10 ^ s = rw (e, ← pow_add 70 s) h in
    mul_lt_cancel b (10 ^ 70) (10 ^ s) x g

magnitude-before-behind : (s n : ℕ) → s ≤ 8 → magnitude (before s n) (behind s n) ≡ n * 10 ^ (8 - s)
magnitude-before-behind s n h =
    let p : 10 ^ s * 10 ^ (8 - s) ≡ 10 ^ 8 =
      let e : s + (8 - s) ≡ 8 = omega arith in rw (← pow_add s (8 - s), e) in
    let whole =
      combine (number (before s n)) (10 ^ s) (10 ^ (8 - s)) (number (behind s n)) p refl in
    rw (length-behind s n) (sym whole ∙ ap (λ (t : ℕ). t * 10 ^ (8 - s)) (before-behind s n))

pub exact-decimal :
    (a : Exact)
    → a.scale ≤ 8
    → pos_part a.units + neg_part a.units < 10 ^ (70 + a.scale)
    → (e : Exact) × (exact (some (decimal a)) ≡ some e) × (value e ≡ value a) × (e.scale ≤ 8)
exact-decimal a h small =
    let n = pos_part a.units + neg_part a.units in
    let s = a.scale in
    let k = length (padded s n) - s in
    let digits = (padded-facts s n).1 in
    let (e, read, same_value, few) =
      exact-canonical_decimal (before s n) (behind s n) (is_neg_ℤ a.units)
        (AreDigits-take k (padded s n) digits) (length-before s n)
        (before-lt (number (before s n)) n s (number (behind s n)) (before-behind s n) small)
        (AreDigits-drop k (padded s n) digits) (rw (length-behind s n) h) in
    (
      e,
      unfold decimal in read,
      same_value
          ∙ ap (sign_of (is_neg_ℤ a.units)) (magnitude-before-behind s n h)
          ∙ sym (sign_of-scale_ℤ (is_neg_ℤ a.units) n (10 ^ (8 - s)))
          ∙ unfold value in ap (λ (u : ℤ). scale_ℤ u (10 ^ (8 - s))) (sign_of-parts a.units),
      few,
    )

-- The bounds of an amount that is read from a canonical text.
pub record IsMoney (a : Exact) : Type 0 where
  pub scale_bound : a.scale ≤ 8
  pub units_bound : pos_part a.units + neg_part a.units < 10 ^ (70 + a.scale)

sign_of-abs : (b : Bool) (n : ℕ) → pos_part (sign_of b n) + neg_part (sign_of b n) ≡ n
unfolding sign_of neg_ℤ
sign_of-abs b n = ground arith

exact_parts-IsMoney :
    (b : Bool) (w f : Str)
    → AreDigits w
    → length w ≤ 70
    → AreDigits f
    → length f ≤ 8
    → IsMoney (exact_parts b w f)
unfolding exact_parts
exact_parts-IsMoney b w f hw lw hf lf =
    let lt = number-lt (w ++ f) (AreDigits-append w f hw hf) in
    let up : 10 ^ length (w ++ f) ≤ 10 ^ (70 + length f) =
      pow-le-pow_right (omega arith) (omega (arith, length-append {0} w f)) in
    let n : digits_from 0 (w ++ f) ≡ number (w ++ f) =
      digits_from-number 0 (w ++ f) ∙ omega arith in
    record {
      scale_bound = lf;
      units_bound = rw (sign_of-abs b (digits_from 0 (w ++ f)), n) (omega arith);
    }

is_whole-facts : (w : Str) → is_whole w ≡ true → AreDigits w × (length w ≤ 70)
unfolding is_whole
is_whole-facts [] h = cc
is_whole-facts (c ∷ s) h = (all_digits-AreDigits (c ∷ s) (ground arith), ground arith)

cut_dot-IsMoney :
    (b : Bool) (c : Str × Option Str)
    → is_unsigned_money c ≡ true
    → IsMoney (exact_parts b c.0 (fraction_of c.1))
unfolding is_unsigned_money fraction_of is_fraction
cut_dot-IsMoney b (w, none) h =
    let f = is_whole-facts w h in exact_parts-IsMoney b w [] f.0 f.1 tt (omega arith)
cut_dot-IsMoney b (w, some f) h =
    let g = is_whole-facts w (ground arith) in
    exact_parts-IsMoney b w f g.0 g.1 (all_digits-AreDigits f (ground arith)) (ground arith)

-- An amount that is read has at most 8 digits behind the point and 70 before it.
pub exact-IsMoney : (v : Str) (a : Exact) → exact (some v) ≡ some a → IsMoney a
unfolding exact is_canonical_money
exact-IsMoney v a h = elim (Bool-cases (is_canonical_money v)) [
  | inl e ↦
      let c = cut_dot (strip_sign v).1 in
      let m = cut_dot-IsMoney (strip_sign v).0 c e in
      let q : exact_parts (strip_sign v).0 c.0 (fraction_of c.1) ≡ a = ground arith in rw q at m
  | inr e ↦ ground arith
]

-- A text that is read as an amount has a canonical text, which is read as the same amount: the
-- same number of hundred-millionths.
pub exact-canonical :
    (v : Str) (a : Exact)
    → exact (some v) ≡ some a
    → (t : Str) × (canonical (some v) ≡ some t)
      × (e : Exact) × (exact (some t) ≡ some e)
      × (value e ≡ value a)
unfolding canonical
exact-canonical v a h =
    let m = exact-IsMoney v a h in
    let (e, read, keeps, few) = exact-decimal a m.scale_bound m.units_bound in
    (decimal a, rw (h, canonical), e, read, keeps)
