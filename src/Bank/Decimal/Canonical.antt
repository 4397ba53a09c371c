-- ===== src/Bank/Decimal/Canonical.antt =====
-- The canonical text of an amount, read again by `exact`.
use native.Mathlib.Nat.{mul_assoc}
use maintainflow.Prelude.{
  ℕ, ◌+◌, ◌-◌, ◌*◌, ◌^◌, ◌≤◌, ◌<◌, ◌≡◌, refl, Bool, true, false, not, ◌&&◌, ◌||◌, [], ◌∷◌, ◌++◌,
  arith, length, length-append, replicate, length-replicate, ap, sym, ◌∙◌, Bool-cases, inl, inr,
  some,
}
use maintainflow.Prelude.Int.{pos, neg_ℤ, scale_ℤ}
use maintainflow.Prelude.Text.{Str}
use maintainflow.Bank.Decimal.{
  Exact, exact, exact_parts, sign_of, digits_from, is_whole, is_fraction, is_canonical_money,
  is_unsigned_money, cut_dot, strip_sign, fraction_of,
}
use maintainflow.Bank.Decimal.Value.{value, pow_add, scale_ℤ-neg_ℤ}
use maintainflow.Bank.Decimal.Print.{
  strip_leading, strip_trailing, pad_end, is_zeros, minus_if, canonical_decimal,
}
use maintainflow.Bank.Decimal.Digits.{
  combine, AreDigits, number, digits_from-number, AreDigits-all_digits, AreDigits-append,
  AreDigits-zeros, number-append, number-zeros, strip_leading-number, strip_leading-is_whole,
  strip_leading-AreDigits, strip_trailing-number, strip_trailing-AreDigits,
}

-- The amount `w.f` in hundred-millionths, without its sign.
abbrev pub magnitude : Str → Str → ℕ
magnitude w f = number w * 10 ^ 8 + number f * 10 ^ (8 - length f)

scale_ℤ-pos : (n k : ℕ) → scale_ℤ (pos n) k ≡ pos (n * k)
unfolding scale_ℤ
scale_ℤ-pos n k = ground arith

pub sign_of-scale_ℤ :
    (negative : Bool) (n k : ℕ) → scale_ℤ (sign_of negative n) k ≡ sign_of negative (n * k)
unfolding sign_of
sign_of-scale_ℤ true n k = rw (scale_ℤ-neg_ℤ (pos n) k, scale_ℤ-pos n k)
sign_of-scale_ℤ false n k = scale_ℤ-pos n k

pub digits_from-magnitude :
    (w f : Str) → length f ≤ 8 → digits_from 0 (w ++ f) * 10 ^ (8 - length f) ≡ magnitude w f
digits_from-magnitude w f h =
    let e : length f + (8 - length f) ≡ 8 = omega arith in
    let p : 10 ^ length f * 10 ^ (8 - length f) ≡ 10 ^ 8 =
      rw (← pow_add (length f) (8 - length f), e) in
    let z : 0 * 10 ^ length (w ++ f) + number (w ++ f) ≡ number w * 10 ^ length f + number f =
      omega (arith, number-append w f) in
    rw (digits_from-number 0 (w ++ f), z)
      (combine (number w) (10 ^ length f) (10 ^ (8 - length f)) (number f) p refl)

pub value-exact_parts :
    (negative : Bool) (w f : Str)
    → length f ≤ 8
    → value (exact_parts negative w f) ≡ sign_of negative (magnitude w f)
unfolding value exact_parts
value-exact_parts negative w f h =
    sign_of-scale_ℤ negative (digits_from 0 (w ++ f)) (10 ^ (8 - length f))
    ∙ ap (sign_of negative) (digits_from-magnitude w f h)

-- The fraction that is printed: without its trailing zeros, but with two digits at least.
abbrev fraction : Str → Str
fraction f = pad_end 2 (strip_trailing f)

pad_end-number :
    (s : Str)
    → length s ≤ 8
    → (number (pad_end 2 s) * 10 ^ (8 - length (pad_end 2 s)) ≡ number s * 10 ^ (8 - length s))
      × (1 ≤ length (pad_end 2 s))
      × (length (pad_end 2 s) ≤ 8)
unfolding pad_end
pad_end-number s h =
    let k = 2 - length s in
    let l : length (s ++ replicate k b'0') ≡ length s + k =
      omega (arith, length-append {0} s (replicate k b'0'), length-replicate {0} {A = ℕ} k b'0') in
    let n : number (s ++ replicate k b'0') ≡ number s * 10 ^ k =
      rw (number-append s (replicate k b'0'), length-replicate {A = ℕ} k b'0')
        (omega (arith, number-zeros k)) in
    let p : 10 ^ k * 10 ^ (8 - (length s + k)) ≡ 10 ^ (8 - length s) =
      let e : k + (8 - (length s + k)) ≡ 8 - length s = omega arith in
      rw (← pow_add k (8 - (length s + k)), e) in
    rw (l, n)
      (
        mul_assoc (number s) (10 ^ k) (10 ^ (8 - (length s + k))) ∙ ap (λ (t : ℕ). number s * t) p,
        omega arith,
        omega arith,
      )

cut_dot-digits : (w f : Str) → AreDigits w → cut_dot (w ++ b'.' ∷ f) ≡ (w, some f)
unfolding cut_dot
cut_dot-digits [] f h = refl
cut_dot-digits (c ∷ w) f h = ground (arith, cut_dot-digits w f h.2)

strip_sign-minus_if :
    (negative : Bool) (w s : Str)
    → AreDigits w
    → 1 ≤ length w
    → strip_sign (minus_if negative (w ++ s)) ≡ (negative, w ++ s)
unfolding strip_sign minus_if
strip_sign-minus_if true w s h one = refl
strip_sign-minus_if false [] s h one = absurd (omega arith)
strip_sign-minus_if false (c ∷ w) s h one = ground arith

is_zeros-number : (s : Str) → is_zeros s ≡ true → number s ≡ 0
unfolding is_zeros
is_zeros-number [] h = refl
is_zeros-number (c ∷ []) h = ground arith
is_zeros-number (c ∷ d ∷ s) h =
    let z : c - b'0' ≡ 0 = ground arith in
    rw z (omega (arith, is_zeros-number (d ∷ s) (ground arith)))

pad_end-AreDigits : (w : ℕ) (s : Str) → AreDigits s → AreDigits (pad_end w s)
unfolding pad_end
pad_end-AreDigits w s h =
    AreDigits-append s (replicate (w - length s) b'0') h (AreDigits-zeros (w - length s))

fraction-magnitude :
    (i f : Str)
    → AreDigits i
    → AreDigits f
    → length f ≤ 8
    → (magnitude (strip_leading i) (fraction f) ≡ magnitude i f)
      × (1 ≤ length (fraction f))
      × (length (fraction f) ≤ 8)
      × AreDigits (fraction f)
fraction-magnitude i f hi hf h =
    let (e, le) = strip_trailing-number f hf in
    let t = strip_trailing f in
    let (m, one, few) = pad_end-number t (omega arith) in
    let p : 10 ^ (length f - length t) * 10 ^ (8 - length f) ≡ 10 ^ (8 - length t) =
      let s : length f - length t + (8 - length f) ≡ 8 - length t = omega arith in
      rw (← pow_add (length f - length t) (8 - length f), s) in
    let same_fraction : number t * 10 ^ (8 - length t) ≡ number f * 10 ^ (8 - length f) =
      rw (← p, ← e)
        (sym (mul_assoc (number t) (10 ^ (length f - length t)) (10 ^ (8 - length f)))) in
    (
      rw (strip_leading-number i hi, m, same_fraction),
      one,
      few,
      pad_end-AreDigits 2 t (strip_trailing-AreDigits f hf),
    )

sign_of-zero : (negative : Bool) → sign_of negative 0 ≡ pos 0
unfolding sign_of neg_ℤ
sign_of-zero true = refl
sign_of-zero false = refl

-- The sign that is printed: none for zero.
abbrev printed_sign : Bool → Str → Str → Bool
printed_sign negative w f = negative && (not (is_zeros w) || not (is_zeros f))

printed_sign-magnitude :
    (negative : Bool) (w f : Str)
    → sign_of (printed_sign negative w f) (magnitude w f) ≡ sign_of negative (magnitude w f)
printed_sign-magnitude false w f = refl
printed_sign-magnitude true w f = elim (Bool-cases (is_zeros w)) [
  | inl e ↦ elim (Bool-cases (is_zeros f)) [
    | inl g ↦
        let z : magnitude w f ≡ 0 = rw (is_zeros-number w e, is_zeros-number f g) (omega arith) in
        rw (e, g, z) (sign_of-zero false ∙ sym (sign_of-zero true))
    | inr g ↦ rw (e, g)
  ]
  | inr e ↦ rw e
]

exact-printed :
    (b : Bool) (w f : Str)
    → AreDigits w
    → is_whole w ≡ true
    → 1 ≤ length w
    → AreDigits f
    → 1 ≤ length f
    → length f ≤ 8
    → exact (some (minus_if b (w ++ b'.' ∷ f))) ≡ some (exact_parts b w f)
unfolding exact is_canonical_money is_unsigned_money is_fraction fraction_of
exact-printed b w f hw ww one hf onef few =
    let s = strip_sign-minus_if b w (b'.' ∷ f) hw one in
    let c = cut_dot-digits w f hw in ground (arith, AreDigits-all_digits f hf)

is_whole-nonempty : (w : Str) → is_whole w ≡ true → 1 ≤ length w
unfolding is_whole
is_whole-nonempty [] h = cc
is_whole-nonempty (c ∷ w) h = omega arith

-- One or more digits below ten to the 70 and at most 8 digits behind the point, printed with a
-- sign, are read back as an amount with that sign and that magnitude, and at most 8 digits behind
-- the point.
pub exact-canonical_decimal :
    (i f : Str) (negative : Bool)
    → AreDigits i
    → 1 ≤ length i
    → number i < 10 ^ 70
    → AreDigits f
    → length f ≤ 8
    → (e : Exact) × (exact (some (canonical_decimal i f negative)) ≡ some e)
      × (value e ≡ sign_of negative (magnitude i f))
      × (e.scale ≤ 8)
unfolding canonical_decimal
exact-canonical_decimal i f negative hi one small hf few =
    let w = strip_leading i in
    let g = fraction f in
    let b = printed_sign negative w g in
    let (m, oneg, fewg, hg) = fraction-magnitude i f hi hf few in
    let whole = strip_leading-is_whole i hi one small in
    (
      exact_parts b w g,
      exact-printed b w g (strip_leading-AreDigits i hi) whole (is_whole-nonempty w whole) hg oneg
          fewg,
      value-exact_parts b w g fewg ∙ printed_sign-magnitude negative w g ∙ ap (sign_of negative) m,
      unfold exact_parts in fewg,
    )
