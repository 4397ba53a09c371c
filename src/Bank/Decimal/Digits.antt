-- ===== src/Bank/Decimal/Digits.antt =====
-- Runs of digits and the numbers that they stand for.
use native.Mathlib.Nat.{pow-suc, pow-le-pow_right}
use maintainflow.Prelude.{
  ℕ, zero, suc, ◌+◌, ◌-◌, ◌*◌, ◌/◌, ◌%◌, ◌^◌, ◌≤◌, ◌<◌, ◌≡◌, refl, true, false, [], ◌∷◌, ◌++◌,
  arith, length, length-append, replicate, ltb, ◌==◌, Bool-cases, inl, inr, take, drop,
}
use maintainflow.Prelude.Text.{Str, is_digit}
use maintainflow.Bank.Decimal.{all_digits, digits_from, is_whole}
use maintainflow.Bank.Decimal.Value.{pow_add}
use maintainflow.Bank.Decimal.Print.{
  strip_leading, strip_trailing, put_unless_zero, digits_fuel, digits_of,
}

abbrev pub AreDigits : Str → Type 0
AreDigits [] = Unit
AreDigits (c ∷ s) = (b'0' ≤ c) × (c ≤ b'9') × AreDigits s

-- The number that the digits stand for.
abbrev pub number : Str → ℕ
number [] = 0
number (c ∷ s) = (c - b'0') * 10 ^ length s + number s

pub digits_from-number : (n : ℕ) (s : Str) → digits_from n s ≡ n * 10 ^ length s + number s
unfolding digits_from
digits_from-number n [] = omega arith
digits_from-number n (c ∷ s) =
    rw (digits_from-number (n * 10 + (c - b'0')) s, pow-suc 10 (length s)) (omega arith)

pub all_digits-AreDigits : (s : Str) → all_digits s ≡ true → AreDigits s
unfolding all_digits is_digit
all_digits-AreDigits [] h = tt
all_digits-AreDigits (c ∷ s) h = ground (arith, all_digits-AreDigits s)

pub AreDigits-all_digits : (s : Str) → AreDigits s → all_digits s ≡ true
unfolding all_digits is_digit
AreDigits-all_digits [] h = refl
AreDigits-all_digits (c ∷ s) h = ground (arith, AreDigits-all_digits s)

pub AreDigits-append : (s t : Str) → AreDigits s → AreDigits t → AreDigits (s ++ t)
AreDigits-append [] t h k = k
AreDigits-append (c ∷ s) t h k = (h.0, h.1, AreDigits-append s t h.2 k)

pub AreDigits-take : (n : ℕ) (s : Str) → AreDigits s → AreDigits (take n s)
AreDigits-take zero s h = tt
AreDigits-take (suc n) [] h = tt
AreDigits-take (suc n) (c ∷ s) h = (h.0, h.1, AreDigits-take n s h.2)

pub AreDigits-drop : (n : ℕ) (s : Str) → AreDigits s → AreDigits (drop n s)
AreDigits-drop zero s h = h
AreDigits-drop (suc n) [] h = tt
AreDigits-drop (suc n) (c ∷ s) h = AreDigits-drop n s h.2

pub AreDigits-zeros : (n : ℕ) → AreDigits (replicate n b'0')
AreDigits-zeros zero = tt
AreDigits-zeros (suc n) = (omega arith, omega arith, AreDigits-zeros n)

pub number-append : (s t : Str) → number (s ++ t) ≡ number s * 10 ^ length t + number t
number-append [] t = omega arith
number-append (c ∷ s) t =
    rw (number-append s t, length-append s t, pow_add (length s) (length t)) (omega arith)

pub number-zeros : (n : ℕ) → number (replicate n b'0') ≡ 0
number-zeros zero = refl
number-zeros (suc n) = omega (arith, number-zeros n)

pub number-lt : (s : Str) → AreDigits s → number s < 10 ^ length s
number-lt [] h = omega arith
number-lt (c ∷ s) h = rw (pow-suc 10 (length s)) (grind (arith, number-lt s h.2))

-- A leading digit other than 0 bounds the length.
pub strip_leading-number : (s : Str) → AreDigits s → number (strip_leading s) ≡ number s
unfolding strip_leading
strip_leading-number [] h = refl
strip_leading-number (c ∷ []) h = refl
strip_leading-number (c ∷ d ∷ s) h = ground (arith, strip_leading-number (d ∷ s) h.2)

exponent_lt : (a b : ℕ) → 10 ^ a < 10 ^ b → a < b
exponent_lt a b h = elim (Bool-cases (ltb a b)) [
  | inl e ↦ ground arith
  | inr e ↦
      let up : 10 ^ b ≤ 10 ^ a = pow-le-pow_right (omega arith) (ground arith) in
      absurd (omega arith)
]

exponent_of_digits : (d k b n : ℕ) → 1 ≤ d → d * 10 ^ k + n < 10 ^ b → k < b
exponent_of_digits d k b n one h = exponent_lt k b (grind arith)

digit_is : (c : ℕ) → b'0' ≤ c → c ≤ b'9' → is_digit c ≡ true
unfolding is_digit
digit_is c h k = ground arith

is_whole-leading :
    (c : ℕ) (s : Str)
    → AreDigits (c ∷ s)
    → (c == b'0') ≡ false
    → number (c ∷ s) < 10 ^ 70
    → is_whole (c ∷ s) ≡ true
unfolding is_whole
is_whole-leading c s h nz lt =
    let short : length s < 70 =
      exponent_of_digits (c - b'0') (length s) 70 (number s) (ground arith) lt in
    ground (arith, AreDigits-all_digits (c ∷ s) h)

-- A number below 10⁷⁰ with its leading zeros removed is the whole part of a canonical amount.
pub strip_leading-is_whole :
    (s : Str) → AreDigits s → 1 ≤ length s → number s < 10 ^ 70 → is_whole (strip_leading s) ≡ true
unfolding strip_leading is_whole
strip_leading-is_whole [] h one lt = absurd (omega arith)
strip_leading-is_whole (c ∷ []) h one lt = ground (arith, AreDigits-all_digits (c ∷ []) h)
strip_leading-is_whole (c ∷ d ∷ s) h one lt = elim (Bool-cases (c == b'0')) [
  | inl e ↦
      rw (e, digit_is d h.2.0 h.2.1)
        (strip_leading-is_whole (d ∷ s) h.2 (omega arith) (omega (arith, lt)))
  | inr e ↦ rw e (is_whole-leading c (d ∷ s) h e lt)
]

pub strip_leading-AreDigits : (s : Str) → AreDigits s → AreDigits (strip_leading s)
unfolding strip_leading
strip_leading-AreDigits [] h = tt
strip_leading-AreDigits (c ∷ []) h = h
strip_leading-AreDigits (c ∷ d ∷ s) h = ground (arith, strip_leading-AreDigits (d ∷ s) h.2)

pub combine : (d a g m : ℕ) {s n : ℕ} → a * g ≡ s → m * g ≡ n → (d * a + m) * g ≡ d * s + n
combine d a g m p q = rw (← p, ← q) (omega arith)

put_unless_zero-number :
    (c : ℕ) (s t : Str)
    → b'0' ≤ c
    → number t * 10 ^ (length s - length t) ≡ number s
    → length t ≤ length s
    → (number (put_unless_zero c t) * 10 ^ (suc (length s) - length (put_unless_zero c t))
        ≡ number (c ∷ s))
      × (length (put_unless_zero c t) ≤ suc (length s))
unfolding put_unless_zero
put_unless_zero-number c s [] b h le = elim (Bool-cases (c == b'0')) [
  | inl e ↦ let z : c - b'0' ≡ 0 = ground arith in rw (e, z) (omega arith, omega arith)
  | inr e ↦
      let l : suc (length s) - 1 ≡ length s = omega arith in
      let f : length s - 0 ≡ length s = omega arith in
      rw e (rw l (omega (arith, rw f at h)), omega arith)
]
put_unless_zero-number c s (d ∷ r) b h le =
    let t = d ∷ r in
    let gap = length s - length t in
    let l : suc (length s) - suc (length t) ≡ gap = omega arith in
    let p : 10 ^ length t * 10 ^ gap ≡ 10 ^ length s =
      let e : length t + gap ≡ length s = omega arith in rw (← pow_add (length t) gap, e) in
    (rw l (combine (c - b'0') (10 ^ length t) (10 ^ gap) (number t) p h), omega arith)

-- The trailing zeros that are removed from a fraction do not change its value.
pub strip_trailing-number :
    (s : Str)
    → AreDigits s
    → (number (strip_trailing s) * 10 ^ (length s - length (strip_trailing s)) ≡ number s)
      × (length (strip_trailing s) ≤ length s)
unfolding strip_trailing
strip_trailing-number [] h = (omega arith, omega arith)
strip_trailing-number (c ∷ s) h =
    let (e, le) = strip_trailing-number s h.2 in
    put_unless_zero-number c s (strip_trailing s) h.0 e le

put_unless_zero-AreDigits :
    (c : ℕ) (t : Str) → b'0' ≤ c → c ≤ b'9' → AreDigits t → AreDigits (put_unless_zero c t)
unfolding put_unless_zero
put_unless_zero-AreDigits c [] h k d = ground arith
put_unless_zero-AreDigits c (x ∷ t) h k d = (h, k, d)

pub strip_trailing-AreDigits : (s : Str) → AreDigits s → AreDigits (strip_trailing s)
unfolding strip_trailing
strip_trailing-AreDigits [] h = tt
strip_trailing-AreDigits (c ∷ s) h =
    put_unless_zero-AreDigits c (strip_trailing s) h.0 h.1 (strip_trailing-AreDigits s h.2)

digits_fuel-number : (k n : ℕ) → n < k → number (digits_fuel k n) ≡ n
unfolding digits_fuel
digits_fuel-number zero n h = absurd (omega arith)
digits_fuel-number (suc k) n h = elim (Bool-cases (ltb n 10)) [
  | inl e ↦ rw e (omega arith)
  | inr e ↦
      let big : 10 ≤ n = ground arith in
      rw (e, number-append (digits_fuel k (n / 10)) ((b'0' + n % 10) ∷ []))
        (omega (arith, digits_fuel-number k (n / 10) (omega arith)))
]

digits_fuel-AreDigits : (k n : ℕ) → AreDigits (digits_fuel k n)
unfolding digits_fuel
digits_fuel-AreDigits zero n = tt
digits_fuel-AreDigits (suc k) n = elim (Bool-cases (ltb n 10)) [
  | inl e ↦ rw e (ground arith)
  | inr e ↦ rw e (
      AreDigits-append (digits_fuel k (n / 10)) ((b'0' + n % 10) ∷ [])
        (digits_fuel-AreDigits k (n / 10)) (omega arith))
]

pub digits_of-number : (n : ℕ) → number (digits_of n) ≡ n
unfolding digits_of
digits_of-number n = digits_fuel-number (suc n) n (omega arith)

pub digits_of-AreDigits : (n : ℕ) → AreDigits (digits_of n)
unfolding digits_of
digits_of-AreDigits n = digits_fuel-AreDigits (suc n) n
