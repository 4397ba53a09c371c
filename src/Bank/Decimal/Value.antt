-- ===== src/Bank/Decimal/Value.antt =====
-- An exact amount as a whole number of hundred-millionths, and the operations at that reading.
use native.Mathlib.Nat.{pow-suc, mul_assoc}
use maintainflow.Prelude.{
  ℕ, zero, suc, ◌+◌, ◌-◌, ◌*◌, ◌^◌, ◌≤◌, ◌≡◌, refl, ◌↔◌, true, arith, max, ap, ◌∙◌,
}
use maintainflow.Prelude.Int.{
  ℤ, pos, negsuc, ◌+ℤ◌, neg_ℤ, scale_ℤ, is_zero_ℤ, int_laws, +ℤ_parts, neg_ℤ_parts, scale_ℤ_parts,
}
use maintainflow.Bank.Decimal.{Exact, add, negate, same}

-- The amount in units of 10⁻⁸; the scale of a canonical amount is at most 8.
unfoldable pub value : Exact → ℤ
value a = scale_ℤ a.units (10 ^ (8 - a.scale))

pub pow_add : (a b : ℕ) → 10 ^ (a + b) ≡ 10 ^ a * 10 ^ b
pow_add a zero = let e : a + 0 ≡ a = omega arith in rw e (omega arith)
pow_add a (suc b) =
    let e : a + suc b ≡ suc (a + b) = omega arith in
    rw (e, pow-suc 10 (a + b), pow-suc 10 b, pow_add a b) (mul_assoc (10 ^ a) (10 ^ b) 10)

pub pow_pos : (a : ℕ) → 1 ≤ 10 ^ a
pow_pos zero = omega arith
pow_pos (suc a) = rw (pow-suc 10 a) (omega (arith, pow_pos a))

pub scale_ℤ-+ℤ : (a b : ℤ) (k : ℕ) → scale_ℤ (a +ℤ b) k ≡ scale_ℤ a k +ℤ scale_ℤ b k
scale_ℤ-+ℤ a b k = omega (int_laws, ap (λ (t : ℕ). t * k) (+ℤ_parts a b))

pub scale_ℤ-scale_ℤ : (a : ℤ) (j k : ℕ) → scale_ℤ (scale_ℤ a j) k ≡ scale_ℤ a (j * k)
scale_ℤ-scale_ℤ a j k = omega (int_laws, ap (λ (t : ℕ). t * k) (scale_ℤ_parts a j))

pub scale_ℤ-neg_ℤ : (a : ℤ) (k : ℕ) → scale_ℤ (neg_ℤ a) k ≡ neg_ℤ (scale_ℤ a k)
scale_ℤ-neg_ℤ a k = omega (int_laws, ap (λ (t : ℕ). t * k) (neg_ℤ_parts a))

-- From the scale `s` by way of the scale `m` to hundred-millionths.
pow_lift : (s m : ℕ) → s ≤ m → m ≤ 8 → 10 ^ (m - s) * 10 ^ (8 - m) ≡ 10 ^ (8 - s)
pow_lift s m h k =
    let e : m - s + (8 - m) ≡ 8 - s = omega arith in rw (← pow_add (m - s) (8 - m), e)

-- The sum of two amounts with at most 8 digits behind the point is as many hundred-millionths as
-- both together.
pub value-add : (a b : Exact) → a.scale ≤ 8 → b.scale ≤ 8 → value (add a b) ≡ value a +ℤ value b
unfolding value add
value-add a b ha hb =
    let m = max a.scale b.scale in
    scale_ℤ-+ℤ (scale_ℤ a.units (10 ^ (m - a.scale))) (scale_ℤ b.units (10 ^ (m - b.scale)))
      (10 ^ (8 - m))
    ∙ rw (
      scale_ℤ-scale_ℤ a.units (10 ^ (m - a.scale)) (10 ^ (8 - m)),
      scale_ℤ-scale_ℤ b.units (10 ^ (m - b.scale)) (10 ^ (8 - m)),
      pow_lift a.scale m (omega arith) (omega arith),
      pow_lift b.scale m (omega arith) (omega arith),
    )

pub scale-add : (a b : Exact) → a.scale ≤ 8 → b.scale ≤ 8 → (add a b).scale ≤ 8
unfolding add
scale-add a b ha hb = omega arith

pub value-negate : (a : Exact) → value (negate a) ≡ neg_ℤ (value a)
unfolding value negate
value-negate a = scale_ℤ-neg_ℤ a.units (10 ^ (8 - a.scale))

pub scale-negate : (a : Exact) → (negate a).scale ≡ a.scale
unfolding negate
scale-negate a = refl

is_zero_ℤ-scale_ℤ : (a : ℤ) (k : ℕ) → 1 ≤ k → is_zero_ℤ (scale_ℤ a k) ≡ is_zero_ℤ a
unfolding scale_ℤ
is_zero_ℤ-scale_ℤ (pos n) k h = grind arith
is_zero_ℤ-scale_ℤ (negsuc n) k h = grind arith

is_zero_ℤ-difference : (a b : ℤ) → (is_zero_ℤ (a +ℤ neg_ℤ b) ≡ true) ↔ (a ≡ b)
unfolding ◌+ℤ◌ neg_ℤ
is_zero_ℤ-difference a b = ground arith

is_zero_ℤ-value : (a : Exact) → is_zero_ℤ (value a) ≡ is_zero_ℤ a.units
unfolding value
is_zero_ℤ-value a = is_zero_ℤ-scale_ℤ a.units (10 ^ (8 - a.scale)) (pow_pos (8 - a.scale))

-- Two amounts with at most 8 digits behind the point are the same exactly if they are the same
-- number of hundred-millionths.
pub same_iff : (a b : Exact) → a.scale ≤ 8 → b.scale ≤ 8 → (same a b ≡ true) ↔ (value a ≡ value b)
unfolding same
same_iff a b ha hb =
    let e = value-add a (negate b) ha (rw scale-negate hb) in
    rw (← is_zero_ℤ-value (add a (negate b)), e, value-negate b)
      (is_zero_ℤ-difference (value a) (value b))
