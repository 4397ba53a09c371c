-- ===== src/Prelude/Sort.antt =====
-- The stable sort by a number, with the greatest in front.
use Prim.Native.Nat.{ℕ, ◌≤◌}
use mathlib.Core.Path.{◌≡◌, refl}
use mathlib.Core.Logic.{◌≢◌, inl, inr}
use mathlib.Core.List.{List, [], ◌∷◌}
use mathlib.Core.Option.{Option, none, some}
use native.Mathlib.Omega.{arith}
use maintainflow.Prelude.All.{All, All-mono}
use maintainflow.Prelude.Results.{some-Ensures}
use maintainflow.Prelude.Tests.{Bool-cases, Option-cases, ltb, not_ltb, ltb→lt, if◌then◌else◌}

abbrev pub first_of : {A : Type 0} → List A → Option A
first_of [] = none
first_of (x ∷ xs) = some x

module _ {A : Type 0} (key : A → ℕ) where
  unfoldable pub insert_by : A → List A → List A
  insert_by x [] = x ∷ []
  insert_by x (y ∷ rest) =
      let later = insert_by x rest in if ltb (key x) (key y) then y ∷ later else x ∷ y ∷ rest

  unfoldable pub sort_by : List A → List A
  unfolding insert_by
  sort_by [] = []
  sort_by (x ∷ xs) = insert_by x (sort_by xs)

  insert_by-All : (P : A → Type 0) (x : A) (xs : List A) → P x → All P xs → All P (insert_by x xs)
  unfolding insert_by
  insert_by-All P x [] p h = (p, tt)
  insert_by-All P x (y ∷ rest) p h = elim (Bool-cases (ltb (key x) (key y))) [
    | inl t ↦ rw t (h.0, insert_by-All P x rest p h.1)
    | inr t ↦ rw t (p, h)
  ]

  pub sort_by-All : (P : A → Type 0) (xs : List A) → All P xs → All P (sort_by xs)
  unfolding sort_by
  sort_by-All P [] h = tt
  sort_by-All P (x ∷ xs) h = insert_by-All P x (sort_by xs) h.0 (sort_by-All P xs h.1)

  pub first_of-All : (P : A → Type 0) (xs : List A) (x : A) → All P xs → first_of xs ≡ some x → P x
  first_of-All P [] x h e = cc
  first_of-All P (y ∷ ys) x h e = some-Ensures P e h.0

  insert_by-first_of :
      (x : A) (xs : List A) (z : A)
      → first_of (insert_by x xs) ≡ some z
      → (key x ≤ key z) × ((y : A) → first_of xs ≡ some y → key y ≤ key z)
  unfolding insert_by
  insert_by-first_of x [] z e = (some-Ensures (λ w. key x ≤ key w) e (omega arith), λ y e1. cc)
  insert_by-first_of x (y ∷ rest) z e = elim (Bool-cases (ltb (key x) (key y))) [
    | inl t ↦
        let below = ltb→lt (key x) (key y) t in
        some-Ensures
          (λ w. (key x ≤ key w) × ((v : A) → first_of (y ∷ rest) ≡ some v → key v ≤ key w))
          (rw t at e)
          (omega (arith, below), λ v e1. some-Ensures (λ w. key w ≤ key y) e1 (omega arith))
    | inr t ↦
        let below = not_ltb (key x) (key y) t in
        some-Ensures
          (λ w. (key x ≤ key w) × ((v : A) → first_of (y ∷ rest) ≡ some v → key v ≤ key w))
          (rw t at e)
          (omega arith, λ v e1. some-Ensures (λ w. key w ≤ key x) e1 (omega (arith, below)))
  ]

  insert_by-some : (x : A) (xs : List A) → first_of (insert_by x xs) ≢ none
  unfolding insert_by
  insert_by-some x [] = λ e. cc
  insert_by-some x (y ∷ rest) = elim (Bool-cases (ltb (key x) (key y))) [
    | inl t ↦ rw t (λ e. cc)
    | inr t ↦ rw t (λ e. cc)
  ]

  pub sort_by-none : (xs : List A) → first_of (sort_by xs) ≡ none → xs ≡ []
  unfolding sort_by
  sort_by-none [] e = refl
  sort_by-none (x ∷ xs) e = absurd (insert_by-some x (sort_by xs) e)

  -- The first has the greatest key.
  pub sort_by-first_of :
      (xs : List A) (z : A) → first_of (sort_by xs) ≡ some z → All (λ x. key x ≤ key z) xs
  unfolding sort_by
  sort_by-first_of [] z e = tt
  sort_by-first_of (x ∷ xs) z e =
      let (mine, others) = insert_by-first_of x (sort_by xs) z e in
      elim (Option-cases (first_of (sort_by xs))) [
        | inl e1 ↦ let empty = sort_by-none xs e1 in (mine, rw empty tt)
        | inr (y, e1) ↦
            let below = others y e1 in
            (mine, All-mono (λ x1 le. omega (arith, le, below)) xs (sort_by-first_of xs y e1))
      ]
