-- ===== src/Prelude/All.antt =====
-- A predicate on every element of a list, and the first element that passes a test.
use mathlib.Core.Path.{◌≡◌}
use mathlib.Core.Logic.{inl, inr}
use mathlib.Core.Bool.{Bool, true, false}
use mathlib.Core.List.{List, [], ◌∷◌}
use mathlib.Core.Option.{Option, none, some}
use maintainflow.Prelude.Results.{Result, ok, map_result, bind-ok, ok-Ensures, some-Ensures}
use maintainflow.Prelude.Tests.{Bool-cases, if◌then◌else◌}

abbrev pub All {ℓ} : {A : Type ℓ} → (A → Type 0) → List A → Type 0
All P [] = Unit
All P (x ∷ xs) = P x × All P xs

-- `list.find(test)`.
unfoldable pub find {ℓ} : {A : Type ℓ} → (A → Bool) → List A → Option A
find test [] = none
find test (x ∷ xs) = let rest = find test xs in if test x then some x else rest

pub All-mono {ℓ} :
    {A : Type ℓ} {P Q : A → Type 0} → ((a : A) → P a → Q a) → (xs : List A) → All P xs → All Q xs
All-mono f [] h = tt
All-mono f (x ∷ xs) h = (f x h.0, All-mono f xs h.1)

pub find-All {ℓ} :
    {A : Type ℓ} (P : A → Type 0) (test : A → Bool) (xs : List A) (x : A)
    → All P xs
    → find test xs ≡ some x
    → P x × (test x ≡ true)
unfolding find
find-All P test [] x h e = cc
find-All P test (y ∷ ys) x h e = elim (Bool-cases (test y)) [
  | inl t ↦ let e1 = rw t at e in (some-Ensures P e1 h.0, some-Ensures (λ z. test z ≡ true) e1 t)
  | inr t ↦ find-All P test ys x h.1 (rw t at e)
]

pub find-none {ℓ} :
    {A : Type ℓ} (test : A → Bool) (xs : List A)
    → find test xs ≡ none
    → All (λ x. test x ≡ false) xs
unfolding find
find-none test [] e = tt
find-none test (y ∷ ys) e = elim (Bool-cases (test y)) [
  | inl t ↦ let e1 = rw t at e in cc
  | inr t ↦ (t, find-none test ys (rw t at e))
]

pub map_result-All {ℓ} :
    {E B : Type 0} {A : Type ℓ} (P : B → Type 0) (f : A → Result E B)
    → ((a : A) (b : B) → f a ≡ ok b → P b)
    → (xs : List A) (ys : List B) → map_result f xs ≡ ok ys
    → All P ys
unfolding map_result
map_result-All P f k [] ys h = ok-Ensures (All P) h tt
map_result-All P f k (x ∷ xs) ys h = bind-ok (f x) _ h λ y e h1.
    bind-ok (map_result f xs) _ h1
      λ zs e1 h2. ok-Ensures (All P) h2 (k x y e, map_result-All P f k xs zs e1)
