-- ===== src/Retention/Count.antt =====
-- The rows of the tables of server/core/retention.ts that pass a test, counted.
use maintainflow.Prelude.{
  ℕ, ◌+◌, ◌≤◌, ◌≡◌, Bool, true, false, List, [], ◌∷◌, ◌++◌, some, refl, arith, Bool-cases, inl, inr,
  some-Ensures,
}
use maintainflow.Prelude.All.{find}
use maintainflow.Prelude.Text.{Str, str_eq}
use maintainflow.Retention.{
  Deletion, any, remove_first, update_first, is_deletion, queue_key, new_deletion,
}

abbrev pub bit : Bool → ℕ
bit true = 1
bit false = 0

unfoldable pub count {ℓ} : {A : Type ℓ} → (A → Bool) → List A → ℕ
count test [] = 0
count test (x ∷ xs) = bit (test x) + count test xs

pub remove_first-count {ℓ} :
    {A : Type ℓ} (test p : A → Bool) (xs : List A) (x : A)
    → find test xs ≡ some x
    → count p xs ≡ bit (p x) + count p (remove_first test xs)
unfolding find count remove_first
remove_first-count test p [] x e = cc
remove_first-count test p (y ∷ ys) x e = elim (Bool-cases (test y)) [
  | inl t ↦
      rw t (some-Ensures (λ z. bit (p y) + count p ys ≡ bit (p z) + count p ys) (rw t at e) refl)
  | inr t ↦ let later = remove_first-count test p ys x (rw t at e) in rw t (omega (arith, later))
]

pub update_first-count {ℓ} :
    {A : Type ℓ} (test p : A → Bool) (f : A → A) (xs : List A) (x : A)
    → find test xs ≡ some x
    → count p xs + bit (p (f x)) ≡ bit (p x) + count p (update_first test f xs)
unfolding find count update_first
update_first-count test p f [] x e = cc
update_first-count test p f (y ∷ ys) x e = elim (Bool-cases (test y)) [
  | inl t ↦ rw t (
      some-Ensures
        (λ z. bit (p y) + count p ys + bit (p (f z)) ≡ bit (p z) + (bit (p (f y)) + count p ys))
        (rw t at e) (omega arith))
  | inr t ↦ let later = update_first-count test p f ys x (rw t at e) in rw t (omega (arith, later))
]

pub count-append {ℓ} :
    {A : Type ℓ} (p : A → Bool) (xs ys : List A) → count p (xs ++ ys) ≡ count p xs + count p ys
unfolding count
count-append p [] ys = omega arith
count-append p (x ∷ xs) ys = omega (arith, count-append p xs ys)

pub any-count {ℓ} : {A : Type ℓ} (p : A → Bool) (xs : List A) → any p xs ≡ true → 1 ≤ count p xs
unfolding any count
any-count p [] h = cc
any-count p (x ∷ xs) h = elim (Bool-cases (p x)) [
  | inl t ↦ rw t (omega arith)
  | inr t ↦ rw t (let later = any-count p xs (rw t at h) in omega (arith, later))
]

pub find-test {ℓ} :
    {A : Type ℓ} (test : A → Bool) (xs : List A) (x : A) → find test xs ≡ some x → test x ≡ true
unfolding find
find-test test [] x e = cc
find-test test (y ∷ ys) x e = elim (Bool-cases (test y)) [
  | inl t ↦ some-Ensures (λ z. test z ≡ true) (rw t at e) t
  | inr t ↦ find-test test ys x (rw t at e)
]

-- A key is queued at most once more, and is queued afterwards where it was not.
pub queue_key-count :
    (workspace key k : Str) (rows : List Deletion)
    → any (is_deletion key) rows ≡ false
    → count (is_deletion k) (queue_key workspace key rows)
      ≡ count (is_deletion k) rows + bit (str_eq key k)
unfolding queue_key count
queue_key-count workspace key k rows fresh =
    rw (fresh, queue_key)
      (omega (arith, count-append (is_deletion k) rows (new_deletion workspace key ∷ [])))

-- Removing rows that are not counted.
pub remove_first-other {ℓ} :
    {A : Type ℓ} (test p : A → Bool) (xs : List A)
    → ((x : A) → test x ≡ true → p x ≡ false)
    → count p (remove_first test xs) ≡ count p xs
unfolding count remove_first
remove_first-other test p [] other = refl
remove_first-other test p (x ∷ xs) other = elim (Bool-cases (test x)) [
  | inl t ↦ rw (t, other x t) (omega arith)
  | inr t ↦ rw t (omega (arith, remove_first-other test p xs other))
]
