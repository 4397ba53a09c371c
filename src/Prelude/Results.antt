-- ===== src/Prelude/Results.antt =====
-- Code that throws: a value, or the error that was thrown.
use mathlib.Core.Path.{◌≡◌, refl}
use mathlib.Core.Logic.{◌⊎◌, inl, inr}
use mathlib.Core.Bool.{Bool, true, false}
use mathlib.Core.List.{List, [], ◌∷◌}
use mathlib.Core.Option.{Option, none, some}

pub data Result (E A : Type 0) : Type 0 where
  ok : A → Result E A
  err : E → Result E A

infixl 5 ◌>>=◌ ◌>>◌
abbrev pub ◌>>=◌ : {E A B : Type 0} → Result E A → (A → Result E B) → Result E B
ok a >>= f = f a
err e >>= f = err e

abbrev pub ◌>>◌ : {E B : Type 0} → Result E (Unit {0}) → Result E B → Result E B
m >> k = m >>= λ _. k

-- `if (!test) throw e;`
abbrev pub require : {E : Type 0} → Bool → E → Result E (Unit {0})
require true e = ok tt
require false e = err e

-- `if (test) throw e;`
abbrev pub refuse : {E : Type 0} → Bool → E → Result E (Unit {0})
refuse true e = err e
refuse false e = ok tt

-- A value that must be there: `if (!value) throw e;`
abbrev pub want : {E A : Type 0} → Option A → E → Result E A
want none e = err e
want (some a) e = ok a

-- `list.map(f)` where `f` may throw.
unfoldable pub map_result {ℓ} :
    {E B : Type 0} {A : Type ℓ} → (A → Result E B) → List A → Result E (List B)
map_result f [] = ok []
map_result f (x ∷ xs) = let rest = map_result f xs in do y ← f x; ys ← rest; ok (y ∷ ys)

-- `P` holds of the value, where there is one.
abbrev pub Ensures : {E A : Type 0} → (A → Type 0) → Result E A → Type 0
Ensures P (ok a) = P a
Ensures P (err e) = Unit

pub Result-cases :
    {E A : Type 0} (r : Result E A) → ((a : A) × (r ≡ ok a)) ⊎ ((e : E) × (r ≡ err e))
Result-cases (ok a) = inl (a, refl)
Result-cases (err e) = inr (e, refl)

pub err-ok : {E A P : Type 0} {e : E} {a : A} → ◌≡◌ {A = Result E A} (err e) (ok a) → P
err-ok h = cc

-- The steps of a `do` block that is accepted.
pub bind-ok :
    {E A B P : Type 0} (m : Result E A) (f : A → Result E B) {b : B}
    → (m >>= f) ≡ ok b
    → ((a : A) → m ≡ ok a → f a ≡ ok b → P)
    → P
bind-ok (ok a) f h k = k a refl h
bind-ok (err e) f h k = cc

pub refuse-ok :
    {E B P : Type 0} (t : Bool) (e : E) (k : Result E B) {b : B}
    → (refuse t e >> k) ≡ ok b
    → (t ≡ false → k ≡ ok b → P)
    → P
refuse-ok true e k h p = cc
refuse-ok false e k h p = p refl h

pub seq-ok :
    {E B : Type 0} (m : Result E (Unit {0})) (k : Result E B) {b : B} → (m >> k) ≡ ok b → k ≡ ok b
seq-ok (ok tt) k h = h
seq-ok (err e) k h = cc

-- A fact about the value that is returned.
pub ok-Ensures :
    {E A : Type 0} (P : A → Type 0) {a b : A} → ◌≡◌ {A = Result E A} (ok a) (ok b) → P a → P b
ok-Ensures P {a} {b} h p = let e : a ≡ b = cc in rw e at p

pub some-Ensures {ℓ} : {A : Type ℓ} (P : A → Type 0) {a b : A} → some a ≡ some b → P a → P b
some-Ensures P {a} {b} h p = let e : a ≡ b = cc in rw e at p

pub require-ok :
    {E B P : Type 0} (t : Bool) (e : E) (k : Result E B) {b : B}
    → (require t e >> k) ≡ ok b
    → (t ≡ true → k ≡ ok b → P)
    → P
require-ok true e k h p = p refl h
require-ok false e k h p = cc

pub require-true : {E : Type 0} (t : Bool) (e : E) → require t e ≡ ok tt → t ≡ true
require-true true e h = refl
require-true false e h = cc

pub want-some : {E A : Type 0} (o : Option A) (e : E) {a : A} → want o e ≡ ok a → o ≡ some a
want-some none e h = cc
want-some (some a) e h = ok-Ensures (λ b. some a ≡ some b) h refl
