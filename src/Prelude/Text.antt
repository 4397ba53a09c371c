-- ===== src/Prelude/Text.antt =====
-- JavaScript strings as lists of UTF-16 code units, with the built-in operations that the
-- modelled code calls.
use Prim.Native.Char.{code}
use Prim.Native.Nat.{ℕ, ◌+◌, ◌-◌, ◌*◌}
use Prim.Native.String.{String}
use mathlib.Core.Path.{◌≡◌, refl}
use mathlib.Core.Bool.{Bool, true, false, ◌&&◌, ◌||◌}
use mathlib.Core.List.{List, [], ◌∷◌, ◌++◌, reverse, reverse-append}
use mathlib.Core.Logic.{◌↔◌, inl, inr}
use native.Mathlib.Omega.{arith}
use maintainflow.Prelude.Tests.{Bool-cases, ltb, leb, ◌==◌, if◌then◌else◌}

abbrev pub Str : Type 0
Str = List ℕ

-- A literal of ASCII characters.
abbrev pub codes : String → Str
codes String.[] = []
codes (String.◌∷◌ c s) = code c ∷ codes s

-- `===` on strings.
abbrev pub str_eq : Str → Str → Bool
str_eq [] [] = true
str_eq [] (_ ∷ _) = false
str_eq (_ ∷ _) [] = false
str_eq (a ∷ s) (b ∷ t) = (a == b) && str_eq s t

-- `\s` of a regular expression, and what `trim` removes.
unfoldable pub is_space : ℕ → Bool
is_space c =
    (leb 9 c && leb c 13)
    || c == 32
    || c == 0xa0
    || c == 0x1680
    || (leb 0x2000 c && leb c 0x200a)
    || c == 0x2028
    || c == 0x2029
    || c == 0x202f
    || c == 0x205f
    || c == 0x3000
    || c == 0xfeff

-- `\d` of a regular expression.
unfoldable pub is_digit : ℕ → Bool
is_digit c = leb b'0' c && leb c b'9'

unfoldable pub drop_spaces : Str → Str
unfolding is_space
drop_spaces [] = []
drop_spaces (c ∷ s) = if is_space c then drop_spaces s else c ∷ s

unfoldable pub trim : Str → Str
unfolding drop_spaces
trim s = reverse (drop_spaces (reverse (drop_spaces s)))

-- `text.replace(/\s+/gu, ' ')`; the flag says that a space has just been written.
unfoldable pub fold_spaces : Bool → Str → Str
unfolding is_space
fold_spaces inside [] = []
fold_spaces inside (c ∷ s) =
    let word = c ∷ fold_spaces false s in
    let gap = fold_spaces true s in if is_space c then (if inside then gap else 32 ∷ gap) else word

-- `t` is a prefix of `s`: `s.startsWith(t)`.
unfoldable pub starts_with : Str → Str → Bool
starts_with s [] = true
starts_with [] (_ ∷ _) = false
starts_with (a ∷ s) (b ∷ t) = (a == b) && starts_with s t

-- `s.includes(t)`.
unfoldable pub includes : Str → Str → Bool
unfolding starts_with
includes [] t = starts_with [] t
includes (a ∷ s) t = starts_with (a ∷ s) t || includes s t

abbrev pub push_head : ℕ → List Str → List Str
push_head c [] = (c ∷ []) ∷ []
push_head c (w ∷ ws) = (c ∷ w) ∷ ws

-- `s.split(sep)` for a separator of one code unit; never empty.
unfoldable pub split : ℕ → Str → List Str
split sep [] = [] ∷ []
split sep (c ∷ s) = let rest = split sep s in if c == sep then [] ∷ rest else push_head c rest

-- `/^[0-9a-f]*$/`
abbrev pub all_hex : Str → Bool
all_hex [] = true
all_hex (c ∷ s) = ((leb b'0' c && leb c b'9') || (leb b'a' c && leb c b'f')) && all_hex s

unfoldable pub is_listed : Str → List Str → Bool
is_listed s [] = false
is_listed s (t ∷ ts) = str_eq s t || is_listed s ts

-- `[...new Set(list)]`, with what was seen before.
unfoldable pub first_of_each : List Str → List Str → List Str
unfolding is_listed
first_of_each seen [] = []
first_of_each seen (s ∷ rest) =
    let others = first_of_each (s ∷ seen) rest in
    let same = first_of_each seen rest in if is_listed s seen then same else s ∷ others

abbrev pub IsFreeOf : ℕ → Str → Type 0
IsFreeOf sep [] = Unit
IsFreeOf sep (c ∷ s) = ((c == sep) ≡ false) × IsFreeOf sep s

pub split-free : (sep : ℕ) (w : Str) → IsFreeOf sep w → split sep w ≡ w ∷ []
unfolding split
split-free sep [] h = refl
split-free sep (c ∷ w) h = rw (h.0, split-free sep w h.1)

pub split-append :
    (sep : ℕ) (w s : Str) → IsFreeOf sep w → split sep (w ++ sep ∷ s) ≡ w ∷ split sep s
unfolding split
split-append sep [] s h = ground arith
split-append sep (c ∷ w) s h = rw (h.0, split-append sep w s h.1)

drop_spaces-concat :
    (xs : Str) (c : ℕ) → is_space c ≡ false → (t : Str) × (drop_spaces (xs ++ c ∷ []) ≡ t ++ c ∷ [])
unfolding drop_spaces
drop_spaces-concat [] c h = ([], rw h)
drop_spaces-concat (x ∷ xs) c h = elim (Bool-cases (is_space x)) [
  | inl e ↦ rw e (drop_spaces-concat xs c h)
  | inr e ↦ (x ∷ xs, rw e)
]

-- A text that begins with no space keeps its first code unit when it is trimmed.
pub trim-first : (c : ℕ) (s : Str) → is_space c ≡ false → (t : Str) × (trim (c ∷ s) ≡ c ∷ t)
unfolding trim drop_spaces
trim-first c s h =
    let (t, e) = drop_spaces-concat (reverse s) c h in
    (reverse t, rw h (rw (reverse-append (c ∷ []) s, e) (reverse-append t (c ∷ []))))

-- `a < b` on strings: by the first code unit that differs.
unfoldable pub str_ltb : Str → Str → Bool
str_ltb [] [] = false
str_ltb [] (_ ∷ _) = true
str_ltb (_ ∷ _) [] = false
str_ltb (a ∷ s) (b ∷ t) = ltb a b || ((a == b) && str_ltb s t)

-- ASCII letters in lower case; other code units stay.
unfoldable pub lower_ascii : ℕ → ℕ
lower_ascii c = if leb b'A' c && leb c b'Z' then c + 32 else c

-- `\w` of a regular expression.
unfoldable pub is_word : ℕ → Bool
is_word c =
    (leb b'0' c && leb c b'9')
    || (leb b'A' c && leb c b'Z')
    || (leb b'a' c && leb c b'z')
    || c == b'_'

pub str_eq_iff : (s t : Str) → (str_eq s t ≡ true) ↔ (s ≡ t)
str_eq_iff [] [] = ground arith
str_eq_iff [] (b ∷ t) = ground arith
str_eq_iff (a ∷ s) [] = ground arith
str_eq_iff (a ∷ s) (b ∷ t) = ground (arith, str_eq_iff s t)

-- `/^\d*$/`
unfoldable pub only_digits : Str → Bool
unfolding is_digit
only_digits [] = true
only_digits (c ∷ s) = is_digit c && only_digits s

-- `Number(text)` of digits, read on from `n`.
unfoldable pub digits_value : Str → ℕ → ℕ
digits_value [] n = n
digits_value (c ∷ cs) n = digits_value cs (n * 10 + (c - b'0'))
