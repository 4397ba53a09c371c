-- ===== src/Prelude/Json.antt =====
-- What `JSON.parse` returns, and the tests that the modelled code makes on it. A property that an
-- object does not have is `none`, which stands for `undefined`.
use Prim.Native.Nat.{ℕ}
use Prim.Native.String.{String}
use mathlib.Core.Bool.{Bool, true, false, ◌&&◌}
use mathlib.Core.Option.{Option, none, some}
use mathlib.Core.List.{List, [], ◌∷◌}
use maintainflow.Prelude.Tests.{leb, ◌==◌, if◌then◌else◌}
use maintainflow.Prelude.Text.{Str, codes, str_eq}

-- A whole number, or the text of any other number (a fraction, a negative one, infinity, NaN).
pub data Num : Type 0 where
  whole : ℕ → Num
  other_number : Str → Num

mutual
  pub data Json : Type 0 where
    null : Json
    bool : Bool → Json
    number : Num → Json
    string : Str → Json
    array : Items → Json
    object : Fields → Json

  pub data Items : Type 0 where
    no_items : Items
    item : Json → Items → Items

  -- No key occurs twice.
  pub data Fields : Type 0 where
    no_fields : Fields
    field : Str → Json → Fields → Fields

abbrev pub list_of_items : Items → List Json
list_of_items no_items = []
list_of_items (item x xs) = x ∷ list_of_items xs

abbrev pub items_of_list : List Json → Items
items_of_list [] = no_items
items_of_list (x ∷ xs) = item x (items_of_list xs)

abbrev pub fields_of_list : List (Str × Json) → Fields
fields_of_list [] = no_fields
fields_of_list ((key, value) ∷ rest) = field key value (fields_of_list rest)

unfoldable pub lookup : Str → Fields → Option Json
lookup key no_fields = none
lookup key (field name value rest) = if str_eq name key then some value else lookup key rest

-- `value[key]`; a value that is not an object has no property.
unfoldable pub get : String → Json → Option Json
unfolding lookup
get key (object fields) = lookup (codes key) fields
get key _ = none

-- `value !== null && typeof value === 'object' && !Array.isArray(value)`.
abbrev pub is_object : Option Json → Bool
is_object (some (object _)) = true
is_object _ = false

abbrev pub as_object : Option Json → Option Json
as_object (some (object fields)) = some (object fields)
as_object _ = none

-- `typeof value === 'string'`.
abbrev pub as_string : Option Json → Option Str
as_string (some (string s)) = some s
as_string _ = none

abbrev pub as_bool : Option Json → Option Bool
as_bool (some (bool b)) = some b
as_bool _ = none

-- `Array.isArray(value)`.
abbrev pub as_array : Option Json → Option (List Json)
as_array (some (array items)) = some (list_of_items items)
as_array _ = none

abbrev pub max_safe_integer : ℕ
max_safe_integer = 9007199254740991

-- `Number.isSafeInteger(value) && value >= 0`.
unfoldable pub safe_count : Num → Option ℕ
safe_count (whole n) = if leb n max_safe_integer then some n else none
safe_count (other_number _) = none

-- `Number.isSafeInteger(value) && value > 0`.
unfoldable pub safe_positive : Num → Option ℕ
safe_positive (whole n) = if leb 1 n && leb n max_safe_integer then some n else none
safe_positive (other_number _) = none

unfoldable pub as_count : Option Json → Option ℕ
unfolding safe_count
as_count (some (number n)) = safe_count n
as_count _ = none

unfoldable pub as_positive : Option Json → Option ℕ
unfolding safe_positive
as_positive (some (number n)) = safe_positive n
as_positive _ = none

-- `value === literal`, for a text and for a whole number.
abbrev pub equals_string : Option Json → Str → Bool
equals_string (some (string s)) t = str_eq s t
equals_string _ t = false

abbrev pub equals_whole : Option Json → ℕ → Bool
equals_whole (some (number (whole n))) m = n == m
equals_whole _ m = false

abbrev pub is_null : Option Json → Bool
is_null (some null) = true
is_null _ = false
