-- ===== src/Csv/Quote.antt =====
-- Quoted tokens: how a cell is written, and how it is read.
use maintainflow.Prelude.{
  ℕ, Bool, not, ◌&&◌, ◌||◌, [], ◌∷◌, ◌++◌, Option, some, none, ◌==◌, if◌then◌else◌,
}
use maintainflow.Prelude.Text.{Str}

abbrev pub quote : ℕ
quote = 34

-- `[',', '\r', '\n'].includes(c)`.
abbrev pub is_separator : ℕ → Bool
is_separator c = c == 44 || c == 13 || c == 10

-- `String(value).replaceAll('"', '""')`.
unfoldable pub escape : Str → Str
escape [] = []
escape (c ∷ s) = let rest = escape s in if c == quote then quote ∷ quote ∷ rest else c ∷ rest

-- The `quote` of `renderExport`.
unfoldable pub csv_quote : Str → Str
unfolding escape
csv_quote value = quote ∷ escape value ++ quote ∷ []

-- `value.replace(/""/g, '"')`; the flag says that one quote of a pair stands in front.
unfoldable pub unescape : Bool → Str → Str
unescape pending [] = if pending then quote ∷ [] else []
unescape pending (c ∷ s) =
    let rest = unescape (not pending && (c == quote)) s in
    if pending
    then (if c == quote then quote ∷ rest else quote ∷ c ∷ rest)
    else if c == quote
    then rest
    else c ∷ rest

abbrev pub put_front : Str → Option (Str × Str) → Option (Str × Str)
put_front w none = none
put_front w (some (inner, rest)) = some (w ++ inner, rest)

-- The loop behind an opening quote: what stands in front of the closing quote, and behind it. The flag
-- says that a quote stands in front, which closes the cell unless another follows.
unfoldable pub take_quoted : Bool → Str → Option (Str × Str)
take_quoted pending [] = if pending then some ([], []) else none
take_quoted pending (c ∷ s) =
    let more = take_quoted (not pending && (c == quote)) s in
    if pending
    then (if c == quote then put_front (quote ∷ quote ∷ []) more else some ([], c ∷ s))
    else if c == quote
    then more
    else put_front (c ∷ []) more

-- The loop over a cell without quotes.
unfoldable pub take_plain : Str → Option (Str × Str)
take_plain [] = some ([], [])
take_plain (c ∷ s) =
    let more = take_plain s in
    if is_separator c
    then some ([], c ∷ s)
    else if c == quote
    then none
    else put_front (c ∷ []) more

-- `\r\n` or one code unit.
unfoldable pub skip_separator : Str → Str
skip_separator [] = []
skip_separator (c ∷ []) = []
skip_separator (c ∷ d ∷ s) = if c == 13 && d == 10 then s else d ∷ s
