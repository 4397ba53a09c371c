-- ===== src/Archive/Path.antt =====
-- The paths in an archive: `decodeName`, `safeArchivePath` and the tests for macOS metadata of
-- server/core/zip-reader.ts.
use mathlib.Core.List.{append_assoc}
use maintainflow.Prelude.{
  ℕ, ◌≡◌, Bool, true, false, not, ◌&&◌, ◌||◌, List, [], ◌∷◌, ◌++◌, Option, some, none, length, ltb,
  leb, ◌==◌, if◌then◌else◌, Result, ok, err, ◌>>◌, refl, sym, ◌∙◌, arith,
}
use maintainflow.Prelude.Text.{Str, codes, str_eq, split, starts_with}
use maintainflow.Archive.{Fault, fail, fail_if, path_encoding, max_path_bytes}
use maintainflow.Archive.Bytes.{Bytes}

-- What the runtime supplies: a strict `TextDecoder` of UTF-8, the length of a text in UTF-8, and
-- `normalize('NFC')`.
pub record TextHost : Type 0 where
  pub decode_utf8 : Bytes → Option Str
  pub byte_length : Str → ℕ
  pub nfc : Str → Str

abbrev pub is_empty_text : Str → Bool
is_empty_text [] = true
is_empty_text (_ ∷ _) = false

abbrev is_high : ℕ → Bool
is_high c = leb 0xd800 c && leb c 0xdbff

abbrev is_low : ℕ → Bool
is_low c = leb 0xdc00 c && leb c 0xdfff

abbrev is_control : ℕ → Bool
is_control c = leb c 0x1f || (leb 0x7f c && leb c 0x9f)

-- `/[\u0000-\u001f\u007f-\u009f\uD800-\uDFFF]/u`: a control character or half of a surrogate pair;
-- the flag says that the first half of a pair stands in front.
unfoldable pub has_bad_point : Bool → Str → Bool
has_bad_point pending [] = pending
has_bad_point pending (c ∷ s) =
    let rest = has_bad_point (not pending && is_high c) s in
    if pending && is_low c then rest else pending || is_control c || is_low c || rest

unfoldable pub has_backslash : Str → Bool
has_backslash [] = false
has_backslash (c ∷ s) = c == b'\\' || has_backslash s

-- `/^[A-Za-z]:/`.
unfoldable pub has_drive : Str → Bool
has_drive (c ∷ d ∷ _) = ((leb b'A' c && leb c b'Z') || (leb b'a' c && leb c b'z')) && (d == b':')
has_drive _ = false

-- `name.replace(/\/$/, '')`.
unfoldable pub drop_slash : Str → Str
drop_slash [] = []
drop_slash (c ∷ []) = if c == b'/' then [] else c ∷ []
drop_slash (c ∷ d ∷ s) = c ∷ drop_slash (d ∷ s)

-- `name.endsWith('/')`.
unfoldable pub ends_with_slash : Str → Bool
ends_with_slash [] = false
ends_with_slash (c ∷ []) = c == b'/'
ends_with_slash (c ∷ d ∷ s) = ends_with_slash (d ∷ s)

-- `part !== '' && part !== '.' && part !== '..'`.
unfoldable pub is_safe_part : Str → Bool
is_safe_part part =
    not (is_empty_text part) && not (str_eq part (codes ".")) && not (str_eq part (codes ".."))

unfoldable pub all_safe_parts : List Str → Bool
unfolding is_safe_part
all_safe_parts [] = true
all_safe_parts (part ∷ parts) = is_safe_part part && all_safe_parts parts

module _ (host : TextHost) where
  open host use {decode_utf8, byte_length}

  unfoldable pub decode_name : Bytes → Result Fault Str
  unfolding has_bad_point
  decode_name raw = elim (decode_utf8 raw) [
    | none ↦ err (fail path_encoding)
    | some name ↦ (do
      fail_if (is_empty_text name || ltb max_path_bytes (length raw) || has_bad_point false name)
          path_encoding
      ok name)
  ]

  unfoldable pub safe_archive_path : Str → Bool
  unfolding has_bad_point has_backslash has_drive drop_slash all_safe_parts split starts_with
  safe_archive_path name =
      not (is_empty_text name || ltb max_path_bytes (byte_length name) || has_bad_point false name)
      && not (has_backslash name || starts_with name (codes "/") || has_drive name)
      && all_safe_parts (split b'/' (drop_slash name))

abbrev pub last_part : List Str → Str
last_part [] = []
last_part (part ∷ []) = part
last_part (_ ∷ part ∷ parts) = last_part (part ∷ parts)

unfoldable pub has_part : Str → List Str → Bool
has_part wanted [] = false
has_part wanted (part ∷ parts) = str_eq part wanted || has_part wanted parts

unfoldable pub is_mac_archive_metadata_path : Str → Bool
unfolding has_part split starts_with
is_mac_archive_metadata_path name =
    let parts = split b'/' name in
    has_part (codes "__MACOSX") parts
    || str_eq (last_part parts) (codes ".DS_Store")
    || starts_with (last_part parts) (codes "._")

-- The head of an AppleDouble file, or of a `.DS_Store` file; the numbers of the source are the
-- big-endian readings of these bytes.
unfoldable pub is_mac_archive_metadata : Str → Bytes → Bool
unfolding is_mac_archive_metadata_path
is_mac_archive_metadata name bytes =
    is_mac_archive_metadata_path name
    && ((leb 26 (length bytes)
          && starts_with bytes (0x00 ∷ 0x05 ∷ 0x16 ∷ 0x07 ∷ 0x00 ∷ 0x02 ∷ 0x00 ∷ 0x00 ∷ []))
        || (str_eq (last_part (split b'/' name)) (codes ".DS_Store")
            && leb 8 (length bytes)
            && starts_with bytes (0 ∷ 0 ∷ 0 ∷ 1 ∷ codes "Bud1")))

-- A directory, as the names from the root down to it, the last one first.
abbrev pub Directory : Type 0
Directory = List Str

abbrev pub up : Directory → Directory
up [] = []
up (_ ∷ above) = above

-- One step of a path, as a file system takes it.
abbrev pub enter : Directory → Str → Directory
enter at part =
    if is_empty_text part || str_eq part (codes ".")
    then at
    else if str_eq part (codes "..")
    then up at
    else part ∷ at

abbrev pub walk : Directory → List Str → Directory
walk at [] = at
walk at (part ∷ parts) = walk (enter at part) parts

-- `below` is `at`, or is inside it.
abbrev pub IsInside : Directory → Directory → Type 0
IsInside at below = (more : Directory) × (below ≡ more ++ at)

walk_safe :
    (at : Directory) (parts : List Str) → all_safe_parts parts ≡ true → IsInside at (walk at parts)
unfolding all_safe_parts is_safe_part
walk_safe at [] h = ([], refl)
walk_safe at (part ∷ parts) h =
    let down : enter at part ≡ part ∷ at = ground arith in
    let (more, e) = walk_safe (part ∷ at) parts (ground arith) in
    (more ++ part ∷ [], rw down (e ∙ sym (append_assoc more (part ∷ []) at)))

module _ (host : TextHost) where
  -- A safe path, walked from any directory, stays inside that directory.
  pub safe_archive_path-IsInside :
      (at : Directory) (name : Str)
      → safe_archive_path host name ≡ true
      → IsInside at (walk at (split b'/' (drop_slash name)))
  unfolding safe_archive_path
  safe_archive_path-IsInside at name h = walk_safe at (split b'/' (drop_slash name)) (ground arith)
