-- ===== src/Archive/Spec.antt =====
-- The selection of entries to import: `archiveImportSpecSchema` and `canonicalArchiveImportSpec` of
-- shared/archive-import.ts. `JSON.stringify` is a parameter.
pub mod Selection
mod Examples
use maintainflow.Archive.{ArchiveImportValidationReason, invalid_spec, max_records}
use maintainflow.Prelude.{
  ℕ, Bool, true, false, ◌&&◌, ◌||◌, List, [], ◌∷◌, map, Result, ok, err, ◌>>=◌, ◌>>◌, require, want,
  map_result, leb, ltb, ◌==◌, length,
}
use maintainflow.Prelude.Json.{
  Json, Items, Fields, no_fields, field, object, array, string, number, whole, get, as_string,
  as_array, equals_string, equals_whole, items_of_list, list_of_items, fields_of_list,
}
use maintainflow.Prelude.Text.{Str, all_hex, codes, str_eq}

abbrev pub max_archive_documents : ℕ
max_archive_documents = 20

-- The mode and the version are those of the schema.
pub record ArchiveImportSpec : Type 0 where
  pub source_sha256 : Str
  pub entries : List ℕ

-- `/^[0-9a-f]{64}$/`
abbrev pub is_sha256 : Str → Bool
is_sha256 s = length s == 64 && all_hex s

abbrev pub is_record_index : ℕ → Bool
is_record_index n = leb 1 n && leb n max_records

unfoldable pub entry_index : Json → Result ArchiveImportValidationReason ℕ
entry_index (number (whole n)) = do require (is_record_index n) invalid_spec; ok n
entry_index _ = err invalid_spec

-- `entries.every((entry, index) => index === 0 || entry > entries[index - 1])`.
unfoldable pub is_increasing : List ℕ → Bool
is_increasing [] = true
is_increasing (n ∷ []) = true
is_increasing (n ∷ m ∷ rest) = ltb n m && is_increasing (m ∷ rest)

abbrev is_spec_key : Str → Bool
is_spec_key key =
    str_eq key (codes "mode")
    || str_eq key (codes "version")
    || str_eq key (codes "sourceSha256")
    || str_eq key (codes "entries")

-- A strict object has no other key.
unfoldable pub has_spec_keys_only : Json → Bool
has_spec_keys_only (object no_fields) = true
has_spec_keys_only (object (field key value rest)) =
    is_spec_key key && has_spec_keys_only (object rest)
has_spec_keys_only _ = false

-- `archiveImportSpecSchema.safeParse(value)`.
unfoldable pub parse_archive_import_spec :
    Json → Result ArchiveImportValidationReason ArchiveImportSpec
unfolding get entry_index map_result is_increasing has_spec_keys_only
parse_archive_import_spec value = do
  require (equals_string (get "mode" value) (codes "zip")) invalid_spec
  require (equals_whole (get "version" value) 1) invalid_spec
  require (has_spec_keys_only value) invalid_spec
  sha ← want (as_string (get "sourceSha256" value)) invalid_spec
  require (is_sha256 sha) invalid_spec
  items ← want (as_array (get "entries" value)) invalid_spec
  entries ← map_result entry_index items
  require (leb 1 (length entries) && leb (length entries) max_archive_documents) invalid_spec
  require (is_increasing entries) invalid_spec
  ok (record { source_sha256 = sha; entries = entries })

-- `{mode: 'zip', version: 1, sourceSha256, entries}`.
abbrev pub canonical_value : ArchiveImportSpec → Json
canonical_value spec = object (
    fields_of_list (
      (codes "mode", string (codes "zip"))
      ∷ (codes "version", number (whole 1))
      ∷ (codes "sourceSha256", string spec.source_sha256)
      ∷ (codes "entries", array (items_of_list (map (λ n. number (whole n)) spec.entries)))
      ∷ []))

unfoldable pub canonical_archive_import_spec :
    (Json → Str) → Json → Result ArchiveImportValidationReason Str
unfolding parse_archive_import_spec
canonical_archive_import_spec stringify value = do
  spec ← parse_archive_import_spec value
  ok (stringify (canonical_value spec))
