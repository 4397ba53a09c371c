-- ===== src/Archive/Spec/Examples.antt =====
-- Tests of the selection of shared/archive-import.ts, and the theorem at a concrete input.
use maintainflow.Archive.{invalid_spec}
use maintainflow.Archive.Spec.{ArchiveImportSpec, parse_archive_import_spec, canonical_value}
use maintainflow.Archive.Spec.Selection.{IsSelection, parse_archive_import_spec-canonical_value}
use maintainflow.Prelude.{ℕ, ◌≡◌, refl, List, [], ◌∷◌, ◌++◌, map, ok, err}
use maintainflow.Prelude.Json.{
  Json, object, array, string, number, whole, fields_of_list, items_of_list,
}
use maintainflow.Prelude.Text.{Str, codes}

abbrev digest : Str
digest = codes "00112233445566778899aabbccddeeff" ++ codes "00112233445566778899aabbccddeeff"

-- The keys in another order than the canonical one.
abbrev selection : List ℕ → Json
selection entries = object (
    fields_of_list (
      (codes "entries", array (items_of_list (map (λ n. number (whole n)) entries)))
      ∷ (codes "sourceSha256", string digest)
      ∷ (codes "mode", string (codes "zip"))
      ∷ (codes "version", number (whole 1))
      ∷ []))

abbrev two_entries : ArchiveImportSpec
two_entries = record { source_sha256 = digest; entries = 2 ∷ 5 ∷ [] }

test_accepted : parse_archive_import_spec (selection (2 ∷ 5 ∷ [])) ≡ ok two_entries
unfolding parse_archive_import_spec
test_accepted = refl

-- The same entry twice, none at all, and one behind the last record.
test_repeated : parse_archive_import_spec (selection (5 ∷ 5 ∷ [])) ≡ err invalid_spec
unfolding parse_archive_import_spec
test_repeated = refl

test_empty : parse_archive_import_spec (selection []) ≡ err invalid_spec
unfolding parse_archive_import_spec
test_empty = refl

test_behind : parse_archive_import_spec (selection (257 ∷ [])) ≡ err invalid_spec
unfolding parse_archive_import_spec
test_behind = refl

parse_archive_import_spec-canonical_value_example :
    IsSelection two_entries
    × (parse_archive_import_spec (canonical_value two_entries) ≡ ok two_entries)
parse_archive_import_spec-canonical_value_example =
    parse_archive_import_spec-canonical_value (selection (2 ∷ 5 ∷ [])) two_entries test_accepted
