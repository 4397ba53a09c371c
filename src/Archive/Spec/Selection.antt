-- ===== src/Archive/Spec/Selection.antt =====
-- What a selection that `canonicalArchiveImportSpec` of shared/archive-import.ts accepts is known to
-- be, and its canonical form.
use maintainflow.Archive.Spec.{
  ArchiveImportSpec, is_sha256, is_record_index, entry_index, is_increasing, max_archive_documents,
  has_spec_keys_only, parse_archive_import_spec, canonical_value,
}
use maintainflow.Prelude.{
  ℕ, ◌≡◌, ◌≤◌, ◌<◌, ◌⊎◌, arith, ==_iff, and_left, and_right, true, ◌&&◌, List, [], ◌∷◌, map, ok,
  map_result, leb, length, refl, bind-ok, require-ok, ok-Ensures, want, err-ok,
}
use maintainflow.Prelude.All.{All, All-mono}
use maintainflow.Prelude.Json.{
  Json, null, bool, string, array, object, number, whole, other_number, get, lookup, as_string,
  as_array, equals_string, equals_whole, items_of_list, list_of_items,
}
use maintainflow.Prelude.Text.{Str, all_hex, codes}

-- A lower-case hexadecimal digit.
abbrev pub IsHexDigit : ℕ → Type 0
IsHexDigit c = ((48 ≤ c) × (c ≤ 57)) ⊎ ((97 ≤ c) × (c ≤ 102))

-- Each number is greater than the one in front of it.
abbrev pub Increasing : List ℕ → Type 0
Increasing [] = Unit
Increasing (n ∷ []) = Unit
Increasing (n ∷ m ∷ rest) = (n < m) × Increasing (m ∷ rest)

-- A selection of 1 to 20 of the records 1 to 256, in their order, of the file with the digest.
pub record IsSelection (spec : ArchiveImportSpec) : Type 0 where
  pub digits : length spec.source_sha256 ≡ 64
  pub digest : All IsHexDigit spec.source_sha256
  pub indices : All (λ n. (1 ≤ n) × (n ≤ 256)) spec.entries
  pub some_entry : 1 ≤ length spec.entries
  pub few : length spec.entries ≤ 20
  pub increasing : Increasing spec.entries

-- The tests of the schema.
record IsTested (spec : ArchiveImportSpec) : Type 0 where
  digest : is_sha256 spec.source_sha256 ≡ true
  indices : All (λ n. is_record_index n ≡ true) spec.entries
  few : (leb 1 (length spec.entries) && leb (length spec.entries) max_archive_documents) ≡ true
  increasing : is_increasing spec.entries ≡ true

hex_lem : (s : Str) → all_hex s ≡ true → All IsHexDigit s
hex_lem [] h = tt
hex_lem (c ∷ s) h = (ground arith, hex_lem s (and_right _ h))

increasing_lem : (ns : List ℕ) → is_increasing ns ≡ true → Increasing ns
unfolding is_increasing
increasing_lem [] h = tt
increasing_lem (n ∷ []) h = tt
increasing_lem (n ∷ m ∷ rest) h = (ground arith, increasing_lem (m ∷ rest) (and_right _ h))

index_lem : (n : ℕ) → is_record_index n ≡ true → (1 ≤ n) × (n ≤ 256)
index_lem n h = ground arith

sha256_lem : (s : Str) → is_sha256 s ≡ true → length s ≡ 64
sha256_lem s h = (==_iff (length s) 64).0 (and_left _ h)

count_lem : (n : ℕ) → (leb 1 n && leb n max_archive_documents) ≡ true → (1 ≤ n) × (n ≤ 20)
count_lem n h = ground arith

IsTested-IsSelection : (spec : ArchiveImportSpec) → IsTested spec → IsSelection spec
IsTested-IsSelection spec tested = record {
  digits = sha256_lem spec.source_sha256 tested.digest;
  digest = hex_lem spec.source_sha256 (and_right _ tested.digest);
  indices = All-mono index_lem spec.entries tested.indices;
  some_entry = (count_lem (length spec.entries) tested.few).0;
  few = (count_lem (length spec.entries) tested.few).1;
  increasing = increasing_lem spec.entries tested.increasing;
}

entry_index-bounds : (value : Json) (n : ℕ) → entry_index value ≡ ok n → is_record_index n ≡ true
unfolding entry_index
entry_index-bounds (number (whole m)) n h =
    require-ok (is_record_index m) _ _ h λ t h1. ok-Ensures (λ k. is_record_index k ≡ true) h1 t
entry_index-bounds (number (other_number s)) n h = err-ok h
entry_index-bounds null n h = err-ok h
entry_index-bounds (bool b) n h = err-ok h
entry_index-bounds (string s) n h = err-ok h
entry_index-bounds (array items) n h = err-ok h
entry_index-bounds (object _) n h = err-ok h

entries_bounded :
    (items : List Json) (entries : List ℕ)
    → map_result entry_index items ≡ ok entries
    → All (λ n. is_record_index n ≡ true) entries
unfolding map_result
entries_bounded [] entries h = ok-Ensures (All (λ n. is_record_index n ≡ true)) h tt
entries_bounded (value ∷ items) entries h = bind-ok (entry_index value) _ h λ n e h1.
    bind-ok (map_result entry_index items) _ h1 λ ns e1 h2.
      ok-Ensures (All (λ n. is_record_index n ≡ true)) h2
        (entry_index-bounds value n e, entries_bounded items ns e1)

entries_read :
    (entries : List ℕ)
    → All (λ n. is_record_index n ≡ true) entries
    → map_result entry_index (list_of_items (items_of_list (map (λ n. number (whole n)) entries)))
      ≡ ok entries
unfolding map_result entry_index
entries_read [] h = refl
entries_read (n ∷ entries) h = rw (h.0, entries_read entries h.1) refl

parse_archive_import_spec-IsTested :
    (value : Json) (spec : ArchiveImportSpec)
    → parse_archive_import_spec value ≡ ok spec
    → IsTested spec
unfolding parse_archive_import_spec
parse_archive_import_spec-IsTested value spec h =
    require-ok (equals_string (get "mode" value) (codes "zip")) _ _ h λ _ h1.
      require-ok (equals_whole (get "version" value) 1) _ _ h1 λ _ h2.
        require-ok (has_spec_keys_only value) _ _ h2 λ _ h3.
          bind-ok (want (as_string (get "sourceSha256" value)) _) _ h3 λ sha _ h4.
            require-ok (is_sha256 sha) _ _ h4 λ digest h5.
              bind-ok (want (as_array (get "entries" value)) _) _ h5 λ items _ h6.
                bind-ok (map_result entry_index items) _ h6 λ entries e h7.
                  require-ok (leb 1 (length entries) && leb (length entries) max_archive_documents)
                    _ _ h7
                    λ few h8. require-ok (is_increasing entries) _ _ h8 λ increasing h9.
                      ok-Ensures IsTested h9 (record {
                        digest = digest;
                        indices = entries_bounded items entries e;
                        few = few;
                        increasing = increasing;
                      })

parse-canonical_value :
    (spec : ArchiveImportSpec)
    → IsTested spec
    → parse_archive_import_spec (canonical_value spec) ≡ ok spec
unfolding parse_archive_import_spec get lookup has_spec_keys_only
parse-canonical_value spec known =
    rw (known.digest, entries_read spec.entries known.indices, known.few, known.increasing) refl

-- A selection that is accepted has a SHA-256 digest, and at most 20 record numbers, at least one of
-- them, each from 1 to 256 and greater than the one in front of it; and the canonical form, which
-- is what is stored of it, is accepted again as the same selection.
pub parse_archive_import_spec-canonical_value :
    (value : Json) (spec : ArchiveImportSpec)
    → parse_archive_import_spec value ≡ ok spec
    → IsSelection spec × (parse_archive_import_spec (canonical_value spec) ≡ ok spec)
parse_archive_import_spec-canonical_value value spec h =
    let known = parse_archive_import_spec-IsTested value spec h in
    (IsTested-IsSelection spec known, parse-canonical_value spec known)
