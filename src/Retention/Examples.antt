-- ===== src/Retention/Examples.antt =====
-- Tests of server/core/retention.ts, and the theorems at concrete inputs.
use maintainflow.Prelude.{
  ◌+◌, ◌≤◌, ◌≡◌, refl, Bool, true, false, ◌||◌, [], ◌∷◌, some, none, arith, Bool-cases, inl, inr,
  map,
}
use maintainflow.Prelude.Text.{Str, codes, str_eq, str_eq_iff}
use maintainflow.Retention.{Store, any}
use maintainflow.Retention.Conserve.{uses}
use maintainflow.Retention.Count.{count, bit}
use maintainflow.Retention.Delete.{complete, delete_stored_file, delete_stored_files}
use maintainflow.Retention.Purge.{purge_document}
use maintainflow.Retention.Sound.{IsSound, is_stored}
use maintainflow.Retention.Steps.{
  start, document_purged, files_deleted, Reaches-IsSound, delete_stored_file-keeps,
}

abbrev workspace : Str
workspace = codes "w"

-- A document of a split, whose source is stored too.
abbrev store : Store
store = record {
  documents =
      record {
        document_id = codes "d";
        workspace = workspace;
        storage_key = codes "w/1";
        pdf_split = some (codes "s");
        archive_import = none;
      }
      ∷ [];
  pdf_splits =
      record {
        group_id = codes "s";
        group_workspace = workspace;
        is_accepted = true;
        source_key = some (codes "w/2");
      }
      ∷ [];
  archive_imports = [];
  file_deletions = [];
  intake_files = [];
  derived = [];
  suggestions = [];
  split_children = [];
  archive_entries = [];
  stored = codes "w/1" ∷ codes "w/2" ∷ [];
}

bit_le : (b : Bool) → bit b ≤ 1
bit_le true = omega arith
bit_le false = omega arith

not_both : (a b k : Str) → str_eq a b ≡ false → bit (str_eq a k) + bit (str_eq b k) ≤ 1
not_both a b k other = elim (Bool-cases (str_eq a k)) [
  | inr t ↦ rw t (omega (arith, bit_le (str_eq b k)))
  | inl t ↦ elim (Bool-cases (str_eq b k)) [
    | inr t1 ↦ rw (t, t1) (omega arith)
    | inl t1 ↦
        let e : a ≡ k = (str_eq_iff a k).0 t in
        let e1 : b ≡ k = (str_eq_iff b k).0 t1 in
        let e2 : str_eq a b ≡ true = (str_eq_iff a b).1 cc in cc
  ]
]

stored_counted : (a b : Bool) → (a || (b || false)) ≡ true → 1 ≤ bit a + bit b
stored_counted a b h = ground arith

-- Each file has one use, and no other text has one.
uses_of_store :
    (k : Str) → uses k store ≡ bit (str_eq (codes "w/1") k) + bit (str_eq (codes "w/2") k)
unfolding uses count
uses_of_store k = omega arith

sound : IsSound store
unfolding any count
sound = record {
  one = λ k. omega (arith, uses_of_store k, not_both (codes "w/1") (codes "w/2") k refl);
  kept = λ k here. omega (
    arith,
    uses_of_store k,
    stored_counted (str_eq (codes "w/1") k) (str_eq (codes "w/2") k) here,
  );
}

abbrev gone : Str → Str → Bool
gone _ _ = true

-- The document is purged, which releases the source too, and both files are removed.
abbrev purged : Store
purged = (purge_document workspace (codes "d") store).1

abbrev cleaned : Store
cleaned =
    (delete_stored_files gone 100 workspace (codes "w/1" ∷ codes "w/2" ∷ []) complete purged).1

test_purge_document :
    map (λ e. e.deletion_key) purged.file_deletions ≡ codes "w/1" ∷ codes "w/2" ∷ []
unfolding purge_document
test_purge_document = refl

test_delete_stored_files : cleaned.stored ≡ []
unfolding purge_document delete_stored_files
test_delete_stored_files = refl

Reaches-IsSound_example : IsSound cleaned
Reaches-IsSound_example = Reaches-IsSound gone store cleaned sound (
    files_deleted 100 workspace (codes "w/1" ∷ codes "w/2" ∷ []) purged
      (document_purged workspace (codes "d") store start))

delete_stored_file-keeps_example :
    is_stored (codes "w/1") (delete_stored_file gone false 100 workspace (codes "w/1") store).1
    ≡ true
unfolding any count
delete_stored_file-keeps_example =
    delete_stored_file-keeps gone false 100 workspace (codes "w/1") (codes "w/1") store sound
      (omega arith) refl
