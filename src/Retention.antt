-- ===== src/Retention.antt =====
-- The removal of documents and of stored files: server/core/retention.ts, over the tables that it
-- reads and writes. A table is a list of rows, and an id is a primary key: an update or a deletion
-- by id is of the first row that has it. The locks of the parser and the detaching of a setup
-- source (server/core/parser-setup.ts), the audit and the row locks are not modelled.
pub mod Purge
pub mod Delete
pub mod Count
pub mod Conserve
pub mod Purged
pub mod Sound
pub mod Steps
mod Examples
use maintainflow.Prelude.{
  ℕ, ◌+◌, ◌*◌, ◌^◌, min, Bool, true, false, not, ◌&&◌, ◌||◌, List, [], ◌∷◌, ◌++◌, map, Option, some,
  none, ltb, leb, ◌==◌, if◌then◌else◌,
}
use maintainflow.Prelude.All.{find}
use maintainflow.Prelude.Text.{Str, str_eq}

-- A row of `documents`.
pub record Document : Type 0 where
  pub document_id : Str
  pub workspace : Str
  pub storage_key : Str
  pub pdf_split : Option Str
  pub archive_import : Option Str

-- A row of `pdf_splits` or of `archive_imports`.
pub record Group : Type 0 where
  pub group_id : Str
  pub group_workspace : Str
  pub is_accepted : Bool
  pub source_key : Option Str

pub data QueueStatus : Type 0 where
  waiting given_up : QueueStatus

-- A row of `file_deletions`. The times are in seconds.
pub record Deletion : Type 0 where
  pub deletion_workspace : Str
  pub deletion_key : Str
  pub attempts : ℕ
  pub queue_status : QueueStatus
  pub available_at : ℕ

-- A row of `intake_files`; `is_group` says that an attempt of a split or an archive reserved it.
pub record Intent : Type 0 where
  pub intent_workspace : Str
  pub intent_key : Str
  pub is_group : Bool

-- A row that is derived from a document: an export snapshot, a delivery or a sheet write.
pub record Derived : Type 0 where
  pub derived_workspace : Str
  pub of_documents : List Str

-- A row of `split_suggestions`.
pub record Suggestion : Type 0 where
  pub suggestion_workspace : Str
  pub source_document : Str
  pub is_taken : Bool
  pub is_cancelled : Bool

-- A row of `pdf_split_children` or of `archive_import_entries`, with the name that it keeps.
pub record Child : Type 0 where
  pub child_workspace : Str
  pub child_document : Str
  pub document_name : Option Str

-- The tables, and the keys of the files that are stored.
pub record Store : Type 0 where
  pub documents : List Document
  pub pdf_splits : List Group
  pub archive_imports : List Group
  pub file_deletions : List Deletion
  pub intake_files : List Intent
  pub derived : List Derived
  pub suggestions : List Suggestion
  pub split_children : List Child
  pub archive_entries : List Child
  pub stored : List Str

-- SQL on a list: `exists`, `delete` and `update` of one row, `delete` of all rows.
unfoldable pub any {ℓ} : {A : Type ℓ} → (A → Bool) → List A → Bool
any test [] = false
any test (x ∷ xs) = test x || any test xs

unfoldable pub remove_first {ℓ} : {A : Type ℓ} → (A → Bool) → List A → List A
remove_first test [] = []
remove_first test (x ∷ xs) = let rest = remove_first test xs in if test x then xs else x ∷ rest

unfoldable pub update_first {ℓ} : {A : Type ℓ} → (A → Bool) → (A → A) → List A → List A
update_first test f [] = []
update_first test f (x ∷ xs) =
    let rest = update_first test f xs in if test x then f x ∷ xs else x ∷ rest

unfoldable pub remove_all {ℓ} : {A : Type ℓ} → (A → Bool) → List A → List A
remove_all test [] = []
remove_all test (x ∷ xs) = let rest = remove_all test xs in if test x then rest else x ∷ rest

abbrev pub is_document : Str → Str → Document → Bool
is_document workspace id d = str_eq d.document_id id && str_eq d.workspace workspace

abbrev pub is_group_row : Str → Str → Group → Bool
is_group_row workspace id g = str_eq g.group_id id && str_eq g.group_workspace workspace

abbrev pub is_deletion : Str → Deletion → Bool
is_deletion key e = str_eq e.deletion_key key

-- A new row is due at once.
abbrev pub new_deletion : Str → Str → Deletion
new_deletion workspace key = record {
  deletion_workspace = workspace;
  deletion_key = key;
  attempts = 0;
  queue_status = waiting;
  available_at = 0;
}

-- `insert into file_deletions ... on conflict (storage_key) do nothing`.
unfoldable pub queue_key : Str → Str → List Deletion → List Deletion
unfolding any
queue_key workspace key rows =
    if any (is_deletion key) rows then rows else rows ++ new_deletion workspace key ∷ []

abbrev pub is_member : Str → Option Str → Bool
is_member id none = false
is_member id (some group) = str_eq group id

abbrev pub release_source : Group → Group
release_source g = record g { source_key = none }

-- The source of a group, where it has one and no document of the group is left.
unfoldable pub free_source : Str → Str → List Group → Bool → Option Str
unfolding find
free_source workspace id groups has_members = elim (find (is_group_row workspace id) groups) [
  | none ↦ none
  | some g ↦ if has_members then none else g.source_key
]

abbrev pub in_split : Str → Str → Document → Bool
in_split workspace id d = is_member id d.pdf_split && str_eq d.workspace workspace

abbrev pub in_archive : Str → Str → Document → Bool
in_archive workspace id d = is_member id d.archive_import && str_eq d.workspace workspace

unfoldable pub release_empty_pdf_split : Str → Str → Store → Option Str × Store
unfolding free_source queue_key update_first any
release_empty_pdf_split workspace id st =
    elim (free_source workspace id st.pdf_splits (any (in_split workspace id) st.documents)) [
      | none ↦ (none, st)
      | some key ↦ (
        some key,
        record st {
          file_deletions = queue_key workspace key st.file_deletions;
          pdf_splits = update_first (is_group_row workspace id) release_source st.pdf_splits;
        },
      )
    ]

unfoldable pub release_empty_archive : Str → Str → Store → Option Str × Store
unfolding free_source queue_key update_first any
release_empty_archive workspace id st =
    elim (free_source workspace id st.archive_imports
      (any (in_archive workspace id) st.documents)) [
        | none ↦ (none, st)
        | some key ↦ (
          some key,
          record st {
            file_deletions = queue_key workspace key st.file_deletions;
            archive_imports =
                update_first (is_group_row workspace id) release_source st.archive_imports;
          },
        )
      ]
