-- ===== src/Retention/Purge.antt =====
-- `purgeDocument`, `purgePdfSplit` and `purgeArchiveImport` of server/core/retention.ts.
use maintainflow.Prelude.{
  ℕ, Bool, true, false, not, ◌&&◌, ◌||◌, List, [], ◌∷◌, ◌++◌, map, Option, some, none,
  if◌then◌else◌, length,
}
use maintainflow.Prelude.All.{find}
use maintainflow.Prelude.Text.{Str, str_eq, first_of_each}
use maintainflow.Retention.{
  Document, Group, Derived, Suggestion, Child, Store, remove_first, remove_all, is_document,
  is_group_row, queue_key, in_split, in_archive, release_empty_pdf_split, release_empty_archive,
}

abbrev pub names_document : Str → List Str → Bool
names_document id [] = false
names_document id (d ∷ ds) = str_eq d id || names_document id ds

abbrev pub is_derived : Str → Str → Derived → Bool
is_derived workspace id d = str_eq d.derived_workspace workspace && names_document id d.of_documents

-- `update split_suggestions set state = 'cancelled' ...`.
abbrev pub cancel : Str → Str → Suggestion → Suggestion
cancel workspace id s =
    if str_eq s.suggestion_workspace workspace && str_eq s.source_document id && not s.is_taken
    then record s { is_cancelled = true }
    else s

-- `update ... set document_name = null where document_id = ...`.
abbrev pub forget_name : Str → Str → Child → Child
forget_name workspace id c =
    if str_eq c.child_document id && str_eq c.child_workspace workspace
    then record c { document_name = none }
    else c

-- Everything up to the release of the groups.
unfoldable pub drop_document : Str → Str → Document → Store → Store
unfolding remove_first remove_all queue_key
drop_document workspace id d st = record st {
  suggestions = map (cancel workspace id) st.suggestions;
  derived = remove_all (is_derived workspace id) st.derived;
  file_deletions = queue_key workspace d.storage_key st.file_deletions;
  documents = remove_first (is_document workspace id) st.documents;
}

unfoldable pub leave_split : Str → Str → Option Str → Store → Option Str × Store
unfolding release_empty_pdf_split
leave_split workspace id none st = (none, st)
leave_split workspace id (some split) st =
    release_empty_pdf_split workspace split
      (record st { split_children = map (forget_name workspace id) st.split_children })

unfoldable pub leave_archive : Str → Str → Option Str → Store → Option Str × Store
unfolding release_empty_archive
leave_archive workspace id none st = (none, st)
leave_archive workspace id (some archive) st =
    release_empty_archive workspace archive
      (record st { archive_entries = map (forget_name workspace id) st.archive_entries })

abbrev pub key_list : Option Str → List Str
key_list none = []
key_list (some key) = key ∷ []

-- The keys of the files to remove, where the document is there.
unfoldable pub purge_document : Str → Str → Store → Option (List Str) × Store
unfolding find drop_document leave_split leave_archive
purge_document workspace id st = elim (find (is_document workspace id) st.documents) [
  | none ↦ (none, st)
  | some d ↦
      let dropped = drop_document workspace id d st in
      let split = leave_split workspace id d.pdf_split dropped in
      let archive = leave_archive workspace id d.archive_import split.1 in
      (some (d.storage_key ∷ key_list split.0 ++ key_list archive.0), archive.1)
]

abbrev pub some_keys : Option (List Str) → List Str
some_keys none = []
some_keys (some keys) = keys

-- The loop over the documents of a group.
unfoldable pub purge_documents : Str → List Str → Store → List Str × Store
unfolding purge_document
purge_documents workspace [] st = ([], st)
purge_documents workspace (id ∷ ids) st =
    let first = purge_document workspace id st in
    let rest = purge_documents workspace ids first.1 in (some_keys first.0 ++ rest.0, rest.1)

unfoldable pub ids_where : (Document → Bool) → List Document → List Str
ids_where test [] = []
ids_where test (d ∷ ds) =
    let rest = ids_where test ds in if test d then d.document_id ∷ rest else rest

abbrev pub is_accepted_row : Str → Str → Group → Bool
is_accepted_row workspace id g = is_group_row workspace id g && g.is_accepted

-- The number of documents and the keys of the files to remove, `[...new Set(storageKeys)]`.
unfoldable pub purge_pdf_split : Str → Str → Store → Option (ℕ × List Str) × Store
unfolding find purge_documents ids_where first_of_each release_empty_pdf_split
purge_pdf_split workspace id st = elim (find (is_accepted_row workspace id) st.pdf_splits) [
  | none ↦ (none, st)
  | some g ↦
      let ids = ids_where (in_split workspace id) st.documents in
      let purged = purge_documents workspace ids st in
      let source = release_empty_pdf_split workspace id purged.1 in
      (some (length ids, first_of_each [] (purged.0 ++ key_list source.0)), source.1)
]

unfoldable pub purge_archive_import : Str → Str → Store → Option (ℕ × List Str) × Store
unfolding find purge_documents ids_where first_of_each release_empty_archive
purge_archive_import workspace id st =
    elim (find (is_accepted_row workspace id) st.archive_imports) [
      | none ↦ (none, st)
      | some g ↦
          let ids = ids_where (in_archive workspace id) st.documents in
          let purged = purge_documents workspace ids st in
          let source = release_empty_archive workspace id purged.1 in
          (some (length ids, first_of_each [] (purged.0 ++ key_list source.0)), source.1)
    ]
