-- ===== src/Retention/Purged.antt =====
-- What the removals of server/core/retention.ts keep: each file has the uses that it had, and the
-- intents and the stored files are the same.
use maintainflow.Prelude.{
  ◌≤◌, ◌≡◌, ◌∙◌, List, [], ◌∷◌, map, Option, some, none, refl, arith, Option-cases, inl, inr,
}
use maintainflow.Prelude.All.{find}
use maintainflow.Prelude.Text.{Str}
use maintainflow.Retention.{
  Store, any, is_document, free_source, in_split, in_archive, release_empty_pdf_split,
  release_empty_archive,
}
use maintainflow.Retention.Conserve.{uses, drop_document-uses, released-uses}
use maintainflow.Retention.Purge.{
  drop_document, leave_split, leave_archive, purge_document, purge_documents, purge_pdf_split,
  purge_archive_import, is_accepted_row, ids_where, forget_name,
}

-- The second store differs from the first in its tables only, and no file has other uses.
pub record IsMoved (st after : Store) : Type 0 where
  pub same_uses : (k : Str) → uses k after ≡ uses k st
  pub same_intents : after.intake_files ≡ st.intake_files
  pub same_stored : after.stored ≡ st.stored

abbrev pub AtMostOne : Store → Type 0
AtMostOne st = (k : Str) → uses k st ≤ 1

still : (st : Store) → IsMoved st st
still st = record { same_uses = λ k. refl; same_intents = refl; same_stored = refl }

move : (a b c : Store) → IsMoved a b → IsMoved b c → IsMoved a c
move a b c f g = record {
  same_uses = λ k. g.same_uses k ∙ f.same_uses k;
  same_intents = g.same_intents ∙ f.same_intents;
  same_stored = g.same_stored ∙ f.same_stored;
}

pub at_most_one : (a b : Store) → IsMoved a b → AtMostOne a → AtMostOne b
at_most_one a b f one = λ k. omega (arith, f.same_uses k, one k)

release_empty_pdf_split-IsMoved :
    (workspace id : Str) (st : Store)
    → AtMostOne st
    → IsMoved st (release_empty_pdf_split workspace id st).1
unfolding release_empty_pdf_split uses
release_empty_pdf_split-IsMoved workspace id st one =
    let has_members = any (in_split workspace id) st.documents in
    elim (Option-cases (free_source workspace id st.pdf_splits has_members)) [
      | inl e ↦ rw (e, release_empty_pdf_split) (still st)
      | inr (key, e) ↦
          let moved = λ (k : Str).
            released-uses workspace id key k st.pdf_splits st.file_deletions has_members
              (λ j. omega (arith, one j)) e in
          rw (e, release_empty_pdf_split)
            (record {
              same_uses = λ k. omega (arith, moved k);
              same_intents = refl;
              same_stored = refl;
            })
    ]

release_empty_archive-IsMoved :
    (workspace id : Str) (st : Store)
    → AtMostOne st
    → IsMoved st (release_empty_archive workspace id st).1
unfolding release_empty_archive uses
release_empty_archive-IsMoved workspace id st one =
    let has_members = any (in_archive workspace id) st.documents in
    elim (Option-cases (free_source workspace id st.archive_imports has_members)) [
      | inl e ↦ rw (e, release_empty_archive) (still st)
      | inr (key, e) ↦
          let moved = λ (k : Str).
            released-uses workspace id key k st.archive_imports st.file_deletions has_members
              (λ j. omega (arith, one j)) e in
          rw (e, release_empty_archive)
            (record {
              same_uses = λ k. omega (arith, moved k);
              same_intents = refl;
              same_stored = refl;
            })
    ]

leave_split-IsMoved :
    (workspace id : Str) (split : Option Str) (st : Store)
    → AtMostOne st
    → IsMoved st (leave_split workspace id split st).1
unfolding leave_split uses
leave_split-IsMoved workspace id none st one = still st
leave_split-IsMoved workspace id (some split) st one =
    let forgot : Store = record st {
      split_children = map (forget_name workspace id) st.split_children;
    } in
    let moved = release_empty_pdf_split-IsMoved workspace split forgot one in
    record {
      same_uses = moved.same_uses;
      same_intents = moved.same_intents;
      same_stored = moved.same_stored;
    }

leave_archive-IsMoved :
    (workspace id : Str) (archive : Option Str) (st : Store)
    → AtMostOne st
    → IsMoved st (leave_archive workspace id archive st).1
unfolding leave_archive uses
leave_archive-IsMoved workspace id none st one = still st
leave_archive-IsMoved workspace id (some archive) st one =
    let forgot : Store = record st {
      archive_entries = map (forget_name workspace id) st.archive_entries;
    } in
    let moved = release_empty_archive-IsMoved workspace archive forgot one in
    record {
      same_uses = moved.same_uses;
      same_intents = moved.same_intents;
      same_stored = moved.same_stored;
    }

pub purge_document-IsMoved :
    (workspace id : Str) (st : Store) → AtMostOne st → IsMoved st (purge_document workspace id st).1
unfolding purge_document drop_document
purge_document-IsMoved workspace id st one =
    elim (Option-cases (find (is_document workspace id) st.documents)) [
      | inl e ↦ rw (e, purge_document) (still st)
      | inr (d, e) ↦
          let dropped = drop_document workspace id d st in
          let split = (leave_split workspace id d.pdf_split dropped).1 in
          let archive = (leave_archive workspace id d.archive_import split).1 in
          let first : IsMoved st dropped = record {
            same_uses = λ k. drop_document-uses workspace id k d st one e;
            same_intents = refl;
            same_stored = refl;
          } in
          let one1 = at_most_one st dropped first one in
          let second = leave_split-IsMoved workspace id d.pdf_split dropped one1 in
          let one2 = at_most_one dropped split second one1 in
          let third = leave_archive-IsMoved workspace id d.archive_import split one2 in
          rw (e, purge_document)
            (move st dropped archive first (move dropped split archive second third))
    ]

pub purge_documents-IsMoved :
    (workspace : Str) (ids : List Str) (st : Store)
    → AtMostOne st
    → IsMoved st (purge_documents workspace ids st).1
unfolding purge_documents
purge_documents-IsMoved workspace [] st one = still st
purge_documents-IsMoved workspace (id ∷ ids) st one =
    let next = (purge_document workspace id st).1 in
    let first = purge_document-IsMoved workspace id st one in
    move st next (purge_documents workspace ids next).1 first
      (purge_documents-IsMoved workspace ids next (at_most_one st next first one))

pub purge_pdf_split-IsMoved :
    (workspace id : Str) (st : Store)
    → AtMostOne st
    → IsMoved st (purge_pdf_split workspace id st).1
unfolding purge_pdf_split
purge_pdf_split-IsMoved workspace id st one =
    elim (Option-cases (find (is_accepted_row workspace id) st.pdf_splits)) [
      | inl e ↦ rw (e, purge_pdf_split) (still st)
      | inr (g, e) ↦
          let ids = ids_where (in_split workspace id) st.documents in
          let purged = (purge_documents workspace ids st).1 in
          let first = purge_documents-IsMoved workspace ids st one in
          let second =
            release_empty_pdf_split-IsMoved workspace id purged (at_most_one st purged first one) in
          rw (e, purge_pdf_split)
            (move st purged (release_empty_pdf_split workspace id purged).1 first second)
    ]

pub purge_archive_import-IsMoved :
    (workspace id : Str) (st : Store)
    → AtMostOne st
    → IsMoved st (purge_archive_import workspace id st).1
unfolding purge_archive_import
purge_archive_import-IsMoved workspace id st one =
    elim (Option-cases (find (is_accepted_row workspace id) st.archive_imports)) [
      | inl e ↦ rw (e, purge_archive_import) (still st)
      | inr (g, e) ↦
          let ids = ids_where (in_archive workspace id) st.documents in
          let purged = (purge_documents workspace ids st).1 in
          let first = purge_documents-IsMoved workspace ids st one in
          let second =
            release_empty_archive-IsMoved workspace id purged (at_most_one st purged first one) in
          rw (e, purge_archive_import)
            (move st purged (release_empty_archive workspace id purged).1 first second)
    ]
