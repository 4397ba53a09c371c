-- ===== src/Retention/Steps.antt =====
-- The operations of server/core/retention.ts as steps, and what holds after any number of them.
use maintainflow.Prelude.{
  ℕ, ◌≤◌, ◌≡◌, Bool, true, false, not, ◌&&◌, List, [], ◌∷◌, some, refl, arith, Bool-cases,
  Option-cases, inl, inr,
}
use maintainflow.Prelude.All.{find}
use maintainflow.Prelude.Text.{first_of_each, Str, str_eq, str_eq_iff}
use maintainflow.Retention.{Deletion, Store, any, remove_all, is_deletion}
use maintainflow.Retention.Conserve.{is_file, uses}
use maintainflow.Retention.Count.{count}
use maintainflow.Retention.Delete.{
  DeletionStatus, complete, is_due, is_queued_in, release_intent, attempt_removal,
  delete_stored_file, delete_each, delete_stored_files, process_one_file_deletion, worse,
}
use maintainflow.Retention.Purge.{purge_document, purge_pdf_split, purge_archive_import}
use maintainflow.Retention.Purged.{
  purge_document-IsMoved, purge_pdf_split-IsMoved, purge_archive_import-IsMoved,
}
use maintainflow.Retention.Sound.{
  IsSound, IsMoved-IsSound, is_stored, removed, removed-uses, remove_all-any, retried-IsMoved,
  removed-IsSound, release_intent-IsSound,
}

removed_missing : (key : Str) (st : Store) → is_stored key (removed key st) ≡ false
removed_missing key st = elim (Bool-cases (is_stored key (removed key st))) [
  | inl t ↦
      let (_, other) = remove_all-any key key st.stored t in
      let same = (str_eq_iff key key).1 refl in cc
  | inr t ↦ t
]

other_key : (j key k : Str) → str_eq key k ≡ false → str_eq j k ≡ true → str_eq j key ≡ false
other_key j key k other same = elim (Bool-cases (str_eq j key)) [
  | inr t ↦ t
  | inl t ↦
      let e : j ≡ k = (str_eq_iff j k).0 same in
      let e1 : j ≡ key = (str_eq_iff j key).0 t in
      let e2 : str_eq key k ≡ true = (str_eq_iff key k).1 cc in cc
]

remove_all-keeps :
    (key k : Str) (stored : List Str)
    → str_eq key k ≡ false
    → any (λ j. str_eq j k) stored ≡ true
    → any (λ j. str_eq j k) (remove_all (λ j. str_eq j key) stored) ≡ true
unfolding any remove_all
remove_all-keeps key k [] other h = h
remove_all-keeps key k (j ∷ js) other h = elim (Bool-cases (str_eq j k)) [
  | inl t ↦ rw (other_key j key k other t, t)
  | inr t ↦
      let later = remove_all-keeps key k js other (rw t at h) in
      elim (Bool-cases (str_eq j key)) [ inl t1 ↦ rw t1 later | inr t1 ↦ rw (t1, t) later ]
]

release_intent-stored :
    (workspace key : Str) (st : Store) → (release_intent workspace key st).stored ≡ st.stored
unfolding release_intent
release_intent-stored workspace key st =
    elim (Bool-cases (any (is_queued_in workspace key) st.file_deletions)) [
      | inl t ↦ rw (t, release_intent)
      | inr t ↦ rw (t, release_intent)
    ]

-- A file that a document has is not queued.
not_queued :
    (key k : Str) (e : Deletion) (st : Store)
    → IsSound st
    → 1 ≤ count (is_file k) st.documents
    → find (is_deletion key) st.file_deletions ≡ some e
    → str_eq key k ≡ false
unfolding uses
not_queued key k e st sound mine found = elim (Bool-cases (str_eq key k)) [
  | inr t ↦ t
  | inl t ↦ absurd (
      let counted = removed-uses key k e st found in
      let once = sound.one k in omega (arith, mine, once, (rw t at counted)))
]

module _ (gone : Str → Str → Bool) where
  attempt_removal-IsSound :
      (now : ℕ) (workspace key : Str) (e : Deletion) (st : Store)
      → find (is_deletion key) st.file_deletions ≡ some e
      → IsSound st
      → IsSound (attempt_removal gone now workspace key e st).1
  unfolding attempt_removal
  attempt_removal-IsSound now workspace key e st found sound =
      elim (Bool-cases (gone workspace key)) [
        | inl t ↦
            rw (t, attempt_removal)
              (release_intent-IsSound workspace key (removed key st) (removed_missing key st)
                (removed-IsSound workspace key e st found sound))
        | inr t ↦
            rw (t, attempt_removal)
              (IsMoved-IsSound st _ (retried-IsMoved now key e st found) sound)
      ]

  delete_stored_file-IsSound :
      (only_if_due : Bool) (now : ℕ) (workspace key : Str) (st : Store)
      → IsSound st
      → IsSound (delete_stored_file gone only_if_due now workspace key st).1
  unfolding delete_stored_file
  delete_stored_file-IsSound only_if_due now workspace key st sound =
      elim (Option-cases (find (is_deletion key) st.file_deletions)) [
        | inl e ↦ rw (e, delete_stored_file) sound
        | inr (row, e) ↦ elim (Bool-cases (only_if_due && not (is_due now row))) [
          | inl t ↦ rw (e, delete_stored_file, t) sound
          | inr t ↦
              rw (e, delete_stored_file, t)
                (attempt_removal-IsSound now workspace key row st e sound)
        ]
      ]

  delete_each-IsSound :
      (now : ℕ) (workspace : Str) (keys : List Str) (aggregate : DeletionStatus) (st : Store)
      → IsSound st
      → IsSound (delete_each gone now workspace keys aggregate st).1
  unfolding delete_each
  delete_each-IsSound now workspace [] aggregate st sound = sound
  delete_each-IsSound now workspace (key ∷ keys) aggregate st sound =
      let one = delete_stored_file gone false now workspace key st in
      delete_each-IsSound now workspace keys (worse aggregate one.0) one.1
        (delete_stored_file-IsSound false now workspace key st sound)

  delete_stored_files-IsSound :
      (now : ℕ) (workspace : Str) (keys : List Str) (aggregate : DeletionStatus) (st : Store)
      → IsSound st
      → IsSound (delete_stored_files gone now workspace keys aggregate st).1
  unfolding delete_stored_files
  delete_stored_files-IsSound now workspace keys aggregate st sound =
      delete_each-IsSound now workspace (first_of_each [] keys) aggregate st sound

  process_one_file_deletion-IsSound :
      (now : ℕ) (st : Store) → IsSound st → IsSound (process_one_file_deletion gone now st).1
  unfolding process_one_file_deletion
  process_one_file_deletion-IsSound now st sound =
      elim (Option-cases (find (is_due now) st.file_deletions)) [
        | inl e ↦ rw (e, process_one_file_deletion) sound
        | inr (row, e) ↦
            rw (e, process_one_file_deletion)
              (delete_stored_file-IsSound true now row.deletion_workspace row.deletion_key st sound)
      ]

  -- The stores that the operations lead to, in any order and at any times.
  pub data Reaches (st : Store) : Store → Type 0 where
    start : Reaches st st
    document_purged :
        (workspace id : Str) (at : Store)
        → Reaches st at
        → Reaches st (purge_document workspace id at).1
    split_purged :
        (workspace id : Str) (at : Store)
        → Reaches st at
        → Reaches st (purge_pdf_split workspace id at).1
    archive_purged :
        (workspace id : Str) (at : Store)
        → Reaches st at
        → Reaches st (purge_archive_import workspace id at).1
    files_deleted :
        (now : ℕ) (workspace : Str) (keys : List Str) (at : Store)
        → Reaches st at
        → Reaches st (delete_stored_files gone now workspace keys complete at).1
    worker_ran :
        (now : ℕ) (at : Store)
        → Reaches st at
        → Reaches st (process_one_file_deletion gone now at).1

  -- After any sequence of removals, each file still has one use at most, by a document, a group
  -- or the queue, and each stored file has a use or is reserved by an intent: no file is lost
  -- without being queued, and none is queued that something still uses.
  pub Reaches-IsSound : (st after : Store) → IsSound st → Reaches st after → IsSound after
  Reaches-IsSound st after sound start = sound
  Reaches-IsSound st after sound (document_purged workspace id at steps) =
      let before = Reaches-IsSound st at sound steps in
      IsMoved-IsSound at _ (purge_document-IsMoved workspace id at before.one) before
  Reaches-IsSound st after sound (split_purged workspace id at steps) =
      let before = Reaches-IsSound st at sound steps in
      IsMoved-IsSound at _ (purge_pdf_split-IsMoved workspace id at before.one) before
  Reaches-IsSound st after sound (archive_purged workspace id at steps) =
      let before = Reaches-IsSound st at sound steps in
      IsMoved-IsSound at _ (purge_archive_import-IsMoved workspace id at before.one) before
  Reaches-IsSound st after sound (files_deleted now workspace keys at steps) =
      delete_stored_files-IsSound now workspace keys complete at (Reaches-IsSound st at sound steps)
  Reaches-IsSound st after sound (worker_ran now at steps) =
      process_one_file_deletion-IsSound now at (Reaches-IsSound st at sound steps)

  attempt_removal-keeps :
      (now : ℕ) (workspace key k : Str) (e : Deletion) (st : Store)
      → str_eq key k ≡ false
      → is_stored k st ≡ true
      → is_stored k (attempt_removal gone now workspace key e st).1 ≡ true
  unfolding attempt_removal
  attempt_removal-keeps now workspace key k e st other here =
      elim (Bool-cases (gone workspace key)) [
        | inl t ↦
            rw (t, attempt_removal, release_intent-stored workspace key (removed key st))
              (remove_all-keeps key k st.stored other here)
        | inr t ↦ rw (t, attempt_removal) here
      ]

  -- The file of a document that is there stays stored, whatever file is asked to be removed.
  pub delete_stored_file-keeps :
      (only_if_due : Bool) (now : ℕ) (workspace key k : Str) (st : Store)
      → IsSound st
      → 1 ≤ count (is_file k) st.documents
      → is_stored k st ≡ true
      → is_stored k (delete_stored_file gone only_if_due now workspace key st).1 ≡ true
  unfolding delete_stored_file
  delete_stored_file-keeps only_if_due now workspace key k st sound mine here =
      elim (Option-cases (find (is_deletion key) st.file_deletions)) [
        | inl e ↦ rw (e, delete_stored_file) here
        | inr (row, e) ↦ elim (Bool-cases (only_if_due && not (is_due now row))) [
          | inl t ↦ rw (e, delete_stored_file, t) here
          | inr t ↦
              let other = not_queued key k row st sound mine e in
              rw (e, delete_stored_file, t)
                (attempt_removal-keeps now workspace key k row st other here)
        ]
      ]
