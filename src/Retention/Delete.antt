-- ===== src/Retention/Delete.antt =====
-- `deleteStoredFile`, `deleteStoredFiles` and `processOneFileDeletion` of
-- server/core/retention.ts. The removal from the private storage is a parameter: whether the file
-- of a key is gone afterwards, removed now or missing before.
use maintainflow.Prelude.{
  ℕ, ◌+◌, ◌*◌, ◌^◌, min, Bool, true, false, not, ◌&&◌, List, [], ◌∷◌, some, none, leb,
  if◌then◌else◌,
}
use maintainflow.Prelude.All.{find}
use maintainflow.Prelude.Text.{first_of_each, Str, str_eq}
use maintainflow.Retention.{
  Deletion, QueueStatus, waiting, given_up, Intent, Store, any, remove_first, update_first,
  remove_all, is_deletion,
}

pub data DeletionStatus : Type 0 where
  complete pending failed : DeletionStatus

abbrev pub is_waiting : QueueStatus → Bool
is_waiting waiting = true
is_waiting given_up = false

-- `status = 'pending' and available_at <= clock_timestamp()`.
abbrev pub is_due : ℕ → Deletion → Bool
is_due now e = is_waiting e.queue_status && leb e.available_at now

-- The row after a removal that failed.
abbrev pub retry_later : ℕ → Deletion → Deletion
retry_later now e = record e {
  attempts = e.attempts + 1;
  queue_status = if leb 10 (e.attempts + 1) then given_up else waiting;
  available_at = now + min 3600 (2 ^ (e.attempts + 1) * 10);
}

abbrev pub status_of : QueueStatus → DeletionStatus
status_of waiting = pending
status_of given_up = failed

abbrev pub is_group_intent : Str → Str → Intent → Bool
is_group_intent workspace key i =
    str_eq i.intent_workspace workspace && str_eq i.intent_key key && i.is_group

abbrev pub is_queued_in : Str → Str → Deletion → Bool
is_queued_in workspace key e = is_deletion key e && str_eq e.deletion_workspace workspace

-- The second transaction: the bytes that a group reserved, unless the key is queued again.
unfoldable pub release_intent : Str → Str → Store → Store
unfolding any remove_first
release_intent workspace key st =
    if any (is_queued_in workspace key) st.file_deletions
    then st
    else record st { intake_files = remove_first (is_group_intent workspace key) st.intake_files }

-- The status of all removals.
abbrev pub worse : DeletionStatus → DeletionStatus → DeletionStatus
worse failed result = failed
worse aggregate failed = failed
worse aggregate pending = pending
worse aggregate complete = aggregate

module _ (gone : Str → Str → Bool) where
  -- The attempt on a row that is there.
  unfoldable pub attempt_removal : ℕ → Str → Str → Deletion → Store → DeletionStatus × Store
  unfolding update_first remove_first remove_all release_intent
  attempt_removal now workspace key e st =
      let tried = retry_later now e in
      let kept = record st {
        file_deletions = update_first (is_deletion key) (retry_later now) st.file_deletions;
      } in
      let removed = record st {
        stored = remove_all (λ k. str_eq k key) st.stored;
        file_deletions = remove_first (is_deletion key) st.file_deletions;
      } in
      if gone workspace key
      then (complete, release_intent workspace key removed)
      else (status_of tried.queue_status, kept)

  unfoldable pub delete_stored_file : Bool → ℕ → Str → Str → Store → DeletionStatus × Store
  unfolding find attempt_removal
  delete_stored_file only_if_due now workspace key st =
      elim (find (is_deletion key) st.file_deletions) [
        | none ↦ (complete, st)
        | some e ↦
            let tried = attempt_removal now workspace key e st in
            if only_if_due && not (is_due now e) then (status_of e.queue_status, st) else tried
      ]

  -- The loop over the keys.
  unfoldable pub delete_each : ℕ → Str → List Str → DeletionStatus → Store → DeletionStatus × Store
  unfolding delete_stored_file
  delete_each now workspace [] aggregate st = (aggregate, st)
  delete_each now workspace (key ∷ keys) aggregate st =
      let one = delete_stored_file false now workspace key st in
      delete_each now workspace keys (worse aggregate one.0) one.1

  -- `new Set(storageKeys)` has each key once.
  unfoldable pub delete_stored_files :
      ℕ → Str → List Str → DeletionStatus → Store → DeletionStatus × Store
  unfolding delete_each first_of_each
  delete_stored_files now workspace keys aggregate st =
      delete_each now workspace (first_of_each [] keys) aggregate st

  -- The worker takes the oldest row that is due; the rows are in the order of their creation.
  unfoldable pub process_one_file_deletion : ℕ → Store → Bool × Store
  unfolding find delete_stored_file
  process_one_file_deletion now st = elim (find (is_due now) st.file_deletions) [
    | none ↦ (false, st)
    | some e ↦ (true, (delete_stored_file true now e.deletion_workspace e.deletion_key st).1)
  ]
