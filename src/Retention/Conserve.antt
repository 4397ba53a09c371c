-- ===== src/Retention/Conserve.antt =====
-- The uses of a stored file by the tables of server/core/retention.ts: the document or the group
-- whose file it is, and the queue of deletions.
use maintainflow.Prelude.{
  ℕ, ◌+◌, ◌≤◌, ◌≡◌, Bool, true, false, List, some, none, refl, arith, Bool-cases, Option-cases, inl,
  inr,
}
use maintainflow.Prelude.All.{find}
use maintainflow.Prelude.Text.{Str, str_eq, str_eq_iff}
use maintainflow.Retention.{
  Document, Group, Deletion, Store, any, update_first, is_document, is_group_row, is_deletion,
  queue_key, release_source, free_source,
}
use maintainflow.Retention.Count.{
  bit, count, remove_first-count, update_first-count, any-count, queue_key-count,
}
use maintainflow.Retention.Purge.{drop_document}

abbrev pub is_file : Str → Document → Bool
is_file k d = str_eq d.storage_key k

abbrev pub is_source : Str → Group → Bool
is_source k g = elim g.source_key [ none ↦ false | some key ↦ str_eq key k ]

-- The rows that refer to a file.
unfoldable pub uses : Str → Store → ℕ
unfolding count
uses k st =
    count (is_file k) st.documents
    + count (is_source k) st.pdf_splits
    + count (is_source k) st.archive_imports
    + count (is_deletion k) st.file_deletions

pub str_eq_refl : (s : Str) → str_eq s s ≡ true
str_eq_refl s = (str_eq_iff s s).1 refl

-- A row that is found is counted, so it is the only one for its key, and the key is not queued.
free_key :
    (key : Str) (rows : List Deletion) (others : ℕ)
    → 1 ≤ others
    → others + count (is_deletion key) rows ≤ 1
    → any (is_deletion key) rows ≡ false
free_key key rows others h total = elim (Bool-cases (any (is_deletion key) rows)) [
  | inl t ↦ absurd (let more = any-count (is_deletion key) rows t in omega (arith, more, total, h))
  | inr t ↦ t
]

pub drop_document-uses :
    (workspace id k : Str) (d : Document) (st : Store)
    → ((j : Str) → uses j st ≤ 1)
    → find (is_document workspace id) st.documents ≡ some d
    → uses k (drop_document workspace id d st) ≡ uses k st
unfolding uses drop_document
drop_document-uses workspace id k d st one found =
    let counted =
      λ (j : Str). remove_first-count (is_document workspace id) (is_file j) st.documents d found in
    let key = d.storage_key in
    let same = str_eq_refl key in
    let total = one key in
    let mine : 1 ≤ count (is_file key) st.documents = rw (counted key) (rw same (omega arith)) in
    let fresh =
      free_key key st.file_deletions (count (is_file key) st.documents) mine
        (omega (arith, total)) in
    omega (arith, counted k, queue_key-count workspace key k st.file_deletions fresh)

free_source-row :
    (workspace id : Str) (groups : List Group) (has_members : Bool) (key : Str)
    → free_source workspace id groups has_members ≡ some key
    → (g : Group) × (find (is_group_row workspace id) groups ≡ some g) × (g.source_key ≡ some key)
unfolding free_source
free_source-row workspace id groups has_members key h =
    elim (Option-cases (find (is_group_row workspace id) groups)) [
      | inl e ↦ let h1 = rw (e, free_source) at h in cc
      | inr (g, e) ↦ elim (Bool-cases has_members) [
        | inl t ↦ let h1 = rw (e, free_source, t) at h in cc
        | inr t ↦ (g, e, rw (e, free_source, t) at h)
      ]
    ]

source_bit :
    (k key : Str) (g : Group) → g.source_key ≡ some key → bit (is_source k g) ≡ bit (str_eq key k)
source_bit k key g e = rw e

-- A source that is released is queued instead.
pub released-uses :
    (workspace id key k : Str) (groups : List Group) (rows : List Deletion) (has_members : Bool)
    → ((j : Str) → count (is_source j) groups + count (is_deletion j) rows ≤ 1)
    → free_source workspace id groups has_members ≡ some key
    → count (is_source k) (update_first (is_group_row workspace id) release_source groups)
        + count (is_deletion k) (queue_key workspace key rows)
      ≡ count (is_source k) groups + count (is_deletion k) rows
released-uses workspace id key k groups rows has_members one h =
    let (g, found, source) = free_source-row workspace id groups has_members key h in
    let counted = λ (j : Str).
      update_first-count (is_group_row workspace id) (is_source j) release_source groups g found in
    let is_mine = λ (j : Str). source_bit j key g source in
    let mine : 1 ≤ count (is_source key) groups =
      omega (arith, counted key, rw (str_eq_refl key) at (is_mine key)) in
    let fresh = free_key key rows (count (is_source key) groups) mine (one key) in
    omega (arith, counted k, is_mine k, queue_key-count workspace key k rows fresh)
