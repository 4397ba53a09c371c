-- ===== src/Retention/Sound.antt =====
-- The invariant of the tables and of the stored files of server/core/retention.ts.
use maintainflow.Prelude.{
  ℕ, ◌+◌, ◌≤◌, ◌≡◌, Bool, true, false, ◌||◌, List, [], ◌∷◌, some, refl, arith, Bool-cases, inl, inr,
  and_left, and_right,
}
use maintainflow.Prelude.All.{find}
use maintainflow.Prelude.Text.{Str, str_eq, str_eq_iff}
use maintainflow.Retention.{
  Deletion, Intent, Store, any, remove_first, remove_all, update_first, is_deletion,
}
use maintainflow.Retention.Conserve.{uses}
use maintainflow.Retention.Count.{
  bit, count, remove_first-count, update_first-count, find-test, remove_first-other,
}
use maintainflow.Retention.Delete.{retry_later, is_group_intent, is_queued_in, release_intent}
use maintainflow.Retention.Purged.{IsMoved, AtMostOne, at_most_one}

abbrev pub is_stored : Str → Store → Bool
is_stored k st = any (λ j. str_eq j k) st.stored

abbrev pub is_intent : Str → Intent → Bool
is_intent k i = str_eq i.intent_key k

-- A file is used once at most, by a document, by a group or by the queue; and a file that is
-- stored is used, or is reserved by an intent.
pub record IsSound (st : Store) : Type 0 where
  pub one : AtMostOne st
  pub kept : (k : Str) → is_stored k st ≡ true → 1 ≤ uses k st + count (is_intent k) st.intake_files

pub IsMoved-IsSound : (st after : Store) → IsMoved st after → IsSound st → IsSound after
unfolding uses
IsMoved-IsSound st after moved sound = record {
  one = at_most_one st after moved sound.one;
  kept = λ k here.
      let before = sound.kept k (rw moved.same_stored at here) in
      rw moved.same_intents (omega (arith, before, moved.same_uses k));
}

or_right : (a : Bool) {b : Bool} → b ≡ true → (a || b) ≡ true
or_right a {b} h = ground arith

differ : (j key k : Str) → str_eq j key ≡ false → str_eq j k ≡ true → str_eq key k ≡ false
differ j key k t t1 = elim (Bool-cases (str_eq key k)) [
  | inl same ↦
      let e : j ≡ k = (str_eq_iff j k).0 t1 in
      let e1 : key ≡ k = (str_eq_iff key k).0 same in
      let e2 : str_eq j key ≡ true = (str_eq_iff j key).1 (cc) in cc
  | inr t2 ↦ t2
]

pub remove_all-any :
    (key k : Str) (stored : List Str)
    → any (λ j. str_eq j k) (remove_all (λ j. str_eq j key) stored) ≡ true
    → (any (λ j. str_eq j k) stored ≡ true) × (str_eq key k ≡ false)
unfolding any remove_all
remove_all-any key k [] h = cc
remove_all-any key k (j ∷ js) h = elim (Bool-cases (str_eq j key)) [
  | inl t ↦ let (later, other) = remove_all-any key k js (rw t at h) in (or_right _ later, other)
  | inr t ↦ elim (Bool-cases (str_eq j k)) [
    | inl t1 ↦ (rw t1, differ j key k t t1)
    | inr t1 ↦
        let (later, other) = remove_all-any key k js (rw (t, t1) at h) in (or_right _ later, other)
  ]
]

-- After an attempt that failed the row is still there.
pub retried-IsMoved :
    (now : ℕ) (key : Str) (e : Deletion) (st : Store)
    → find (is_deletion key) st.file_deletions ≡ some e
    → IsMoved st (record st {
      file_deletions = update_first (is_deletion key) (retry_later now) st.file_deletions;
    })
unfolding uses
retried-IsMoved now key e st found = record {
  same_uses = λ k.
      let counted =
        update_first-count (is_deletion key) (is_deletion k) (retry_later now) st.file_deletions e
          found in
      omega (arith, counted);
  same_intents = refl;
  same_stored = refl;
}

-- The tables after a removal.
abbrev pub removed : Str → Store → Store
removed key st = record st {
  stored = remove_all (λ k. str_eq k key) st.stored;
  file_deletions = remove_first (is_deletion key) st.file_deletions;
}

pub removed-uses :
    (key k : Str) (e : Deletion) (st : Store)
    → find (is_deletion key) st.file_deletions ≡ some e
    → uses k st ≡ bit (str_eq key k) + uses k (removed key st)
unfolding uses
removed-uses key k e st found =
    let counted = remove_first-count (is_deletion key) (is_deletion k) st.file_deletions e found in
    let same : e.deletion_key ≡ key =
      (str_eq_iff e.deletion_key key).0 (find-test (is_deletion key) st.file_deletions e found) in
    omega (arith, (rw same at counted))

pub removed-IsSound :
    (workspace key : Str) (e : Deletion) (st : Store)
    → find (is_deletion key) st.file_deletions ≡ some e
    → IsSound st
    → IsSound (removed key st)
removed-IsSound workspace key e st found sound = record {
  one = λ k. omega (arith, removed-uses key k e st found, sound.one k);
  kept = λ k here.
      let (before, other) = remove_all-any key k st.stored here in
      omega (arith, sound.kept k before, (rw other at (removed-uses key k e st found)));
}

group_intent-key :
    (workspace key : Str) (i : Intent) → is_group_intent workspace key i ≡ true → i.intent_key ≡ key
group_intent-key workspace key i h =
    (str_eq_iff i.intent_key key).0
      (and_right (str_eq i.intent_workspace workspace) (and_left i.is_group h))

not_intent :
    (workspace key k : Str) (i : Intent) (st : Store)
    → is_stored key st ≡ false
    → is_stored k st ≡ true
    → is_group_intent workspace key i ≡ true
    → is_intent k i ≡ false
not_intent workspace key k i st missing here mine = elim (Bool-cases (is_intent k i)) [
  | inr other ↦ other
  | inl same_key ↦
      let of_key : i.intent_key ≡ key = group_intent-key workspace key i mine in
      let of_k : i.intent_key ≡ k = (str_eq_iff i.intent_key k).0 same_key in
      let same : k ≡ key = cc in let stored : is_stored key st ≡ true = rw same at here in cc
]

-- The key of an intent that is released is not stored any more.
pub release_intent-IsSound :
    (workspace key : Str) (st : Store)
    → is_stored key st ≡ false
    → IsSound st
    → IsSound (release_intent workspace key st)
unfolding release_intent uses
release_intent-IsSound workspace key st missing sound =
    elim (Bool-cases (any (is_queued_in workspace key) st.file_deletions)) [
      | inl t ↦ rw (t, release_intent) sound
      | inr t ↦
          rw (t, release_intent)
            (record {
              one = sound.one;
              kept = λ k here.
                  let other = λ (i : Intent) (mine : is_group_intent workspace key i ≡ true).
                    not_intent workspace key k i st missing here mine in
                  omega (
                    arith,
                    sound.kept k here,
                    remove_first-other (is_group_intent workspace key) (is_intent k) st.intake_files
                        other,
                  );
            })
    ]
