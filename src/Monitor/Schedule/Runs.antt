-- ===== src/Monitor/Schedule/Runs.antt =====
-- The runs that `evaluateSchedule` of scripts/stale-monitor.ts has read and sorted.
use maintainflow.Monitor.Instant.{timestamp, instant_of, date_parse}
use maintainflow.Monitor.Schedule.{
  Run, is_external, is_one_of, is_tick, external_tick, external_prefix, is_run, add_trigger,
  read_run, is_actor,
}
use maintainflow.Monitor.Schedule.Evaluate.{
  insert_run, sort_runs, select_runs, read_runs, evidence_at, all_distinct, is_in_order,
}
use maintainflow.Prelude.{
  want, ℕ, ◌≤◌, ◌≡◌, Bool, true, false, ◌&&◌, ◌||◌, List, [], ◌∷◌, Option, some, none, refl, arith,
  inl, inr, Bool-cases, Option-cases, ok, map_result, bind-ok, require-ok, ok-Ensures, map, ltb,
  length, drop, and_left, and_right, leb→le,
}
use maintainflow.Prelude.All.{All, All-mono, map_result-All}
use maintainflow.Prelude.Json.{Json, as_string, as_positive, get}
use maintainflow.Prelude.Text.{Str, codes, starts_with}

timestamp-bound : (value : Str) (now : ℕ) → timestamp value now ≡ true → instant_of value ≤ now
unfolding timestamp instant_of
timestamp-bound value now h = elim (Option-cases (date_parse value)) [
  | inl e ↦ let h1 = rw e at h in cc
  | inr (at, e) ↦ rw e (leb→le at now (and_right _ (and_left _ (rw e at h))))
]

-- What is known of a run that has been read.
pub record IsEvidence (external : Bool) (now : ℕ) (run : Run) : Type 0 where
  pub seen : evidence_at external run ≤ now
  pub titled :
      (external
        || is_one_of run.display_title
            (codes "Folio monitor: run" ∷ codes "Folio monitor: disabled" ∷ []))
      ≡ true

is_tick-bound :
    (tick created_at : Str) (now : ℕ) → is_tick tick created_at now ≡ true → instant_of tick ≤ now
unfolding is_tick
is_tick-bound tick created_at now h =
    timestamp-bound tick now
      (and_right _ (and_left _ (and_left _ (and_left _ (and_left _ (and_left _ (and_left _ h)))))))

external_tick-bound :
    (title created_at : Str) (now : ℕ) (tick : Str)
    → external_tick title created_at now ≡ ok tick
    → instant_of tick ≤ now
unfolding external_tick
external_tick-bound title created_at now tick h =
    let found = drop (length external_prefix) title in
    require-ok (starts_with title external_prefix && is_tick found created_at now) _ _ h λ t h1.
      ok-Ensures (λ z. instant_of z ≤ now) h1 (is_tick-bound found created_at now (and_right _ t))

is_run-created :
    (external : Bool) (workflow_id now : ℕ) (entry : Json) (run : Run) (updated_at : Str)
    → is_run external workflow_id now entry run updated_at ≡ true
    → instant_of run.created_at ≤ now
unfolding is_run
is_run-created external workflow_id now entry run updated_at h =
    timestamp-bound run.created_at now (and_right _ (and_left _ (and_left _ h)))

is_run-titled :
    (external : Bool) (workflow_id now : ℕ) (entry : Json) (run : Run) (updated_at : Str)
    → is_run external workflow_id now entry run updated_at ≡ true
    → (external
        || is_one_of run.display_title
            (codes "Folio monitor: run" ∷ codes "Folio monitor: disabled" ∷ []))
      ≡ true
unfolding is_run
is_run-titled external workflow_id now entry run updated_at h =
    and_right _ (and_left _ (and_left _ (and_left _ (and_left _ (and_left _ h)))))

add_trigger-IsEvidence :
    (actor : Option ℕ) (now : ℕ) (entry : Json) (read run : Run)
    → instant_of read.created_at ≤ now
    → (is_external actor
        || is_one_of read.display_title
            (codes "Folio monitor: run" ∷ codes "Folio monitor: disabled" ∷ []))
      ≡ true
    → add_trigger actor now entry read ≡ ok run
    → IsEvidence (is_external actor) now run
unfolding add_trigger evidence_at
add_trigger-IsEvidence none now entry read run known titled h =
    ok-Ensures (IsEvidence false now) h (record { seen = known; titled = titled })
add_trigger-IsEvidence (some trusted) now entry read run known titled h =
    require-ok (is_actor (get "actor" entry) trusted) _ _ h λ t h1.
      bind-ok (external_tick read.display_title read.created_at now) _ h1 λ tick e h2.
        ok-Ensures (IsEvidence true now) h2 (record {
          seen = external_tick-bound read.display_title read.created_at now tick e;
          titled = refl;
        })

read_run-IsEvidence :
    (actor : Option ℕ) (workflow_id now : ℕ) (entry : Json) (run : Run)
    → read_run actor workflow_id now entry ≡ ok run
    → IsEvidence (is_external actor) now run
unfolding read_run
read_run-IsEvidence actor workflow_id now entry run h =
    bind-ok (want (as_positive (get "id" entry)) _) _ h λ id _ h1.
      bind-ok (want (as_positive (get "run_number" entry)) _) _ h1 λ run_number _ h2.
        bind-ok (want (as_positive (get "run_attempt" entry)) _) _ h2 λ run_attempt _ h3.
          bind-ok (want (as_string (get "head_sha" entry)) _) _ h3 λ head_sha _ h4.
            bind-ok (want (as_string (get "display_title" entry)) _) _ h4 λ display_title _ h5.
              bind-ok (want (as_string (get "status" entry)) _) _ h5 λ status _ h6.
                bind-ok (want (as_string (get "created_at" entry)) _) _ h6 λ created_at _ h7.
                  bind-ok (want (as_string (get "updated_at" entry)) _) _ h7 λ updated_at _ h8.
                    let read : Run = record {
                      id = id;
                      run_number = run_number;
                      run_attempt = run_attempt;
                      display_title = display_title;
                      head_sha = head_sha;
                      status = status;
                      conclusion = as_string (get "conclusion" entry);
                      created_at = created_at;
                      trigger_at = none;
                    } in
                    let external = is_external actor in
                    require-ok (is_run external workflow_id now entry read updated_at) _ _ h8
                      λ t h9.
                        add_trigger-IsEvidence actor now entry read run
                          (is_run-created external workflow_id now entry read updated_at t)
                          (is_run-titled external workflow_id now entry read updated_at t) h9

insert_run-All :
    (P : Run → Type 0) (run : Run) (runs : List Run)
    → P run
    → All P runs
    → All P (insert_run run runs)
unfolding insert_run
insert_run-All P run [] p h = (p, tt)
insert_run-All P run (other ∷ rest) p h = elim (Bool-cases (ltb run.run_number other.run_number)) [
  | inl t ↦ rw t (h.0, insert_run-All P run rest p h.1)
  | inr t ↦ rw t (p, h)
]

sort_runs-All : (P : Run → Type 0) (runs : List Run) → All P runs → All P (sort_runs runs)
unfolding sort_runs
sort_runs-All P [] h = tt
sort_runs-All P (run ∷ runs) h =
    insert_run-All P run (sort_runs runs) h.0 (sort_runs-All P runs h.1)

-- Each run has a number that is not below the numbers behind it.
abbrev pub IsSorted : List Run → Type 0
IsSorted [] = Unit
IsSorted (run ∷ runs) = All (λ r. r.run_number ≤ run.run_number) runs × IsSorted runs

insert_run-IsSorted : (run : Run) (runs : List Run) → IsSorted runs → IsSorted (insert_run run runs)
unfolding insert_run
insert_run-IsSorted run [] h = (tt, tt)
insert_run-IsSorted run (other ∷ rest) h = elim (Bool-cases (ltb run.run_number other.run_number)) [
  | inl t ↦ rw t (
    insert_run-All (λ r. r.run_number ≤ other.run_number) run rest (ground arith) h.0,
    insert_run-IsSorted run rest h.1,
  )
  | inr t ↦
      let below : other.run_number ≤ run.run_number = ground arith in
      rw t ((below, All-mono (λ r le. omega (arith, le, below)) rest h.0), h)
]

sort_runs-IsSorted : (runs : List Run) → IsSorted (sort_runs runs)
unfolding sort_runs
sort_runs-IsSorted [] = tt
sort_runs-IsSorted (run ∷ runs) = insert_run-IsSorted run (sort_runs runs) (sort_runs-IsSorted runs)

-- The runs that are judged: each gives evidence, and they are sorted.
pub record AreRuns (external : Bool) (now : ℕ) (runs : List Run) : Type 0 where
  pub evidence : All (IsEvidence external now) runs
  pub sorted : IsSorted runs

pub read_runs-AreRuns :
    (actor : Option ℕ) (workflow_id now : ℕ) (listed : List Json) (runs : List Run)
    → read_runs actor workflow_id now listed ≡ ok runs
    → AreRuns (is_external actor) now runs
unfolding read_runs
read_runs-AreRuns actor workflow_id now listed runs h =
    bind-ok (select_runs (is_external actor) listed) _ h λ selected _ h1.
      bind-ok (map_result (read_run actor workflow_id now) selected) _ h1 λ read e h2.
        let sorted = sort_runs read in
        let known =
          map_result-All (IsEvidence (is_external actor) now) (read_run actor workflow_id now)
            (read_run-IsEvidence actor workflow_id now) selected read e in
        require-ok
          (all_distinct (map (λ run. run.id) sorted)
            && all_distinct (map (λ run. run.run_number) sorted))
          _ _ h2
          λ _ h3. require-ok (is_in_order sorted) _ _ h3 λ _ h4.
            ok-Ensures (AreRuns (is_external actor) now) h4 (record {
              evidence = sort_runs-All (IsEvidence (is_external actor) now) read known;
              sorted = sort_runs-IsSorted read;
            })
