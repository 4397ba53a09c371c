-- ===== src/Monitor/Artifact/Observed.antt =====
-- What `completedMonitorJob` of scripts/monitor-artifact-state.ts has seen where it finds that a run
-- has observed.
use maintainflow.Monitor.Artifact.{MonitorRun}
use maintainflow.Monitor.Artifact.Jobs.{
  was_observed, selector_only_steps, single_job, is_job_of, steps_pass, completed_conclusion,
  is_success, is_skipped, steps_of, all_steps, judge_steps, completed_monitor_job,
}
use maintainflow.Prelude.{
  ℕ, zero, suc, ◌+◌, ◌<◌, ◌≡◌, Bool, true, ◌&&◌, ◌||◌, List, [], ◌∷◌, map, Option, some, none, refl,
  ap, arith, Bool-cases, Option-cases, inl, inr, and_left, and_right, take, drop, get_elem?,
  some-Ensures, ◌==◌, ==_iff,
}
use maintainflow.Prelude.Json.{
  Json, null, bool, number, string, array, object, whole, other_number, get, as_array, as_positive,
  equals_string, equals_whole,
}
use maintainflow.Prelude.Text.{Str, codes, str_eq_iff}

-- The step at the index has the name and has ended with success.
abbrev pub IsSuccessfulStep : List Json → ℕ → Str → Type 0
IsSuccessfulStep steps i name =
    (step : Json) × (get_elem? steps i ≡ some step)
    × (get "name" step ≡ some (string name))
    × (get "conclusion" step ≡ some (string (codes "success")))

-- The answer holds one job, the monitor's in the first attempt of the run, and it has completed
-- with success; its steps that observe, and that commit and deliver what was observed, have ended
-- with success.
pub record IsObservedJob (value : Json) (run : MonitorRun) : Type 0 where
  pub job : Json
  pub steps : List Json
  pub single : as_array (get "jobs" value) ≡ some (job ∷ [])
  pub of_run : get "run_id" job ≡ some (number (whole run.run_id))
  pub of_attempt : get "run_attempt" job ≡ some (number (whole 1))
  pub of_revision : get "head_sha" job ≡ some (string run.revision)
  pub monitor : get "name" job ≡ some (string (codes "monitor"))
  pub completed : get "status" job ≡ some (string (codes "completed"))
  pub successful : get "conclusion" job ≡ some (string (codes "success"))
  pub listed : as_array (get "steps" job) ≡ some steps
  pub observed :
      IsSuccessfulStep steps 8 (codes "Observe current health and prepare the next encrypted state")
  pub prepared : IsSuccessfulStep steps 9 (codes "Commit prepared notices before sending new mail")
  pub delivered :
      IsSuccessfulStep steps 10 (codes "Deliver newly checkpointed incident or recovery notices")
  pub committed : IsSuccessfulStep steps 11 (codes "Commit the delivered checkpoint")

equals_string_lem : (o : Option Json) (t : Str) → equals_string o t ≡ true → o ≡ some (string t)
equals_string_lem none t h = cc
equals_string_lem (some null) t h = cc
equals_string_lem (some (bool b)) t h = cc
equals_string_lem (some (number n)) t h = cc
equals_string_lem (some (string s)) t h = ap (λ (z : Str). some (string z)) ((str_eq_iff s t).0 h)
equals_string_lem (some (array items)) t h = cc
equals_string_lem (some (object _)) t h = cc

equals_whole_lem : (o : Option Json) (n : ℕ) → equals_whole o n ≡ true → o ≡ some (number (whole n))
equals_whole_lem none n h = cc
equals_whole_lem (some null) n h = cc
equals_whole_lem (some (bool b)) n h = cc
equals_whole_lem (some (number (whole m))) n h =
    ap (λ (z : ℕ). some (number (whole z))) ((==_iff m n).0 h)
equals_whole_lem (some (number (other_number s))) n h = cc
equals_whole_lem (some (string s)) n h = cc
equals_whole_lem (some (array items)) n h = cc
equals_whole_lem (some (object _)) n h = cc

single_job_lem :
    (value job : Json) → single_job value ≡ some job → as_array (get "jobs" value) ≡ some (job ∷ [])
unfolding single_job
single_job_lem value job h = elim (Option-cases (as_array (get "jobs" value))) [
  | inl e ↦ let k = rw (e, single_job) at h in cc
  | inr ([], e) ↦ let k = rw (e, single_job) at h in cc
  | inr (_ ∷ _ ∷ _, e) ↦ let k = rw (e, single_job) at h in cc
  | inr (one ∷ [], e) ↦ elim (Bool-cases (equals_whole (get "total_count" value) 1)) [
    | inl t ↦
        let k = rw (e, single_job, t) at h in
        some-Ensures (λ j. as_array (get "jobs" value) ≡ some (j ∷ [])) k e
    | inr t ↦ let k = rw (e, single_job, t) at h in cc
  ]
]

steps_pass-parts :
    (allowed : ℕ → Option Json → Bool) (index previous : ℕ) (name : Str) (names : List Str)
    (step : Json) (steps : List Json)
    → steps_pass allowed index previous (name ∷ names) (step ∷ steps) ≡ true
    → (previous1 : ℕ) × (get "name" step ≡ some (string name))
      × (steps_pass allowed (index + 1) previous1 names steps ≡ true)
unfolding steps_pass
steps_pass-parts allowed index previous name names step steps h =
    elim (Option-cases (as_positive (get "number" step))) [
      | inl e ↦ let k = rw (e, steps_pass) at h in cc
      | inr (found, e) ↦
          let k = rw (e, steps_pass) at h in
          (
            found,
            equals_string_lem _ _ (and_right _ (and_left _ (and_left _ (and_left _ k)))),
            and_right _ k,
          )
    ]

-- The steps have the names.
steps_pass-name :
    (allowed : ℕ → Option Json → Bool) (index previous : ℕ) (names : List Str) (steps : List Json)
    (i : ℕ) (name : Str)
    → steps_pass allowed index previous names steps ≡ true
    → get_elem? names i ≡ some name
    → (step : Json) × (get_elem? steps i ≡ some step) × (get "name" step ≡ some (string name))
unfolding steps_pass
steps_pass-name allowed index previous [] steps i name h e = cc
steps_pass-name allowed index previous (n ∷ names) [] i name h e = cc
steps_pass-name allowed index previous (n ∷ names) (step ∷ steps) zero name h e =
    let (found, named, rest) = steps_pass-parts allowed index previous n names step steps h in
    (step, refl, some-Ensures (λ z. get "name" step ≡ some (string z)) e named)
steps_pass-name allowed index previous (n ∷ names) (step ∷ steps) (suc i) name h e =
    let (found, named, rest) = steps_pass-parts allowed index previous n names step steps h in
    steps_pass-name allowed (index + 1) found names steps i name rest e

abbrev skip : ℕ → ℕ → ℕ
skip zero i = i
skip (suc n) i = suc (skip n i)

all_steps-at :
    (test : Option Json → Bool) (k n i : ℕ) (cs : List (Option Json)) (c : Option Json)
    → all_steps test (take k (drop n cs)) ≡ true
    → i < k
    → get_elem? cs (skip n i) ≡ some c
    → test c ≡ true
all_steps-at test k n i [] c h l e = cc
all_steps-at test zero n i (x ∷ cs) c h l e = absurd (omega arith)
all_steps-at test (suc k) zero zero (x ∷ cs) c h l e =
    some-Ensures (λ z. test z ≡ true) e (and_left _ h)
all_steps-at test (suc k) zero (suc i) (x ∷ cs) c h l e =
    all_steps-at test k zero i cs c (and_right _ h) (omega arith) e
all_steps-at test (suc k) (suc n) i (x ∷ cs) c h l e = all_steps-at test (suc k) n i cs c h l e

get_elem?-map :
    (f : Json → Option Json) (xs : List Json) (i : ℕ) (x : Json)
    → get_elem? xs i ≡ some x
    → get_elem? (map f xs) i ≡ some (f x)
get_elem?-map f [] i x e = cc
get_elem?-map f (y ∷ ys) zero x e = some-Ensures (λ z. some (f y) ≡ some (f z)) e refl
get_elem?-map f (y ∷ ys) (suc i) x e = get_elem?-map f ys i x e

abbrev resumed_and_observed : List (Option Json) → Bool
resumed_and_observed cs =
    (all_steps is_success (take 4 (drop 4 cs)) || all_steps is_skipped (take 4 (drop 4 cs)))
    && all_steps is_success (take 4 (drop 8 cs))
    && all_steps is_skipped (take 2 (drop 12 cs))

judge_steps-was_observed :
    (cs : List (Option Json))
    → judge_steps cs ≡ some was_observed
    → all_steps is_success (take 4 (drop 8 cs)) ≡ true
unfolding judge_steps
judge_steps-was_observed cs h = elim (Bool-cases (all_steps is_skipped (take 10 (drop 4 cs)))) [
  | inl t ↦ let k = rw (t, judge_steps) at h in cc
  | inr t ↦ elim (Bool-cases (resumed_and_observed cs)) [
    | inl o ↦ and_right _ (and_left _ o)
    | inr o ↦ let k = rw (t, judge_steps, o) at h in cc
  ]
]

successful_step :
    (steps : List Json) (i : ℕ) (name : Str)
    → steps_pass completed_conclusion 0 0 selector_only_steps steps ≡ true
    → all_steps is_success (take 4 (drop 8 (map (get "conclusion") steps))) ≡ true
    → i < 4
    → get_elem? selector_only_steps (skip 8 i) ≡ some name
    → IsSuccessfulStep steps (skip 8 i) name
successful_step steps i name pass good small e =
    let (step, at, named) =
      steps_pass-name completed_conclusion 0 0 selector_only_steps steps (skip 8 i) name pass e in
    let concluded = get_elem?-map (get "conclusion") steps (skip 8 i) step at in
    let ended =
      all_steps-at is_success 4 8 i (map (get "conclusion") steps) (get "conclusion" step) good
        small concluded in
    (step, at, named, equals_string_lem _ _ ended)

steps_lem :
    (job : Json) (i : ℕ) (step : Json)
    → get_elem? (steps_of job) i ≡ some step
    → as_array (get "steps" job) ≡ some (steps_of job)
unfolding steps_of
steps_lem job i step e = elim (Option-cases (as_array (get "steps" job))) [
  | inl n ↦ let k = rw (n, steps_of) at e in cc
  | inr (steps, s) ↦ rw (s, steps_of) refl
]

small : (0 < 4) × (1 < 4) × (2 < 4) × (3 < 4)
small = (omega arith, omega arith, omega arith, omega arith)

-- A job that is said to have observed has observed.
pub completed_monitor_job-IsObservedJob :
    (value : Json) (run : MonitorRun)
    → completed_monitor_job value run ≡ some was_observed
    → IsObservedJob value run
unfolding completed_monitor_job is_job_of
completed_monitor_job-IsObservedJob value run h = elim (Option-cases (single_job value)) [
  | inl e ↦ let k = rw (e, completed_monitor_job) at h in cc
  | inr (job, e) ↦ elim (Option-cases (as_positive (get "id" job))) [
    | inl n ↦ let k = rw (e, completed_monitor_job, n) at h in cc
    | inr (id, n) ↦
        let passes = steps_pass completed_conclusion 0 0 selector_only_steps (steps_of job) in
        let tests = run.attempt_of_run == 1 && is_job_of run (codes "success") job && passes in
        elim (Bool-cases tests) [
          | inr t ↦ let k = rw (e, completed_monitor_job, n, t) at h in cc
          | inl t ↦
              let judged = rw (e, completed_monitor_job, n, t) at h in
              let good = judge_steps-was_observed (map (get "conclusion") (steps_of job)) judged in
              let pass = and_right _ t in
              let j0 = and_right _ (and_left _ t) in
              let j1 = and_left _ j0 in
              let j2 = and_left _ j1 in
              let j3 = and_left _ j2 in
              let j4 = and_left _ j3 in
              let first = successful_step (steps_of job) 0 _ pass good small.0 refl in
              record {
                job = job;
                steps = steps_of job;
                single = single_job_lem value job e;
                of_run = equals_whole_lem _ _ (and_left _ j4);
                of_attempt = equals_whole_lem _ _ (and_right _ j4);
                of_revision = equals_string_lem _ _ (and_right _ j3);
                monitor = equals_string_lem _ _ (and_right _ j2);
                completed = equals_string_lem _ _ (and_right _ j1);
                successful = equals_string_lem _ _ (and_right _ j0);
                listed = steps_lem job 8 first.0 first.1;
                observed = first;
                prepared = successful_step (steps_of job) 1 _ pass good small.1 refl;
                delivered = successful_step (steps_of job) 2 _ pass good small.2 refl;
                committed = successful_step (steps_of job) 3 _ pass good small.3 refl;
              }
        ]
  ]
]
