-- ===== src/Monitor/Artifact/Proofs.antt =====
-- The proofs about a run of scripts/monitor-artifact-state.ts exclude one another.
use maintainflow.Monitor.Artifact.{MonitorRun, is_concluded}
use maintainflow.Monitor.Artifact.Jobs.{
  single_job, is_job_of, failed_before_state, completed_monitor_job, never_acquired_check_id,
  steps_pass, completed_conclusion, selector_only_steps, steps_of, has_no_steps, is_unassigned,
}
use maintainflow.Prelude.{
  ◌≡◌, Bool, true, false, ◌&&◌, Option, some, none, refl, arith, Bool-cases, Option-cases, inl, inr,
  ◌==◌, and_left, and_right,
}
use maintainflow.Prelude.Json.{Json, get, string, as_array, as_string, as_positive, equals_string}
use maintainflow.Prelude.Text.{Str, codes, str_eq, str_eq_iff}

-- A value is one text at most.
equals_string-differ :
    (value : Option Json) (a b : Str)
    → str_eq a b ≡ false
    → equals_string value a ≡ true
    → equals_string value b ≡ false
equals_string-differ (some (string s)) a b other h = elim (Bool-cases (str_eq s b)) [
  | inr t ↦ t
  | inl t ↦
      let e : s ≡ a = (str_eq_iff s a).0 h in
      let e1 : s ≡ b = (str_eq_iff s b).0 t in
      let e2 : str_eq a b ≡ true = (str_eq_iff a b).1 cc in cc
]
equals_string-differ _ a b other h = cc

and_false : (a : Bool) → (a && false) ≡ false
and_false a = ground arith

is_job_of-differ :
    (run : MonitorRun) (a b : Str) (job : Json)
    → str_eq a b ≡ false
    → is_job_of run a job ≡ true
    → is_job_of run b job ≡ false
unfolding is_job_of
is_job_of-differ run a b job other h =
    let not_b = equals_string-differ (get "conclusion" job) a b other (and_right _ h) in
    rw not_b (and_false _)

middle_false : (a b c : Bool) → b ≡ false → (a && b && c) ≡ false
middle_false a b c h = ground arith

-- A job that did not end in success proves nothing about a success.
completed-none :
    (value : Json) (run : MonitorRun) (job : Json)
    → single_job value ≡ some job
    → is_job_of run (codes "success") job ≡ false
    → completed_monitor_job value run ≡ none
unfolding completed_monitor_job
completed-none value run job e other = elim (Option-cases (as_positive (get "id" job))) [
  | inl e1 ↦ rw (e, completed_monitor_job, e1)
  | inr (id, e1) ↦
      let shut =
        middle_false (run.attempt_of_run == 1) (is_job_of run (codes "success") job)
          (steps_pass completed_conclusion 0 0 selector_only_steps (steps_of job)) other in
      rw (e, completed_monitor_job, e1, shut)
]

acquired_shut : (a b c d e : Bool) → c ≡ false → (a && b && c && d && e) ≡ false
acquired_shut a b c d e h = ground arith

acquired-none :
    (value : Json) (run : MonitorRun) (job : Json)
    → single_job value ≡ some job
    → is_job_of run (codes "cancelled") job ≡ false
    → never_acquired_check_id value run ≡ none
unfolding never_acquired_check_id
acquired-none value run job e other = elim (Option-cases (as_positive (get "id" job))) [
  | inl e1 ↦ rw (e, never_acquired_check_id, e1)
  | inr (id, e1) ↦ elim (Option-cases (as_string (get "check_run_url" job))) [
    | inl e2 ↦ rw (e, never_acquired_check_id, e1, e2)
    | inr (address, e2) ↦
        let shut =
          acquired_shut (run.attempt_of_run == 1) (is_concluded run (codes "failure"))
            (is_job_of run (codes "cancelled") job) (has_no_steps (as_array (get "steps" job)))
            (is_unassigned job) other in
        rw (e, never_acquired_check_id, e1, e2, shut)
  ]
]

-- A run that failed before it could touch state is not also proven to have completed its job, nor
-- never to have been given a runner.
pub failed_before_state-alone :
    (value : Json) (run : MonitorRun)
    → failed_before_state value run ≡ true
    → (completed_monitor_job value run ≡ none) × (never_acquired_check_id value run ≡ none)
unfolding failed_before_state
failed_before_state-alone value run h = elim (Option-cases (single_job value)) [
  | inl e ↦ let h1 = rw (e, failed_before_state) at h in cc
  | inr (job, e) ↦
      let h1 = rw (e, failed_before_state) at h in
      let failed = and_right _ (and_left _ h1) in
      (
        completed-none value run job e
            (is_job_of-differ run (codes "failure") (codes "success") job refl failed),
        acquired-none value run job e
            (is_job_of-differ run (codes "failure") (codes "cancelled") job refl failed),
      )
]
