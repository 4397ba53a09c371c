-- ===== src/Monitor/Schedule/Healthy.antt =====
-- What a healthy report of scripts/stale-monitor.ts rests on.
use maintainflow.Monitor.Schedule.{ObserverReport, healthy, unhealthy, Run, receipt, is_external}
use maintainflow.Monitor.Schedule.Evaluate.{
  is_successful, read_runs, read_history, read_workflow, report_of, evaluate_history,
  evaluate_schedule, threshold, trusted_actor,
}
use maintainflow.Monitor.Schedule.Runs.{read_runs-AreRuns}
use maintainflow.Monitor.Schedule.Judge.{IsAlive, judge-IsAlive}
use maintainflow.Prelude.{
  want, want-some, ℕ, ◌≤◌, ◌≡◌, Bool, true, false, List, [], Option, some, refl, sym, arith, inl,
  inr, Option-cases, ok, bind-ok, ok-Ensures, if◌then◌else◌,
}
use maintainflow.Prelude.All.{find}
use maintainflow.Prelude.Json.{Json, Num, safe_count}

-- A report that calls the monitor healthy, and what it was made from.
pub record IsSupported (metadata history : Json) (now : Option ℕ) (actor : Option Num)
    (report : ObserverReport) : Type 0 where
  pub clock : ℕ
  pub trusted : Option ℕ
  pub workflow_id : ℕ
  pub history_runs : List Json × Bool
  pub runs : List Run
  pub run : Run
  pub at_clock : now ≡ some clock
  pub by_actor : trusted_actor actor ≡ ok trusted
  pub active : read_workflow metadata ≡ ok (workflow_id, true)
  pub reported_active : report.workflow_active ≡ some true
  pub of_history : read_history history ≡ ok history_runs
  pub read : read_runs trusted workflow_id clock history_runs.0 ≡ ok runs
  pub alive : IsAlive (is_external trusted) clock report.max_age_minutes runs run
  pub named : report.last_successful_scheduled_run ≡ some (receipt run (is_external trusted))
  pub at_least : 10 ≤ report.max_age_minutes
  pub at_most : report.max_age_minutes ≤ 60

threshold-bounds :
    (age : Num) (minutes : ℕ) → threshold age ≡ some minutes → (10 ≤ minutes) × (minutes ≤ 60)
unfolding threshold
threshold-bounds age minutes h = elim (Option-cases (safe_count age)) [
  | inl e ↦ let h1 = rw (e, threshold) at h in cc
  | inr (n, e) ↦ let h1 = rw (e, threshold) at h in ground arith
]

report_of-named :
    (external : Bool) (now max_age : ℕ) (is_partial : Bool) (runs : List Run) (run : Run)
    → find (is_successful external) runs ≡ some run
    → (report_of external now max_age true is_partial runs).last_successful_scheduled_run
      ≡ some (receipt run external)
unfolding report_of
report_of-named external now max_age is_partial runs run e = rw (e, report_of)

module _ (metadata history : Json) (now : Option ℕ) (max_age_minutes : Num) (actor : Option Num)
    (report : ObserverReport) where
  history-IsSupported :
      (clock max_age : ℕ) (trusted : Option ℕ) (workflow_id : ℕ)
      → now ≡ some clock
      → threshold max_age_minutes ≡ some max_age
      → trusted_actor actor ≡ ok trusted
      → read_workflow metadata ≡ ok (workflow_id, true)
      → evaluate_history history clock max_age trusted workflow_id ≡ ok report
      → report.report_status ≡ healthy
      → IsSupported metadata history now actor report
  unfolding evaluate_history report_of
  history-IsSupported clock max_age trusted workflow_id at age by active h good =
      bind-ok (read_history history) _ h λ listed of_history h1.
        bind-ok (read_runs trusted workflow_id clock listed.0) _ h1 λ runs read h2.
          let external = is_external trusted in
          let known = read_runs-AreRuns trusted workflow_id clock listed.0 runs read in
          let (run, alive) =
            judge-IsAlive external clock max_age listed.1 runs known
              (ok-Ensures (λ r. r.report_status ≡ healthy) (sym h2) good) in
          ok-Ensures (IsSupported metadata history now actor) h2 (record {
            clock = clock;
            trusted = trusted;
            workflow_id = workflow_id;
            history_runs = listed;
            runs = runs;
            run = run;
            at_clock = at;
            by_actor = by;
            active = active;
            reported_active = refl;
            of_history = of_history;
            read = read;
            alive = alive;
            named = report_of-named external clock max_age listed.1 runs run alive.reported;
            at_least = (threshold-bounds max_age_minutes max_age age).0;
            at_most = (threshold-bounds max_age_minutes max_age age).1;
          })

  workflow-IsSupported :
      (clock max_age : ℕ) (trusted : Option ℕ) (workflow_id : ℕ) (active : Bool)
      → now ≡ some clock
      → threshold max_age_minutes ≡ some max_age
      → trusted_actor actor ≡ ok trusted
      → read_workflow metadata ≡ ok (workflow_id, active)
      → (if active
          then evaluate_history history clock max_age trusted workflow_id
          else ok (report_of (is_external trusted) clock max_age false false []))
        ≡ ok report
      → report.report_status ≡ healthy
      → IsSupported metadata history now actor report
  unfolding report_of
  workflow-IsSupported clock max_age trusted workflow_id true at age by active h good =
      history-IsSupported clock max_age trusted workflow_id at age by active h good
  workflow-IsSupported clock max_age trusted workflow_id false at age by active h good =
      let status = ok-Ensures (λ r. r.report_status ≡ unhealthy) h refl in cc

  -- Where a report says `healthy`, the workflow is active, the history was read without a fault,
  -- and of its runs the newest completed one succeeded, on a title that counts as evidence; its
  -- trigger is not after the clock and at most the allowed minutes, 10 to 60, before it; and the
  -- report names that run.
  pub evaluate_schedule-IsSupported :
      evaluate_schedule metadata history now max_age_minutes actor ≡ ok report
      → report.report_status ≡ healthy
      → IsSupported metadata history now actor report
  unfolding evaluate_schedule
  evaluate_schedule-IsSupported h good = bind-ok (want now _) _ h λ clock at h1.
      bind-ok (want (threshold max_age_minutes) _) _ h1 λ max_age age h2.
        bind-ok (trusted_actor actor) _ h2 λ trusted by h3.
          bind-ok (read_workflow metadata) _ h3 λ workflow active h4.
            workflow-IsSupported clock max_age trusted workflow.0 workflow.1 (want-some now _ at)
              (want-some (threshold max_age_minutes) _ age) by active h4 good
