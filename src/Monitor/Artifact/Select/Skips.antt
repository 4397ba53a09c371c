-- ===== src/Monitor/Artifact/Select/Skips.antt =====
-- What the loop over the runs of a page in scripts/monitor-artifact-state.ts passes over, and what
-- it selects.
use maintainflow.Monitor.Artifact.{
  ArtifactError, MonitorRun, ArtifactSelection, is_stateful, require_completed_prior_run,
  artifact_response, latest_monitor_checkpoint_missing,
}
use maintainflow.Monitor.Artifact.Jobs.{
  failed_before_state, never_acquired_check_id, artifact_faults, prove_never_acquired,
}
use maintainflow.Monitor.Artifact.Latest.{IsLatest, artifact_response-IsLatest}
use maintainflow.Monitor.Artifact.Source.{
  SourceHost, attempt_address, has_no_artifacts, is_superseded_run, verify_once, never_acquired,
  skip_run,
}
use maintainflow.Monitor.Transport.{read_json}
use maintainflow.Prelude.{
  ℕ, ◌≡◌, Bool, true, false, ◌||◌, List, [], ◌∷◌, ◌++◌, Option, some, none, Result, ok, err,
  require, refl, ap, bind-ok, require-ok, require-true, ok-Ensures, err-ok, Bool-cases, inl, inr,
  arith,
}
use maintainflow.Prelude.All.{All}
use maintainflow.Prelude.Json.{Json}
use maintainflow.Prelude.Text.{Str, codes}
use maintainflow.Monitor.Artifact.Select.{
  Step, selects, goes_on, refreshed, artifacts_address, may_skip, maximum_of, judge_artifacts,
  check_candidate, examine, continue_with, scan_candidates,
}

-- The three proofs that a run did not touch the state.
pub data IsProven (host : SourceHost) (jobs : Json) (run : MonitorRun) : Type 0 where
  by_supersession : is_superseded_run jobs run ≡ true → IsProven host jobs run
  before_state : failed_before_state jobs run ≡ true → IsProven host jobs run
  by_check :
      (check : ℕ)
      → never_acquired_check_id jobs run ≡ some check
      → prove_never_acquired host.http check run ≡ ok true
      → IsProven host jobs run

-- A run with no artifact, and with a proof in its jobs.
pub record IsSkipped (host : SourceHost) (current_id : ℕ) (listed : MonitorRun) : Type 0 where
  pub run : MonitorRun
  pub artifacts : Json
  pub jobs : Json
  pub fresh : refreshed host.http current_id listed ≡ ok run
  pub other : may_skip current_id run latest_monitor_checkpoint_missing ≡ true
  pub artifacts_read : read_json artifact_faults host.http (artifacts_address run) ≡ ok artifacts
  pub no_artifacts : has_no_artifacts artifacts ≡ true
  pub jobs_read :
      read_json artifact_faults host.http (attempt_address run 1 ++ codes "/jobs?per_page=100")
      ≡ ok jobs
  pub proven : IsProven host jobs run

pub data IsPassed (host : SourceHost) (current_id : ℕ) (run : MonitorRun) : Type 0 where
  as_stateless : is_stateful run ≡ ok false → IsPassed host current_id run
  as_skipped : IsSkipped host current_id run → IsPassed host current_id run

-- The selection is the latest checkpoint of the run, which has completed.
pub record IsChosen (host : SourceHost) (current_id maximum : ℕ) (listed : MonitorRun)
    (selection : ArtifactSelection) : Type 0 where
  pub run : MonitorRun
  pub artifacts : Json
  pub stateful : is_stateful listed ≡ ok true
  pub fresh : refreshed host.http current_id listed ≡ ok run
  pub completed : require_completed_prior_run run ≡ ok tt
  pub artifacts_read : read_json artifact_faults host.http (artifacts_address run) ≡ ok artifacts
  pub latest : IsLatest run (maximum_of current_id maximum run) artifacts selection

-- The selection is of a run behind runs that are passed over.
pub record IsChoice (host : SourceHost) (current_id maximum : ℕ) (runs : List MonitorRun)
    (selection : ArtifactSelection) : Type 0 where
  pub before : List MonitorRun
  pub run : MonitorRun
  pub behind : List MonitorRun
  pub listed : runs ≡ before ++ run ∷ behind
  pub passed : All (IsPassed host current_id) before
  pub chosen : IsChosen host current_id maximum run selection

abbrev pub IsStateless : MonitorRun → Type 0
IsStateless run = is_stateful run ≡ ok false

proof_of :
    (host : SourceHost) (jobs : Json) (run : MonitorRun) (check : Option ℕ)
    → never_acquired_check_id jobs run ≡ check
    → never_acquired host run check ≡ ok tt
    → IsProven host jobs run
unfolding never_acquired
proof_of host jobs run none e h = err-ok h
proof_of host jobs run (some check) e h =
    bind-ok (prove_never_acquired host.http check run) _ h
      λ proven p h1. let yes_ = require-true proven _ h1 in by_check check e (rw yes_ at p)

skip_run-IsProven :
    (host : SourceHost) (run : MonitorRun) (artifacts : Json) (verified now : List (Str × Bool))
    → skip_run host run artifacts verified ≡ ok now
    → (has_no_artifacts artifacts ≡ true)
      × ((jobs : Json) × (read_json artifact_faults host.http
              (attempt_address run 1 ++ codes "/jobs?per_page=100")
            ≡ ok jobs)
          × IsProven host jobs run)
unfolding skip_run
skip_run-IsProven host run artifacts verified now h =
    require-ok (has_no_artifacts artifacts) _ _ h λ empty h1.
      bind-ok (read_json artifact_faults host.http _) _ h1 λ jobs read h2. (
        empty,
        (
          jobs,
          read,
          elim (Bool-cases (failed_before_state jobs run)) [
            | inl t ↦ before_state t
            | inr t ↦ elim (Bool-cases (is_superseded_run jobs run)) [
              | inl t1 ↦ by_supersession t1
              | inr t1 ↦
                  let h3 = rw (t, t1) at h2 in
                  bind-ok
                    (require
                      (false || (elim (never_acquired_check_id jobs run) [
                        | none ↦ false
                        | some id ↦ true
                      ]))
                      latest_monitor_checkpoint_missing)
                    _ h3
                    λ _ _ h4. bind-ok (verify_once host run false verified) _ h4 λ _ _ h5.
                      bind-ok (never_acquired host run (never_acquired_check_id jobs run)) _ h5
                        λ _ e h6. proof_of host jobs run _ refl e
            ]
          ],
        ),
      )

-- What a step says of the run that it is about.
abbrev pub StepOf : SourceHost → ℕ → ℕ → Bool → MonitorRun → Step → Type 0
StepOf host current_id maximum saw run (selects s) = IsChosen host current_id maximum run s
StepOf host current_id maximum saw run (goes_on now v) =
    IsPassed host current_id run × (now ≡ false → IsStateless run × (saw ≡ false))

-- What a step says of the runs of a page.
abbrev pub StepsOf : SourceHost → ℕ → ℕ → Bool → List MonitorRun → Step → Type 0
StepsOf host current_id maximum saw runs (selects s) = IsChoice host current_id maximum runs s
StepsOf host current_id maximum saw runs (goes_on now v) =
    All (IsPassed host current_id) runs × (now ≡ false → All IsStateless runs × (saw ≡ false))

missing_fault :
    (current_id : ℕ) (run : MonitorRun) (fault : ArtifactError)
    → may_skip current_id run fault ≡ true
    → may_skip current_id run latest_monitor_checkpoint_missing ≡ true
missing_fault current_id run fault h = ground arith

module _ (host : SourceHost) (current_id maximum : ℕ) where
  judge_artifacts-StepOf :
      (listed run : MonitorRun) (artifacts : Json) (verified : List (Str × Bool)) (saw : Bool)
      → (response : Result ArtifactError ArtifactSelection) (step : Step)
      → artifact_response artifacts run (maximum_of current_id maximum run) ≡ response
      → is_stateful listed ≡ ok true
      → refreshed host.http current_id listed ≡ ok run
      → require_completed_prior_run run ≡ ok tt
      → read_json artifact_faults host.http (artifacts_address run) ≡ ok artifacts
      → judge_artifacts host current_id run artifacts verified response ≡ ok step
      → StepOf host current_id maximum saw listed step
  unfolding judge_artifacts
  judge_artifacts-StepOf listed run artifacts verified saw (ok selection) step e1 e2 e3 e4 e5 h =
      ok-Ensures (StepOf host current_id maximum saw listed) h (record {
        run = run;
        artifacts = artifacts;
        stateful = e2;
        fresh = e3;
        completed = e4;
        artifacts_read = e5;
        latest =
            artifact_response-IsLatest artifacts run (maximum_of current_id maximum run) selection
              e1;
      })
  judge_artifacts-StepOf listed run artifacts verified saw (err fault) step e1 e2 e3 e4 e5 h =
      elim (Bool-cases (may_skip current_id run fault)) [
        | inr t ↦ let wrong = rw t at h in cc
        | inl t ↦
            let h1 = rw t at h in
            bind-ok (skip_run host run artifacts verified) _ h1 λ now e h2.
              let (empty, proof) = skip_run-IsProven host run artifacts verified now e in
              let (jobs, read, proven) = proof in
              ok-Ensures (StepOf host current_id maximum saw listed) h2 (
                as_skipped (record {
                  run = run;
                  artifacts = artifacts;
                  jobs = jobs;
                  fresh = e3;
                  other = missing_fault current_id run fault t;
                  artifacts_read = e5;
                  no_artifacts = empty;
                  jobs_read = read;
                  proven = proven;
                }),
                λ wrong. (cc),
              )
      ]

  examine-StepOf :
      (saw : Bool) (verified : List (Str × Bool)) (run : MonitorRun) (step : Step)
      → examine host current_id maximum saw verified run ≡ ok step
      → StepOf host current_id maximum saw run step
  unfolding examine check_candidate
  examine-StepOf saw verified run step h = bind-ok (is_stateful run) _ h λ stateful e h1.
      elim (Bool-cases stateful) [
        | inr t ↦
            let h2 = rw t at h1 in
            let stateless = rw t at e in
            ok-Ensures (StepOf host current_id maximum saw run) h2
              (as_stateless stateless, λ unseen. (stateless, unseen))
        | inl t ↦
            let h2 = rw t at h1 in
            bind-ok (refreshed host.http current_id run) _ h2 λ fresh e1 h3.
              bind-ok (require_completed_prior_run fresh) _ h3 λ _ e2 h4.
                bind-ok (read_json artifact_faults host.http (artifacts_address fresh)) _ h4
                  λ artifacts e3 h5.
                    judge_artifacts-StepOf run fresh artifacts verified saw _ step refl (rw t at e)
                      e1 e2 e3 h5
      ]

  then_scan :
      (run : MonitorRun) (runs : List MonitorRun) (saw : Bool) (first step : Step)
      → StepOf host current_id maximum saw run first
      → ((s : Bool) (v : List (Str × Bool)) (next : Step)
          → scan_candidates host current_id maximum runs s v ≡ ok next
          → StepsOf host current_id maximum s runs next)
      → continue_with first (scan_candidates host current_id maximum runs) ≡ ok step
      → StepsOf host current_id maximum saw (run ∷ runs) step
  then_scan run runs saw (selects s) step chosen rest h =
      ok-Ensures (StepsOf host current_id maximum saw (run ∷ runs)) h (record {
        before = [];
        run = run;
        behind = runs;
        listed = refl;
        passed = tt;
        chosen = chosen;
      })
  then_scan run runs saw (goes_on now v) (selects s) passed rest h =
      let choice = rest now v (selects s) h in
      record {
        before = run ∷ choice.before;
        run = choice.run;
        behind = choice.behind;
        listed = ap (λ l. run ∷ l) choice.listed;
        passed = (passed.0, choice.passed);
        chosen = choice.chosen;
      }
  then_scan run runs saw (goes_on now v) (goes_on last w) passed rest h =
      let (others, unseen) = rest now v (goes_on last w) h in
      (
        (passed.0, others),
        λ none_seen.
            let (stateless, before) = unseen none_seen in
            let (first, start) = passed.1 before in ((first, stateless), start),
      )

  pub scan_candidates-StepsOf :
      (runs : List MonitorRun) (saw : Bool) (verified : List (Str × Bool)) (step : Step)
      → scan_candidates host current_id maximum runs saw verified ≡ ok step
      → StepsOf host current_id maximum saw runs step
  unfolding scan_candidates
  scan_candidates-StepsOf [] saw verified step h =
      ok-Ensures (StepsOf host current_id maximum saw []) h (tt, λ unseen. (tt, unseen))
  scan_candidates-StepsOf (run ∷ runs) saw verified step h =
      bind-ok (examine host current_id maximum saw verified run) _ h λ first e h1.
        then_scan run runs saw first step (examine-StepOf saw verified run first e)
          (scan_candidates-StepsOf runs) h1
