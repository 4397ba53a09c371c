-- ===== src/Monitor/Artifact/Select.antt =====
-- `selectMonitorArtifact` of scripts/monitor-artifact-state.ts. The race with the timer and the
-- report of a skipped run are not modelled.
pub mod Skips
pub mod Initial
mod Examples
use maintainflow.Bank.Decimal.Print.{digits_of}
use maintainflow.Monitor.Artifact.{
  ArtifactError, MonitorRun, ArtifactSelection, artifact_runs_ambiguous,
  artifact_history_incomplete, latest_monitor_checkpoint_missing, artifact_token_missing,
  artifact_current_run_invalid, artifact_timeout_invalid, monitor_run_superseded,
  artifact_run_refresh_conflict, artifact_attempt_invalid, artifact_selector_source_untrusted,
  monitor_state_missing_requires_reconciliation, read_monitor_run, runs_response, is_concluded,
  require_completed_prior_run, is_stateful, artifact_response,
}
use maintainflow.Monitor.Artifact.Jobs.{
  was_superseded, was_observed, failed_before_state, completed_monitor_job, never_acquired_check_id,
  artifact_faults, prove_never_acquired,
}
use maintainflow.Monitor.Schedule.{is_one_of, run_limit}
use maintainflow.Monitor.Schedule.Evaluate.{contains}
use maintainflow.Monitor.Transport.{Http, read_json, response_limit}
use maintainflow.Prelude.{
  ℕ, zero, suc, ◌+◌, ◌-◌, ◌*◌, min, Bool, true, false, not, ◌&&◌, ◌||◌, List, [], ◌∷◌, ◌++◌, map,
  Option, some, none, Result, ok, err, ◌>>=◌, ◌>>◌, require, refuse, want, ltb, leb, ◌==◌,
  if◌then◌else◌, length,
}
use maintainflow.Prelude.All.{find}
use maintainflow.Prelude.Json.{
  Num, Json, get, as_array, as_string, equals_whole, equals_string, safe_positive,
}
use maintainflow.Prelude.Sort.{sort_by}
use maintainflow.Prelude.Text.{Str, codes, str_eq, is_word}
use maintainflow.Monitor.Artifact.Source.{
  SourceHost, actions_address, attempt_address, page_address, read_attempt, refresh_prior_run,
  skip_run,
}

pub record SelectionOptions : Type 0 where
  pub token : Str
  pub current_id : Num
  pub current_attempt : Num
  pub current_number : Num
  pub initialize : Bool
  pub timeout_ms : Num

-- The loop over the runs of a page ends with a selection, or goes on: was there a stateful run,
-- and which sources have been verified?
pub data Step : Type 0 where
  selects : ArtifactSelection → Step
  goes_on : Bool → List (Str × Bool) → Step

abbrev pub is_missing : ArtifactError → Bool
is_missing fault = elim fault [ latest_monitor_checkpoint_missing ↦ true | _ ↦ false ]

-- List metadata can lag a first attempt that has completed.
unfoldable pub refreshed : Http → ℕ → MonitorRun → Result ArtifactError MonitorRun
unfolding refresh_prior_run
refreshed http current_id run =
    let fresh = refresh_prior_run http run in
    let complete =
      str_eq run.run_status (codes "completed")
      && elim run.run_conclusion [ none ↦ false | some c ↦ true ] in
    if not (run.run_id == current_id) && run.attempt_of_run == 1 && not complete
    then fresh
    else ok run

unfoldable pub artifacts_address : MonitorRun → Str
unfolding digits_of
artifacts_address run =
    actions_address ++ codes "/runs/" ++ digits_of run.run_id ++ codes "/artifacts?per_page=100"

-- The fault of a run that may be skipped.
abbrev pub may_skip : ℕ → MonitorRun → ArtifactError → Bool
may_skip current_id run fault =
    is_missing fault
    && not (run.run_id == current_id)
    && run.attempt_of_run == 1
    && (is_concluded run (codes "failure") || is_concluded run (codes "success"))

abbrev pub maximum_of : ℕ → ℕ → MonitorRun → ℕ
maximum_of current_id maximum run = if run.run_id == current_id then maximum else run.attempt_of_run

-- What is done with the answer about the checkpoints of the run.
unfoldable pub judge_artifacts :
    SourceHost
    → ℕ
    → MonitorRun
    → Json
    → List (Str × Bool)
    → Result ArtifactError ArtifactSelection
    → Result ArtifactError Step
unfolding skip_run
judge_artifacts host current_id run artifacts verified (ok selection) = ok (selects selection)
judge_artifacts host current_id run artifacts verified (err fault) =
    let skipped =
      skip_run host run artifacts verified >>= λ now_verified. ok (goes_on true now_verified) in
    if may_skip current_id run fault then skipped else err fault

unfoldable pub check_candidate :
    SourceHost → ℕ → ℕ → MonitorRun → List (Str × Bool) → Result ArtifactError Step
unfolding refreshed require_completed_prior_run read_json artifacts_address artifact_response
    judge_artifacts
check_candidate host current_id maximum run verified = do
  candidate ← refreshed host.http current_id run
  require_completed_prior_run candidate
  artifacts ← read_json artifact_faults host.http (artifacts_address candidate)
  judge_artifacts host current_id candidate artifacts verified
      (artifact_response artifacts candidate (maximum_of current_id maximum candidate))

unfoldable pub examine :
    SourceHost → ℕ → ℕ → Bool → List (Str × Bool) → MonitorRun → Result ArtifactError Step
unfolding is_stateful check_candidate
examine host current_id maximum saw verified run = do
  stateful ← is_stateful run
  let checked = check_candidate host current_id maximum run verified
  if stateful then checked else ok (goes_on saw verified)

abbrev pub continue_with :
    Step → (Bool → List (Str × Bool) → Result ArtifactError Step) → Result ArtifactError Step
continue_with (selects selection) next = ok (selects selection)
continue_with (goes_on saw verified) next = next saw verified

unfoldable pub scan_candidates :
    SourceHost → ℕ → ℕ → List MonitorRun → Bool → List (Str × Bool) → Result ArtifactError Step
unfolding examine
scan_candidates host current_id maximum [] saw verified = ok (goes_on saw verified)
scan_candidates host current_id maximum (run ∷ runs) saw verified = do
  step ← examine host current_id maximum saw verified run
  continue_with step (scan_candidates host current_id maximum runs)

-- The runs that have been listed.
pub record Seen : Type 0 where
  pub ids : List ℕ
  pub numbers : List ℕ
  pub oldest : Option ℕ

-- `Math.min(...)`, where nothing is below infinity.
abbrev pub lowest : List MonitorRun → Option ℕ
lowest [] = none
lowest (run ∷ runs) = elim (lowest runs) [
  | none ↦ some run.number
  | some n ↦ some (min run.number n)
]

unfoldable pub is_new : Seen → MonitorRun → Bool
unfolding contains
is_new seen run =
    not (contains run.run_id seen.ids)
    && not (contains run.number seen.numbers)
    && elim seen.oldest [ none ↦ true | some n ↦ ltb run.number n ]

unfoldable pub all_new : Seen → List MonitorRun → Bool
unfolding is_new
all_new seen [] = true
all_new seen (run ∷ runs) = is_new seen run && all_new seen runs

abbrev pub see : Seen → List MonitorRun → Seen
see seen runs = record {
  ids = map (λ run. run.run_id) runs ++ seen.ids;
  numbers = map (λ run. run.number) runs ++ seen.numbers;
  oldest = lowest runs;
}

-- The page after so many pages.
unfoldable pub read_next_page : SourceHost → ℕ → ℕ → Seen → Result ArtifactError (List MonitorRun)
unfolding read_json page_address runs_response all_new
read_next_page host total page seen = do
  value ← read_json artifact_faults host.http (page_address (page + 1))
  next ← runs_response value
  require
      (next.1 == total
        && leb (page * run_limit) total
        && length next.0 == min run_limit (total - page * run_limit))
      artifact_history_incomplete
  require (all_new seen next.0) artifact_runs_ambiguous
  ok next.0

-- The history is complete: only one with no stateful run may be initialized.
abbrev pub initialize_history : Bool → Bool → Result ArtifactError (Option ArtifactSelection)
initialize_history initialize saw = do
  refuse saw latest_monitor_checkpoint_missing
  require initialize monitor_state_missing_requires_reconciliation
  ok none

abbrev pub after_page :
    Bool
    → Bool
    → (Bool → List (Str × Bool) → Result ArtifactError (Option ArtifactSelection))
    → Step
    → Result ArtifactError (Option ArtifactSelection)
after_page initialize complete next (selects selection) = ok (some selection)
after_page initialize complete next (goes_on saw verified) =
    let rest = next saw verified in if complete then initialize_history initialize saw else rest

-- The loop over the pages, after `page` of them; at most `left` more may be read.
unfoldable pub select_pages :
    SourceHost
    → Bool
    → ℕ
    → ℕ
    → ℕ
    → (left page : ℕ) → Seen
    → List MonitorRun
    → Bool
    → List (Str × Bool)
    → Result ArtifactError (Option ArtifactSelection)
unfolding scan_candidates read_next_page sort_by
select_pages host initialize current_id maximum total zero page seen runs saw verified = do
  step ← scan_candidates host current_id maximum runs saw verified
  after_page initialize (length seen.ids == total) (λ s v. err artifact_history_incomplete) step
select_pages host initialize current_id maximum total (suc left) page seen runs saw verified = do
  step ← scan_candidates host current_id maximum runs saw verified
  after_page initialize (length seen.ids == total)
      (λ s v. read_next_page host total page seen >>= λ next.
        select_pages host initialize current_id maximum total left (page + 1) (see seen next)
          (sort_by (λ run. run.number) next) s v)
      step

-- `runs.some(run => run.run_number > number && isStateful(run))`
unfoldable pub has_newer : ℕ → List MonitorRun → Result ArtifactError Bool
unfolding is_stateful
has_newer number [] = ok false
has_newer number (run ∷ runs) =
    let rest = has_newer number runs in
    let stateful = is_stateful run >>= λ s. if s then ok true else rest in
    if ltb number run.number then stateful else rest

abbrev pub older_than : ℕ → List MonitorRun → List MonitorRun
older_than number [] = []
older_than number (run ∷ runs) =
    let rest = older_than number runs in if ltb run.number number then run ∷ rest else rest

abbrev pub require_stateful : MonitorRun → ArtifactError → Result ArtifactError (Unit {0})
unfolding is_stateful
require_stateful run fault = is_stateful run >>= λ stateful. require stateful fault

unfoldable pub previous_attempt :
    SourceHost → MonitorRun → ℕ → Result ArtifactError (List MonitorRun)
unfolding read_attempt is_stateful
previous_attempt host current attempt = do
  run ← read_attempt host.http current attempt
  require
      (run.run_id == current.run_id
        && run.number == current.number
        && run.attempt_of_run == attempt)
      artifact_attempt_invalid
  require_stateful run artifact_attempt_invalid
  ok (run ∷ [])

-- The attempt before this one, or the older runs with the newest first.
unfoldable pub first_candidates :
    SourceHost → MonitorRun → ℕ → ℕ → List MonitorRun → Result ArtifactError (List MonitorRun)
unfolding previous_attempt sort_by
first_candidates host current number attempt runs =
    let prior = previous_attempt host current (attempt - 1) in
    if ltb 1 attempt then prior else ok (sort_by (λ run. run.number) (older_than number runs))

unfoldable pub select_monitor_artifact :
    SourceHost → SelectionOptions → Result ArtifactError (Option ArtifactSelection)
unfolding safe_positive read_json page_address runs_response find has_newer is_stateful
    first_candidates select_pages
select_monitor_artifact host options = do
  require (leb 16 (length options.token)) artifact_token_missing
  id ← want (safe_positive options.current_id) artifact_current_run_invalid
  attempt ← want (safe_positive options.current_attempt) artifact_current_run_invalid
  number ← want (safe_positive options.current_number) artifact_current_run_invalid
  timeout ← want (safe_positive options.timeout_ms) artifact_timeout_invalid
  require (leb timeout 30000) artifact_timeout_invalid
  value ← read_json artifact_faults host.http (page_address 1)
  listed ← runs_response value
  require (length listed.0 == min run_limit listed.1) artifact_history_incomplete
  current ← want (find (λ run. run.run_id == id) listed.0) artifact_current_run_invalid
  require (current.number == number && current.attempt_of_run == attempt)
      artifact_current_run_invalid
  require_stateful current artifact_current_run_invalid
  newer ← has_newer number listed.0
  refuse newer monitor_run_superseded
  runs ← first_candidates host current number attempt listed.0
  select_pages host options.initialize id (attempt - 1) listed.1 9 1
      (see (record { ids = []; numbers = []; oldest = none }) listed.0) runs false []
