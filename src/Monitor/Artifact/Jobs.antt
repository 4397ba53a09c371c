-- ===== src/Monitor/Artifact/Jobs.antt =====
-- What the job of a run proves about it: `failedBeforeState`, `completedMonitorJob`,
-- `neverAcquiredCheckId` and `proveNeverAcquired` of scripts/monitor-artifact-state.ts.
use maintainflow.Bank.Decimal.Print.{digits_of}
use maintainflow.Monitor.Artifact.{
  ArtifactError, artifact_api_unavailable, artifact_response_limit, artifact_response_invalid,
  MonitorRun, is_concluded, attempt_named,
}
use maintainflow.Monitor.Transport.{Http, ReadFaults, read_json}
use maintainflow.Prelude.{
  ℕ, ◌+◌, Bool, true, false, ◌&&◌, ◌||◌, List, [], ◌∷◌, ◌++◌, map, Option, some, none, Result, ok,
  ◌>>=◌, ltb, ◌==◌, if◌then◌else◌, length, take, drop,
}
use maintainflow.Prelude.Json.{
  Json, get, as_string, as_array, as_positive, equals_string, equals_whole,
}
use maintainflow.Prelude.Text.{Str, codes, str_eq, starts_with, trim, fold_spaces, lower_ascii}

abbrev pub selector_only_steps : List Str
selector_only_steps =
    codes "Set up job"
    ∷ codes "Run actions/checkout@11bd71901bbe5b1630ceea73d27597364c9af683"
    ∷ codes "Run actions/setup-node@49933ea5288caeca8642d1e84afbd3f7d6820020"
    ∷ codes "Select the authoritative encrypted checkpoint"
    ∷ codes "Download exactly the selected encrypted artifact"
    ∷ codes "Validate exact downloaded file shape and authenticate state"
    ∷ codes "Preserve the resumed checkpoint before retrying pending notices"
    ∷ codes "Retry previously checkpointed pending notices"
    ∷ codes "Observe current health and prepare the next encrypted state"
    ∷ codes "Commit prepared notices before sending new mail"
    ∷ codes "Deliver newly checkpointed incident or recovery notices"
    ∷ codes "Commit the delivered checkpoint"
    ∷ codes "Read dependencies without incident state or email"
    ∷ codes "Deliver approved test notices with a frozen identity and timestamp"
    ∷ codes "Post Run actions/setup-node@49933ea5288caeca8642d1e84afbd3f7d6820020"
    ∷ codes "Post Run actions/checkout@11bd71901bbe5b1630ceea73d27597364c9af683"
    ∷ codes "Complete job"
    ∷ []

-- `value.total_count === 1` and the one job of `value.jobs`.
unfoldable pub single_job : Json → Option Json
unfolding get
single_job value = elim (as_array (get "jobs" value)) [
  | some (job ∷ []) ↦ if equals_whole (get "total_count" value) 1 then some job else none
  | _ ↦ none
]

-- The job is the monitor's, of the first attempt of the run, and ended in that way.
unfoldable pub is_job_of : MonitorRun → Str → Json → Bool
unfolding get
is_job_of run conclusion job =
    equals_whole (get "run_id" job) run.run_id
    && equals_whole (get "run_attempt" job) 1
    && equals_string (get "head_sha" job) run.revision
    && equals_string (get "name" job) (codes "monitor")
    && equals_string (get "status" job) (codes "completed")
    && equals_string (get "conclusion" job) conclusion

-- `every` over the steps, with their names, the index and the number of the step before.
unfoldable pub steps_pass : (ℕ → Option Json → Bool) → ℕ → ℕ → List Str → List Json → Bool
unfolding get as_positive
steps_pass allowed index previous [] [] = true
steps_pass allowed index previous (name ∷ names) (step ∷ steps) =
    elim (as_positive (get "number" step)) [
      | none ↦ false
      | some number ↦
          ltb previous number
          && equals_string (get "name" step) name
          && equals_string (get "status" step) (codes "completed")
          && allowed index (get "conclusion" step)
          && steps_pass allowed (index + 1) number names steps
    ]
steps_pass allowed index previous _ _ = false

abbrev pub is_success : Option Json → Bool
is_success value = equals_string value (codes "success")

abbrev pub is_skipped : Option Json → Bool
is_skipped value = equals_string value (codes "skipped")

abbrev pub failed_conclusion : ℕ → Option Json → Bool
failed_conclusion index value =
    if ltb index 3
    then is_success value
    else if index == 3
    then equals_string value (codes "failure")
    else if ltb index 15
    then is_skipped value
    else is_success value

abbrev pub completed_conclusion : ℕ → Option Json → Bool
completed_conclusion index value =
    if ltb index 4 || ltb 14 index then is_success value else is_success value || is_skipped value

unfoldable pub steps_of : Json → List Json
unfolding get
steps_of job = elim (as_array (get "steps" job)) [ none ↦ [] | some steps ↦ steps ]

unfoldable pub failed_before_state : Json → MonitorRun → Bool
unfolding single_job is_job_of steps_pass steps_of
failed_before_state value run = elim (single_job value) [
  | none ↦ false
  | some job ↦
      run.attempt_of_run == 1
      && is_concluded run (codes "failure")
      && is_job_of run (codes "failure") job
      && steps_pass failed_conclusion 0 0 selector_only_steps (steps_of job)
]

pub data JobProof : Type 0 where
  was_observed was_superseded : JobProof

abbrev pub all_steps : (Option Json → Bool) → List (Option Json) → Bool
all_steps test [] = true
all_steps test (c ∷ cs) = test c && all_steps test cs

-- The verdict on the conclusions of the seventeen steps.
unfoldable pub judge_steps : List (Option Json) → Option JobProof
judge_steps conclusions =
    let resumed = take 4 (drop 4 conclusions) in
    let observed =
      (all_steps is_success resumed || all_steps is_skipped resumed)
      && all_steps is_success (take 4 (drop 8 conclusions))
      && all_steps is_skipped (take 2 (drop 12 conclusions)) in
    if all_steps is_skipped (take 10 (drop 4 conclusions))
    then some was_superseded
    else if observed
    then some was_observed
    else none

unfoldable pub completed_monitor_job : Json → MonitorRun → Option JobProof
unfolding get as_positive single_job is_job_of steps_pass steps_of judge_steps
completed_monitor_job value run = elim (single_job value) [
  | none ↦ none
  | some job ↦ elim (as_positive (get "id" job)) [
    | none ↦ none
    | some id ↦
        if run.attempt_of_run == 1
          && is_job_of run (codes "success") job
          && steps_pass completed_conclusion 0 0 selector_only_steps (steps_of job)
        then judge_steps (map (get "conclusion") (steps_of job))
        else none
  ]
]

abbrev pub check_prefix : Str
check_prefix = codes "https://api.github.com/repos/rory-hayes/maintainflow/check-runs/"

-- The number behind the prefix of an address.
unfoldable pub check_of_address : Str → Option ℕ
unfolding starts_with attempt_named
check_of_address address =
    if starts_with address check_prefix
    then attempt_named (drop (length check_prefix) address)
    else none

-- No step was run and no runner was assigned.
unfoldable pub is_unassigned : Json → Bool
unfolding get
is_unassigned job =
    equals_whole (get "runner_id" job) 0
    && equals_string (get "runner_name" job) []
    && equals_whole (get "runner_group_id" job) 0
    && equals_string (get "runner_group_name" job) []

abbrev pub has_no_steps : Option (List Json) → Bool
has_no_steps (some []) = true
has_no_steps _ = false

unfoldable pub never_acquired_check_id : Json → MonitorRun → Option ℕ
unfolding get as_positive single_job is_job_of is_unassigned check_of_address
never_acquired_check_id value run = elim (single_job value) [
  | none ↦ none
  | some job ↦ elim (as_positive (get "id" job)) [
    | none ↦ none
    | some id ↦ elim (as_string (get "check_run_url" job)) [
      | none ↦ none
      | some address ↦
          if run.attempt_of_run == 1
            && is_concluded run (codes "failure")
            && is_job_of run (codes "cancelled") job
            && has_no_steps (as_array (get "steps" job))
            && is_unassigned job
          then check_of_address address
          else none
    ]
  ]
]

abbrev pub artifact_faults : ReadFaults ArtifactError
artifact_faults = record {
  unavailable_code = artifact_api_unavailable;
  limit_code = artifact_response_limit;
  invalid_code = artifact_response_invalid;
}

-- The tests of the check run.
unfoldable pub is_check_of : ℕ → MonitorRun → Json → Bool
unfolding get
is_check_of check_id run check =
    equals_whole (get "id" check) check_id
    && equals_string (get "head_sha" check) run.revision
    && equals_string (get "name" check) (codes "monitor")
    && equals_string (get "status" check) (codes "completed")
    && equals_string (get "conclusion" check) (codes "cancelled")
    && elim (get "app" check) [
      | none ↦ false
      | some app ↦
          equals_whole (get "id" app) 15368
          && equals_string (get "slug" app) (codes "github-actions")
    ]
    && elim (get "output" check) [
      | none ↦ false
      | some output ↦ equals_whole (get "annotations_count" output) 1
    ]

-- A dot stays only in front of something.
abbrev pub drop_dot : ℕ → Str → Str
drop_dot c [] = if c == b'.' then [] else c ∷ []
drop_dot c (d ∷ s) = c ∷ d ∷ s

-- `.replace(/\.+$/, '')`
unfoldable pub drop_dots : Str → Str
drop_dots [] = []
drop_dots (c ∷ s) = let rest = drop_dots s in drop_dot c rest

-- The message without differences of presentation. No letter of the text that it is compared with
-- is the lower case of a letter outside ASCII.
unfoldable pub is_not_acquired_message : Str → Bool
unfolding fold_spaces trim drop_dots lower_ascii
is_not_acquired_message message =
    str_eq (map lower_ascii (drop_dots (trim (fold_spaces false message))))
      (codes "the job was not acquired by runner of type hosted even after multiple attempts")

unfoldable pub annotations_prove : Json → Bool
unfolding get is_not_acquired_message
annotations_prove value = elim (as_array (some value)) [
  | some (annotation ∷ []) ↦
      equals_string (get "annotation_level" annotation) (codes "failure")
      && elim (as_string (get "message" annotation)) [
        | none ↦ false
        | some message ↦ is_not_acquired_message message
      ]
  | _ ↦ false
]

abbrev pub check_address : ℕ → Str
unfolding digits_of
check_address check_id = check_prefix ++ digits_of check_id

unfoldable pub prove_never_acquired : Http → ℕ → MonitorRun → Result ArtifactError Bool
unfolding read_json is_check_of annotations_prove
prove_never_acquired http check_id run = do
  check ← read_json artifact_faults http (check_address check_id)
  let annotated =
      read_json artifact_faults http (check_address check_id ++ codes "/annotations?per_page=100")
  let proof = annotated >>= λ annotations. ok (annotations_prove annotations)
  if is_check_of check_id run check then proof else ok false
