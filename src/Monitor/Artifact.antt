-- ===== src/Monitor/Artifact.antt =====
-- The choice of a checkpoint among the artifacts of a run: `runsResponse`, `requireCompletedPriorRun`,
-- `isStateful` and `artifactResponse` of scripts/monitor-artifact-state.ts.
pub mod Candidates
pub mod Latest
pub mod Jobs
pub mod Observed
pub mod Proofs
pub mod External
pub mod Source
pub mod Select
pub mod Main
mod Examples
use maintainflow.Monitor.Schedule.{repository, run_limit, is_one_of, is_revision, is_repository}
use maintainflow.Monitor.Schedule.Evaluate.{contains, all_distinct}
use maintainflow.Prelude.{
  ℕ, ◌+◌, ◌*◌, Bool, true, false, not, ◌&&◌, ◌||◌, List, [], ◌∷◌, ◌++◌, map, Option, some, none,
  Result, ok, err, ◌>>=◌, ◌>>◌, require, refuse, want, map_result, ltb, leb, ◌==◌, if◌then◌else◌,
  length, drop,
}
use maintainflow.Prelude.Json.{
  Json, get, as_string, as_bool, as_array, as_count, as_positive, equals_string, equals_whole,
  is_null, safe_positive, whole,
}
use maintainflow.Prelude.Sort.{first_of, sort_by}
use maintainflow.Prelude.Text.{Str, codes, str_eq, starts_with, split, only_digits, digits_value}

-- The codes of an `ArtifactStateError`.
pub data ArtifactError : Type 0 where
  artifact_runs_invalid artifact_runs_ambiguous : ArtifactError
  prior_monitor_run_incomplete : ℕ → ℕ → Str → ArtifactError
  artifact_run_unrecognized artifact_history_incomplete artifact_metadata_invalid : ArtifactError
  artifact_generation_ambiguous artifact_generation_invalid artifact_scope_invalid : ArtifactError
  latest_monitor_checkpoint_missing successful_monitor_checkpoint_missing : ArtifactError
  latest_monitor_checkpoint_expired artifact_payload_limit : ArtifactError
  artifact_api_unavailable artifact_response_limit artifact_response_invalid : ArtifactError
  artifact_token_missing artifact_current_run_invalid artifact_timeout_invalid : ArtifactError
  monitor_run_superseded artifact_run_refresh_conflict artifact_attempt_invalid
        artifact_selector_source_untrusted :
      ArtifactError
  monitor_state_missing_requires_reconciliation : ArtifactError
  external_trigger_invalid external_trigger_signature_invalid : ArtifactError
  artifact_arguments_invalid artifact_environment_invalid : ArtifactError
  external_trigger_event_invalid artifact_output_missing artifact_selector_failed : ArtifactError

abbrev pub artifact_limit : ℕ
artifact_limit = 100

abbrev pub payload_limit : ℕ
payload_limit = 1048576

pub data Phase : Type 0 where
  resumed prepared delivered : Phase

-- `phases[phase]`.
abbrev pub phase_rank : Phase → ℕ
phase_rank resumed = 0
phase_rank prepared = 1
phase_rank delivered = 2

-- Of a run, what is not the same for all runs.
pub record MonitorRun : Type 0 where
  pub run_id : ℕ
  pub number : ℕ
  pub attempt_of_run : ℕ
  pub title : Str
  pub revision : Str
  pub trigger_event : Str
  pub run_status : Str
  pub run_conclusion : Option Str

-- `conclusion === null || typeof conclusion === 'string'`.
abbrev pub conclusion_of : Option Json → Option (Option Str)
conclusion_of value = elim (as_string value) [
  | some text ↦ some (some text)
  | none ↦ if is_null value then some none else none
]

unfoldable pub read_monitor_run : Json → Result ArtifactError MonitorRun
unfolding get as_positive is_repository
read_monitor_run entry = do
  id ← want (as_positive (get "id" entry)) artifact_runs_invalid
  number ← want (as_positive (get "run_number" entry)) artifact_runs_invalid
  attempt ← want (as_positive (get "run_attempt" entry)) artifact_runs_invalid
  title ← want (as_string (get "display_title" entry)) artifact_runs_invalid
  revision ← want (as_string (get "head_sha" entry)) artifact_runs_invalid
  trigger_event ← want (as_string (get "event" entry)) artifact_runs_invalid
  run_status ← want (as_string (get "status" entry)) artifact_runs_invalid
  run_conclusion ← want (conclusion_of (get "conclusion" entry)) artifact_runs_invalid
  require
      (is_revision revision
        && equals_string (get "head_branch" entry) (codes "main")
        && is_repository (get "repository" entry)
        && is_repository (get "head_repository" entry))
      artifact_runs_invalid
  ok (record {
    run_id = id;
    number = number;
    attempt_of_run = attempt;
    title = title;
    revision = revision;
    trigger_event = trigger_event;
    run_status = run_status;
    run_conclusion = run_conclusion;
  })

-- The runs of a page, and how many there are in all.
unfoldable pub runs_response : Json → Result ArtifactError (List MonitorRun × ℕ)
unfolding get as_count read_monitor_run map_result all_distinct
runs_response value = do
  total ← want (as_count (get "total_count" value)) artifact_runs_invalid
  listed ← want (as_array (get "workflow_runs" value)) artifact_runs_invalid
  require (leb (length listed) run_limit && leb (length listed) total) artifact_runs_invalid
  runs ← map_result read_monitor_run listed
  require
      (all_distinct (map (λ run. run.run_id) runs) && all_distinct (map (λ run. run.number) runs))
      artifact_runs_ambiguous
  ok (runs, total)

abbrev pub is_concluded : MonitorRun → Str → Bool
is_concluded run text = elim run.run_conclusion [ none ↦ false | some c ↦ str_eq c text ]

abbrev known_statuses : List Str
known_statuses =
    codes "queued"
    ∷ codes "in_progress"
    ∷ codes "waiting"
    ∷ codes "pending"
    ∷ codes "requested"
    ∷ codes "completed"
    ∷ []

unfoldable pub require_completed_prior_run : MonitorRun → Result ArtifactError (Unit {0})
require_completed_prior_run run =
    let concluded : Bool = elim run.run_conclusion [ none ↦ false | some c ↦ true ] in
    require (str_eq run.run_status (codes "completed") && concluded) (
      prior_monitor_run_incomplete run.run_id run.attempt_of_run
        (if is_one_of run.run_status known_statuses then run.run_status else codes "unrecognized"))

unfoldable pub is_stateful : MonitorRun → Result ArtifactError Bool
unfolding starts_with
is_stateful run =
    let recognized =
      (is_one_of run.title (codes "Folio monitor: run" ∷ codes "Folio monitor: initialize" ∷ [])
        && is_one_of run.trigger_event (codes "schedule" ∷ codes "workflow_dispatch" ∷ []))
      || ((str_eq run.title (codes "Folio monitor: external-run")
            || starts_with run.title (codes "Folio monitor: external-run "))
          && str_eq run.trigger_event (codes "workflow_dispatch")) in
    if is_one_of run.title (
      codes "Folio monitor: probe"
      ∷ codes "Folio monitor: delivery-drill"
      ∷ codes "Folio monitor: disabled"
      ∷ [])
    then ok false
    else (require recognized artifact_run_unrecognized >> ok true)

-- An artifact that holds a checkpoint.
pub record Candidate : Type 0 where
  pub artifact_id : ℕ
  pub name : Str
  pub expired : Bool
  pub size_in_bytes : ℕ
  pub attempt : ℕ
  pub phase : Phase

pub record ArtifactSelection : Type 0 where
  pub selected_id : ℕ
  pub selected_run : ℕ
  pub selected_name : Str

abbrev pub artifact_prefix : Str
artifact_prefix = codes "folio-monitor-state-v1-"

unfoldable pub phase_named : Str → Option Phase
phase_named s =
    if str_eq s (codes "resumed")
    then some resumed
    else if str_eq s (codes "prepared")
    then some prepared
    else if str_eq s (codes "delivered")
    then some delivered
    else none

-- `/^[1-9][0-9]*$/`, and the number where it is safe.
unfoldable pub attempt_named : Str → Option ℕ
unfolding only_digits digits_value safe_positive
attempt_named [] = none
attempt_named (c ∷ s) =
    if leb b'1' c && leb c b'9' && only_digits s
    then safe_positive (whole (digits_value (c ∷ s) 0))
    else none

-- The attempt and the phase that a name tells, behind the prefix.
unfoldable pub generation_named : Str → Option (ℕ × Phase)
unfolding split phase_named attempt_named
generation_named name = elim (split b'-' (drop (length artifact_prefix) name)) [
  | attempt ∷ phase ∷ [] ↦ elim (attempt_named attempt) [
    | none ↦ none
    | some n ↦ elim (phase_named phase) [ none ↦ none | some p ↦ some (n, p) ]
  ]
  | _ ↦ none
]

-- `entry.workflow_run`, where it is there, is this run on the main branch.
unfoldable pub is_in_scope : Option Json → MonitorRun → Bool
unfolding get
is_in_scope none run = true
is_in_scope (some value) run =
    equals_whole (get "id" value) run.run_id
    && equals_string (get "head_branch" value) (codes "main")

abbrev pub generation_code : ℕ × Phase → ℕ
generation_code generation = generation.0 * 3 + phase_rank generation.1

-- The fields of an artifact.
pub record Artifact : Type 0 where
  pub id : ℕ
  pub artifact_name : Str
  pub is_expired : Bool
  pub byte_size : ℕ

unfoldable pub read_artifact : Json → Result ArtifactError Artifact
unfolding get as_positive as_count
read_artifact entry = do
  id ← want (as_positive (get "id" entry)) artifact_metadata_invalid
  name ← want (as_string (get "name" entry)) artifact_metadata_invalid
  expired ← want (as_bool (get "expired" entry)) artifact_metadata_invalid
  size ← want (as_count (get "size_in_bytes" entry)) artifact_metadata_invalid
  ok (record { id = id; artifact_name = name; is_expired = expired; byte_size = size })

-- The candidate of an artifact with the prefix; `generations` are those of the artifacts before.
unfoldable pub read_candidate :
    MonitorRun → List ℕ → Json → Artifact → Result ArtifactError Candidate
unfolding get generation_named is_in_scope contains
read_candidate run generations entry artifact = do
  generation ← want (generation_named artifact.artifact_name) artifact_generation_invalid
  require (leb generation.0 run.attempt_of_run) artifact_generation_invalid
  require (is_in_scope (get "workflow_run" entry) run) artifact_scope_invalid
  refuse (contains (generation_code generation) generations) artifact_generation_ambiguous
  ok (record {
    artifact_id = artifact.id;
    name = artifact.artifact_name;
    expired = artifact.is_expired;
    size_in_bytes = artifact.byte_size;
    attempt = generation.0;
    phase = generation.1;
  })

abbrev pub code_of : Candidate → ℕ
code_of c = generation_code (c.attempt, c.phase)

-- `continue` where the name has another prefix.
unfoldable pub candidate_list :
    MonitorRun → List ℕ → Json → Artifact → Result ArtifactError (List Candidate)
unfolding read_candidate starts_with
candidate_list run generations entry artifact =
    let read = read_candidate run generations entry artifact >>= λ candidate. ok (candidate ∷ []) in
    if starts_with artifact.artifact_name artifact_prefix then read else ok []

abbrev pub keep_up_to : ℕ → List Candidate → List Candidate
keep_up_to maximum [] = []
keep_up_to maximum (c ∷ cs) =
    if leb c.attempt maximum then c ∷ keep_up_to maximum cs else keep_up_to maximum cs

-- The loop over the artifacts, with the ids and the generations that were seen.
unfoldable pub read_candidates :
    MonitorRun → ℕ → List ℕ → List ℕ → List Json → Result ArtifactError (List Candidate)
unfolding read_artifact contains candidate_list
read_candidates run maximum ids generations [] = ok []
read_candidates run maximum ids generations (entry ∷ entries) = do
  artifact ← read_artifact entry
  refuse (contains artifact.id ids) artifact_generation_ambiguous
  found ← candidate_list run generations entry artifact
  others ←
      read_candidates run maximum (artifact.id ∷ ids) (map code_of found ++ generations) entries
  ok (keep_up_to maximum found ++ others)

abbrev pub is_delivered : Phase → Bool
is_delivered delivered = true
is_delivered _ = false

-- The order of `candidates.sort` is that of the codes, the greatest first.
unfoldable pub artifact_response : Json → MonitorRun → ℕ → Result ArtifactError ArtifactSelection
unfolding get as_count read_candidates sort_by
artifact_response value run maximum = do
  total ← want (as_count (get "total_count" value)) artifact_history_incomplete
  artifacts ← want (as_array (get "artifacts" value)) artifact_history_incomplete
  require (leb (length artifacts) artifact_limit && total == length artifacts)
      artifact_history_incomplete
  candidates ← read_candidates run maximum [] [] artifacts
  selected ← want (first_of (sort_by code_of candidates)) latest_monitor_checkpoint_missing
  refuse
      (is_concluded run (codes "success")
        && not (selected.attempt == maximum && is_delivered selected.phase))
      successful_monitor_checkpoint_missing
  refuse selected.expired latest_monitor_checkpoint_expired
  require (leb 1 selected.size_in_bytes && leb selected.size_in_bytes payload_limit)
      artifact_payload_limit
  ok (record {
    selected_id = selected.artifact_id;
    selected_run = run.run_id;
    selected_name = selected.name;
  })
