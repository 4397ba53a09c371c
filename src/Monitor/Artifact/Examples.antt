-- ===== src/Monitor/Artifact/Examples.antt =====
-- Tests of scripts/monitor-artifact-state.ts, and the theorems at concrete inputs.
use Prim.Native.String.{String}
use maintainflow.Monitor.Artifact.{MonitorRun, ArtifactSelection, artifact_response, is_stateful}
use maintainflow.Monitor.Artifact.Jobs.{
  selector_only_steps, failed_before_state, is_not_acquired_message,
}
use maintainflow.Monitor.Artifact.Latest.{IsLatest, artifact_response-IsLatest}
use maintainflow.Prelude.{
  ℕ, ◌+◌, ◌≡◌, refl, true, false, List, [], ◌∷◌, some, ok, ltb, ◌==◌, if◌then◌else◌, map_result,
}
use maintainflow.Prelude.Json.{
  Json, string, number, whole, object, array, bool, items_of_list, fields_of_list,
}
use maintainflow.Prelude.Text.{Str, codes}

abbrev run : MonitorRun
run = record {
  run_id = 4;
  number = 8;
  attempt_of_run = 1;
  title = codes "Folio monitor: run";
  revision = codes "0123";
  trigger_event = codes "schedule";
  run_status = codes "completed";
  run_conclusion = some (codes "failure");
}

abbrev artifact : ℕ → String → Json
artifact id name = object (
    fields_of_list (
      (codes "id", number (whole id))
      ∷ (codes "name", string (codes name))
      ∷ (codes "expired", bool false)
      ∷ (codes "size_in_bytes", number (whole 10))
      ∷ []))

abbrev answer : Json
answer = object (
    fields_of_list (
      (codes "total_count", number (whole 3))
      ∷ (
        codes "artifacts",
        array (
            items_of_list (
              artifact 1 "folio-monitor-state-v1-1-resumed"
              ∷ artifact 2 "folio-monitor-state-v1-1-prepared"
              ∷ artifact 3 "other"
              ∷ [])),
      )
      ∷ []))

abbrev selection : ArtifactSelection
selection = record {
  selected_id = 2;
  selected_run = 4;
  selected_name = codes "folio-monitor-state-v1-1-prepared";
}

artifact_response-IsLatest_example : IsLatest run 1 answer selection
unfolding artifact_response map_result
artifact_response-IsLatest_example = artifact_response-IsLatest answer run 1 selection refl

abbrev step_conclusion : ℕ → String
step_conclusion index =
    if ltb index 3
    then "success"
    else if index == 3
    then "failure"
    else if ltb index 15
    then "skipped"
    else "success"

abbrev steps_from : ℕ → List Str → List Json
steps_from index [] = []
steps_from index (name ∷ names) =
    object (
      fields_of_list (
        (codes "number", number (whole (index + 1)))
        ∷ (codes "name", string name)
        ∷ (codes "status", string (codes "completed"))
        ∷ (codes "conclusion", string (codes (step_conclusion index)))
        ∷ []))
    ∷ steps_from (index + 1) names

-- The job of a run whose selection step failed.
abbrev failed_job : Json
failed_job = object (
    fields_of_list (
      (codes "id", number (whole 9))
      ∷ (codes "run_id", number (whole 4))
      ∷ (codes "run_attempt", number (whole 1))
      ∷ (codes "head_sha", string (codes "0123"))
      ∷ (codes "name", string (codes "monitor"))
      ∷ (codes "status", string (codes "completed"))
      ∷ (codes "conclusion", string (codes "failure"))
      ∷ (codes "steps", array (items_of_list (steps_from 0 selector_only_steps)))
      ∷ []))

abbrev jobs : Json
jobs = object (
    fields_of_list (
      (codes "total_count", number (whole 1))
      ∷ (codes "jobs", array (items_of_list (failed_job ∷ [])))
      ∷ []))

test_failed_before_state : failed_before_state jobs run ≡ true
unfolding failed_before_state
test_failed_before_state = refl

test_is_not_acquired_message :
    is_not_acquired_message
      (codes " The job was not acquired by Runner of type hosted even after  multiple attempts. ")
    ≡ true
unfolding is_not_acquired_message
test_is_not_acquired_message = refl

test_is_stateful : is_stateful run ≡ ok true
unfolding is_stateful
test_is_stateful = refl
