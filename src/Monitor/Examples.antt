-- ===== src/Monitor/Examples.antt =====
-- Runs of the code of scripts/stale-monitor.ts and scripts/monitor-artifact-state.ts.
use maintainflow.Monitor.Instant.{date_parse, timestamp, to_iso_string}
use maintainflow.Monitor.Schedule.{ObserverReport, Run}
use maintainflow.Monitor.Schedule.Evaluate.{evaluate_schedule, read_runs, report_of}
use maintainflow.Monitor.Schedule.Healthy.{IsSupported, evaluate_schedule-IsSupported}
use maintainflow.Prelude.Json.{
  Json, no_fields, field, string, number, whole, object, array, null, items_of_list, fields_of_list,
}
use maintainflow.Monitor.Schedule.Exit.{IsObserved, main-exit_code}
use maintainflow.Monitor.Schedule.Observe.{
  ObserverEnv, plan, observed, reported, main, main_options, api,
}
use maintainflow.Monitor.Transport.{Http}
use maintainflow.Prelude.{Bool, if◌then◌else◌, ◌==◌, ◌⊎◌}
use maintainflow.Prelude.{ok, err}
use Prim.Native.String.{String}
use maintainflow.Prelude.{◌≡◌, refl, true, false, some, none, ℕ, ◌+◌, map, List, [], ◌∷◌}
use maintainflow.Prelude.Text.{Str, codes, str_eq}

abbrev tick : Str
tick = codes "2026-02-28T23:57:00.000Z"

test_date_parse : date_parse tick ≡ some 63939542220000
unfolding date_parse
test_date_parse = refl

test_to_iso_string : to_iso_string 63939542220000 ≡ tick
unfolding to_iso_string
test_to_iso_string = refl

test_timestamp_leap_day : timestamp (codes "2024-02-29T00:00:00Z") 63939542220000 ≡ true
unfolding timestamp
test_timestamp_leap_day = refl

test_timestamp_no_leap_day : timestamp (codes "2025-02-29T00:00:00Z") 63939542220000 ≡ false
unfolding timestamp
test_timestamp_no_leap_day = refl

test_timestamp_midnight : timestamp (codes "2025-02-28T24:00:00Z") 63939542220000 ≡ false
unfolding timestamp
test_timestamp_midnight = refl

abbrev text : String → Json
text s = string (codes s)

abbrev count : ℕ → Json
count n = number (whole n)

abbrev metadata : Json
metadata = object (
    fields_of_list (
      (codes "id", count 77)
      ∷ (codes "path", text ".github/workflows/operations-monitor.yml")
      ∷ (codes "state", text "active")
      ∷ []))

abbrev repository_field : Json
repository_field = object (field (codes "full_name") (text "rory-hayes/maintainflow") no_fields)

abbrev scheduled_run : ℕ → String → Json → String → Json
scheduled_run run_number status conclusion created_at = object (
    fields_of_list (
      (codes "id", count (1000 + run_number))
      ∷ (codes "run_number", count run_number)
      ∷ (codes "run_attempt", count 1)
      ∷ (codes "workflow_id", count 77)
      ∷ (codes "display_title", text "Folio monitor: run")
      ∷ (codes "event", text "schedule")
      ∷ (codes "head_branch", text "main")
      ∷ (codes "head_sha", text "0123456789abcdef0123456789abcdef01234567")
      ∷ (codes "status", text status)
      ∷ (codes "conclusion", conclusion)
      ∷ (codes "created_at", text created_at)
      ∷ (codes "updated_at", text created_at)
      ∷ (codes "repository", repository_field)
      ∷ (codes "head_repository", repository_field)
      ∷ []))

abbrev listed : List Json
listed =
    scheduled_run 8 "completed" (text "success") "2026-02-28T23:52:00Z"
    ∷ scheduled_run 9 "queued" null "2026-02-28T23:57:00Z"
    ∷ []

-- A queued run, and behind it a success.
abbrev history : Json
history = object (
    fields_of_list
      ((codes "total_count", count 2) ∷ (codes "workflow_runs", array (items_of_list listed)) ∷ []))

abbrev clock : ℕ
clock = 63939542280000

unfoldable runs : List Run
unfolding read_runs
runs = elim (read_runs none 77 clock listed) [ err e ↦ [] | ok sorted ↦ sorted ]

test_runs : map (λ run. run.run_number) runs ≡ 9 ∷ 8 ∷ []
unfolding runs
test_runs = refl

unfoldable report : ObserverReport
unfolding report_of runs
report = report_of false clock 20 true false runs

evaluate_schedule-IsSupported_example : IsSupported metadata history (some clock) none report
unfolding evaluate_schedule report
evaluate_schedule-IsSupported_example =
    evaluate_schedule-IsSupported metadata history (some clock) (whole 20) none report refl refl

abbrev success : Run
success = record {
  id = 1008;
  run_number = 8;
  run_attempt = 1;
  display_title = codes "Folio monitor: run";
  head_sha = codes "0123456789abcdef0123456789abcdef01234567";
  status = codes "completed";
  conclusion = some (codes "success");
  created_at = codes "2026-02-28T23:52:00Z";
  trigger_at = none;
}

-- A transport with two answers, of one byte each.
abbrev http : Http
http = record {
  request = λ url. some (record {
    status = 200;
    content_length = some (codes "1");
    body = some (((if str_eq url api then 1 else 2) ∷ []) ∷ []);
  });
  parse =
      λ bytes. elim bytes [ [] ↦ none | byte ∷ _ ↦ some (if byte == 1 then metadata else history) ];
}

abbrev env : ObserverEnv
env = record {
  gh_token = some (codes "0123456789abcdef");
  stale_monitor_max_age_minutes = none;
  folio_monitor_trigger_actor_id = none;
}

abbrev arguments : List Str
arguments = codes "--check" ∷ []

main-exit_code_example :
    (main arguments env http (some clock) (some clock) ≡ plan)
    ⊎ ((external : Bool) × (found : ObserverReport) × (arguments
          ≡ (if external then codes "--check-external" else codes "--check") ∷ [])
        × (main arguments env http (some clock) (some clock) ≡ observed (reported found))
        × IsObserved http (main_options external env (some clock) (some clock)) found)
unfolding main
main-exit_code_example = main-exit_code arguments env http (some clock) (some clock) refl
