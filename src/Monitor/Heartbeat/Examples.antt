-- ===== src/Monitor/Heartbeat/Examples.antt =====
-- Tests of scripts/monitor-heartbeat.ts, and its theorem at a concrete run.
use maintainflow.Monitor.Artifact.Jobs.{selector_only_steps}
use maintainflow.Monitor.Transport.{Http}
use maintainflow.Prelude.{ℕ, ◌+◌, ◌≡◌, refl, List, [], ◌∷◌, some, none, ◌==◌, if◌then◌else◌, ◌||◌}
use maintainflow.Prelude.Json.{
  Json, string, number, whole, object, array, items_of_list, fields_of_list,
}
use maintainflow.Prelude.Text.{Str, codes, str_eq}
use maintainflow.Monitor.Heartbeat.{
  HeartbeatEnv, HeartbeatOptions, report, sent, rejected, completed_schedule_accepted, failed_by,
  heartbeat_not_accepted, send_heartbeat,
}
use maintainflow.Monitor.Heartbeat.Sent.{IsBeat, send_heartbeat-IsBeat}

abbrev watch : Str
watch = codes "https://hc-ping.com/01234567-89ab-cdef-0123-456789abcdef"

abbrev env : HeartbeatEnv
env = record {
  github_event_name = some (codes "workflow_run");
  github_repository = some (codes "rory-hayes/maintainflow");
  github_ref = some (codes "refs/heads/main");
  github_run_attempt = some (codes "1");
  folio_monitor_enabled = some (codes "true");
  folio_monitor_external_trigger_enabled = none;
  folio_monitor_trigger_actor_id = none;
  folio_monitor_heartbeat_url = some watch;
  gh_token = some (codes "0123456789abcdef");
  source_event = some (codes "schedule");
  source_title = some (codes "Folio monitor: run");
  source_actor_id = none;
  source_repository = some (codes "rory-hayes/maintainflow");
  source_head_repository = some (codes "rory-hayes/maintainflow");
  source_branch = some (codes "main");
  source_workflow = some (codes "Operational monitoring");
  source_path = some (codes ".github/workflows/operations-monitor.yml");
  source_status = some (codes "completed");
  source_conclusion = some (codes "success");
  source_attempt = some (codes "1");
  source_run_id = some (codes "4");
  source_sha = some (codes "0123456789abcdef0123456789abcdef01234567");
  source_created_at = some (codes "2026-02-28T23:52:00Z");
  source_updated_at = some (codes "2026-02-28T23:53:00Z");
}

abbrev options : HeartbeatOptions
options = record {
  now = some 63939542040000;
  later = some 63939542041000;
  timeout_ms = whole 10000;
}

abbrev steps_from : ℕ → List Str → List Json
steps_from index [] = []
steps_from index (name ∷ names) =
    object (
      fields_of_list (
        (codes "number", number (whole (index + 1)))
        ∷ (codes "name", string name)
        ∷ (codes "status", string (codes "completed"))
        ∷ (
          codes "conclusion",
          string (codes (if index == 12 || index == 13 then "skipped" else "success")),
        )
        ∷ []))
    ∷ steps_from (index + 1) names

-- The job of a run that has observed.
abbrev jobs : Json
jobs = object (
    fields_of_list (
      (codes "total_count", number (whole 1))
      ∷ (
        codes "jobs",
        array (
            items_of_list (
              object (
                fields_of_list (
                  (codes "id", number (whole 9))
                  ∷ (codes "run_id", number (whole 4))
                  ∷ (codes "run_attempt", number (whole 1))
                  ∷ (codes "head_sha", string (codes "0123456789abcdef0123456789abcdef01234567"))
                  ∷ (codes "name", string (codes "monitor"))
                  ∷ (codes "status", string (codes "completed"))
                  ∷ (codes "conclusion", string (codes "success"))
                  ∷ (codes "steps", array (items_of_list (steps_from 0 selector_only_steps)))
                  ∷ []))
              ∷ [])),
      )
      ∷ []))

-- The jobs, and what the watch answers.
abbrev http : Str → Http
http answer = record {
  request = λ url. some (record {
    status = 200;
    content_length = none;
    body = some ((if str_eq url watch then answer else codes "{}") ∷ []);
  });
  parse = λ bytes. some jobs;
}

test_send_heartbeat :
    send_heartbeat env (http (codes "OK")) options ≡ report sent completed_schedule_accepted 1
unfolding send_heartbeat
test_send_heartbeat = refl

test_send_heartbeat-not_found :
    send_heartbeat env (http (codes "OK (not found)")) options
    ≡ report rejected (failed_by heartbeat_not_accepted) 1
unfolding send_heartbeat
test_send_heartbeat-not_found = refl

send_heartbeat-IsBeat_example :
    IsBeat env (http (codes "OK")) options
    × ((send_heartbeat env (http (codes "OK")) options).requests ≡ 1)
unfolding send_heartbeat
send_heartbeat-IsBeat_example = send_heartbeat-IsBeat env (http (codes "OK")) options refl
