-- ===== src/Monitor/Trigger/Examples.antt =====
-- Tests of scripts/monitor-external-trigger.ts and of `validateExternalTrigger`, and the theorems
-- at a concrete tick.
use maintainflow.Monitor.Body.{Response}
use maintainflow.Monitor.Heartbeat.{says}
use maintainflow.Monitor.Instant.{to_iso_string}
use maintainflow.Prelude.{
  ℕ, zero, suc, length, ◌≡◌, refl, true, false, List, [], ◌∷◌, some, none, if◌then◌else◌, arith,
}
use maintainflow.Prelude.Json.{
  Json, string, number, whole, object, array, fields_of_list, items_of_list,
}
use maintainflow.Prelude.Text.{Str, codes, str_eq}
use maintainflow.Monitor.Trigger.{
  TriggerEnv, TriggerHost, TriggerOptions, user_address, workflow_address, post_dispatch, report,
  skipped, trigger_tick_already_created, accepted, trigger_dispatch_accepted, trigger_monitor,
}
use maintainflow.Monitor.Trigger.Assertion.{guarded, validate_external_trigger-trigger_monitor}
use maintainflow.Monitor.Trigger.Dispatch.{IsDispatch, IsReported, trigger_monitor-IsDispatch}

abbrev digits : Str
digits = codes "0123456789abcdef0123456789abcdef0123456789abcdef0123456789abcdef"

abbrev env : TriggerEnv
env = record {
  trigger_enabled = some (codes "true");
  trigger_actor_id = some (codes "42");
  trigger_token = some (codes "0123456789abcdef");
  trigger_key = some digits;
}

-- 2026-02-28T23:57:00.000Z
abbrev scheduled : ℕ
scheduled = 63939542220000

abbrev options : TriggerOptions
options = record {
  now = some 63939542221000;
  later = some 63939542222000;
  timeout_ms = whole 15000;
}

abbrev name_of : Json
name_of =
    object (fields_of_list ((codes "full_name", string (codes "rory-hayes/maintainflow")) ∷ []))

abbrev created_run : Json
created_run = object (
    fields_of_list (
      (codes "id", number (whole 8))
      ∷ (codes "workflow_id", number (whole 77))
      ∷ (codes "event", string (codes "workflow_dispatch"))
      ∷ (codes "head_branch", string (codes "main"))
      ∷ (codes "repository", name_of)
      ∷ (codes "head_repository", name_of)
      ∷ (
        codes "display_title",
        string (codes "Folio monitor: external-run 2026-02-28T23:57:00.000Z"),
      )
      ∷ (codes "actor", object (fields_of_list ((codes "id", number (whole 42)) ∷ [])))
      ∷ []))

-- The answer that a byte stands for, where the history lists those runs.
abbrev answer : List Json → ℕ → Json
answer runs zero = object (fields_of_list ((codes "id", number (whole 42)) ∷ []))
answer runs (suc zero) = object (
    fields_of_list (
      (codes "id", number (whole 77))
      ∷ (codes "path", string (codes ".github/workflows/operations-monitor.yml"))
      ∷ (codes "state", string (codes "active"))
      ∷ []))
answer runs (suc (suc zero)) = object (
    fields_of_list (
      (codes "total_count", number (whole (length runs)))
      ∷ (codes "workflow_runs", array (items_of_list runs))
      ∷ []))
answer runs _ = object (fields_of_list ((codes "workflow_run_id", number (whole 9)) ∷ []))

abbrev respond : ℕ → Response
respond byte = record { status = 200; content_length = none; body = some ((byte ∷ []) ∷ []) }

abbrev host : List Json → TriggerHost
host runs = record {
  fetch = λ url. some (
      respond
        (if str_eq url user_address then 0 else if str_eq url workflow_address then 1 else 2));
  dispatch = λ tick signature. some (respond 3);
  parse_json = λ bytes. elim bytes [ [] ↦ none | byte ∷ _ ↦ some (answer runs byte) ];
  hmac_hex = λ key message. digits;
}

test_trigger_monitor :
    trigger_monitor (some scheduled) env (host []) options
    ≡ report (codes "2026-02-28T23:57:00.000Z") true accepted trigger_dispatch_accepted 4 (some 9)
unfolding trigger_monitor
test_trigger_monitor = refl

test_trigger_monitor-skipped :
    trigger_monitor (some scheduled) env (host (created_run ∷ [])) options
    ≡ report
        (codes "2026-02-28T23:57:00.000Z")
        false
        skipped
        trigger_tick_already_created
        3
        (some 8)
unfolding trigger_monitor
test_trigger_monitor-skipped = refl

trigger_monitor-IsDispatch_example :
    (says env.trigger_enabled "true" ≡ true)
    × IsDispatch env (host []) options scheduled
    × ((trigger_monitor (some scheduled) env (host []) options).requests ≡ 4)
    × IsReported
        (post_dispatch env (host []) (to_iso_string scheduled))
        (trigger_monitor (some scheduled) env (host []) options)
unfolding trigger_monitor
trigger_monitor-IsDispatch_example = trigger_monitor-IsDispatch scheduled env (host []) options refl

validate_external_trigger-trigger_monitor_example :
    trigger_monitor (some scheduled) env (guarded env 63939542260000 (host [])) options
    ≡ trigger_monitor (some scheduled) env (host []) options
unfolding trigger_monitor
validate_external_trigger-trigger_monitor_example =
    validate_external_trigger-trigger_monitor scheduled 63939542220000 63939542260000 env (host [])
      options (λ key message. refl) refl refl (omega arith) (omega arith)
