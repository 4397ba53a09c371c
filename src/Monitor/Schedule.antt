-- ===== src/Monitor/Schedule.antt =====
pub mod Evaluate
pub mod Runs
pub mod Judge
pub mod Healthy
pub mod Observe
pub mod Exit
-- `evaluateSchedule` of scripts/stale-monitor.ts, with the types and checks that it uses.
use maintainflow.Monitor.Instant.{
  timestamp, instant_of, date_parse, to_iso_string, is_millisecond_shape,
}
use maintainflow.Prelude.{
  want, want-some, ℕ, ◌+◌, ◌-◌, ◌*◌, ◌/◌, ◌%◌, Bool, true, false, not, ◌&&◌, ◌||◌, List, [], ◌∷◌,
  ◌++◌, map, Option, some, none, Result, ok, err, ◌>>=◌, ◌>>◌, require, map_result, ltb, leb, ◌==◌,
  if◌then◌else◌, length, drop,
}
use maintainflow.Prelude.Json.{
  Num, whole, other_number, Json, get, is_object, as_object, as_string, as_array, as_count,
  as_positive, equals_string, equals_whole, is_null, safe_count, safe_positive,
}
use maintainflow.Prelude.Text.{Str, all_hex, codes, str_eq, starts_with}

abbrev pub repository : Str
repository = codes "rory-hayes/maintainflow"

abbrev pub run_limit : ℕ
run_limit = 30

abbrev pub is_one_of : Str → List Str → Bool
is_one_of s [] = false
is_one_of s (t ∷ ts) = str_eq s t || is_one_of s ts

abbrev pub statuses : List Str
statuses =
    codes "requested"
    ∷ codes "queued"
    ∷ codes "pending"
    ∷ codes "waiting"
    ∷ codes "in_progress"
    ∷ codes "completed"
    ∷ []

abbrev pub conclusions : List Str
conclusions =
    codes "success"
    ∷ codes "failure"
    ∷ codes "cancelled"
    ∷ codes "timed_out"
    ∷ codes "action_required"
    ∷ codes "neutral"
    ∷ codes "skipped"
    ∷ codes "stale"
    ∷ codes "startup_failure"
    ∷ []

-- The codes of an `ObserverError`.
pub data ObserverError : Type 0 where
  observer_clock_invalid : ObserverError
  observer_threshold_invalid : ObserverError
  observer_external_actor_invalid : ObserverError
  observer_workflow_invalid : ObserverError
  observer_history_invalid : ObserverError
  observer_run_invalid : ObserverError
  observer_external_actor_untrusted : ObserverError
  observer_external_tick_invalid : ObserverError
  observer_history_ambiguous : ObserverError
  observer_token_missing : ObserverError
  observer_timeout_invalid : ObserverError
  observer_api_unavailable : ObserverError
  observer_response_limit : ObserverError
  observer_response_invalid : ObserverError

-- The reasons of a report.
pub data Reason : Type 0 where
  workflow_disabled : Reason
  schedule_gate_disabled : Reason
  latest_external_run_failed : Reason
  latest_scheduled_run_failed : Reason
  no_success_in_bounded_history : Reason
  no_external_success : Reason
  no_scheduled_success : Reason
  external_monitor_stale : Reason
  scheduled_monitor_stale : Reason
  external_monitor_fresh : Reason
  scheduled_monitor_fresh : Reason

pub data ReportStatus : Type 0 where
  healthy : ReportStatus
  unhealthy : ReportStatus

-- Of a run, the fields that are read after it is checked.
pub record Run : Type 0 where
  pub id : ℕ
  pub run_number : ℕ
  pub run_attempt : ℕ
  pub display_title : Str
  pub head_sha : Str
  pub status : Str
  pub conclusion : Option Str
  pub created_at : Str
  pub trigger_at : Option Str

-- The address of the run is a function of the number and the attempt.
pub record RunReceipt : Type 0 where
  pub receipt_id : ℕ
  pub attempt : ℕ
  pub number : ℕ
  pub revision : Str
  pub created : Str
  pub trigger : Option Str
  pub receipt_status : Str
  pub receipt_conclusion : Option Str

pub record ObserverReport : Type 0 where
  pub external_source : Bool
  pub checked_at : Str
  pub max_age_minutes : ℕ
  pub report_status : ReportStatus
  pub reason : Reason
  pub workflow_active : Option Bool
  pub latest_scheduled_run : Option RunReceipt
  pub last_successful_scheduled_run : Option RunReceipt

abbrev pub receipt : Run → Bool → RunReceipt
receipt run external = record {
  receipt_id = run.id;
  attempt = run.run_attempt;
  number = run.run_number;
  revision = run.head_sha;
  created = run.created_at;
  trigger = if external then run.trigger_at else none;
  receipt_status = run.status;
  receipt_conclusion = run.conclusion;
}

abbrev pub external_prefix : Str
external_prefix = codes "Folio monitor: external-run "

-- The tests of `externalTick` on the text and on its instant.
unfoldable pub is_tick : Str → Str → ℕ → Bool
unfolding timestamp is_millisecond_shape instant_of to_iso_string
is_tick tick created_at now =
    is_millisecond_shape tick
    && timestamp tick now
    && str_eq (to_iso_string (instant_of tick)) tick
    && instant_of tick / 1000 % 60 == 0
    && instant_of tick % 1000 == 0
    && instant_of tick / 60000 % 60 % 5 == 2
    && leb (instant_of tick) (instant_of created_at)
    && leb (instant_of created_at) (instant_of tick + 120000)

unfoldable pub external_tick : Str → Str → ℕ → Result ObserverError Str
unfolding is_tick starts_with
external_tick title created_at now =
    let tick = drop (length external_prefix) title in
    require (starts_with title external_prefix && is_tick tick created_at now)
      observer_external_tick_invalid
    >> ok tick

-- `/^[a-f0-9]{40}$/`
abbrev pub is_revision : Str → Bool
is_revision s = length s == 40 && all_hex s

-- `conclusions.includes(...)` for a completed run, `null` for another one.
unfoldable pub is_conclusion : Str → Option Json → Bool
is_conclusion status value =
    if str_eq status (codes "completed")
    then elim (as_string value) [ none ↦ false | some text ↦ is_one_of text conclusions ]
    else is_null value

-- `object(value) && value.full_name === repository`.
unfoldable pub is_repository : Option Json → Bool
unfolding get
is_repository none = false
is_repository (some value) = equals_string (get "full_name" value) repository

abbrev pub is_external : Option ℕ → Bool
is_external none = false
is_external (some _) = true

-- The checks of a run that are not checks of a type.
unfoldable pub is_run : Bool → ℕ → ℕ → Json → Run → Str → Bool
unfolding get is_repository is_conclusion timestamp instant_of
is_run external workflow_id now entry run updated_at =
    equals_whole (get "workflow_id" entry) workflow_id
    && equals_string (get "event" entry)
        (if external then codes "workflow_dispatch" else codes "schedule")
    && equals_string (get "head_branch" entry) (codes "main")
    && is_revision run.head_sha
    && is_repository (get "repository" entry)
    && is_repository (get "head_repository" entry)
    && (external
        || is_one_of run.display_title
            (codes "Folio monitor: run" ∷ codes "Folio monitor: disabled" ∷ []))
    && is_one_of run.status statuses
    && is_conclusion run.status (get "conclusion" entry)
    && timestamp run.created_at now
    && timestamp updated_at now
    && leb (instant_of run.created_at) (instant_of updated_at)

-- `object(entry.actor) && entry.actor.id === options.externalActorId`.
unfoldable pub is_actor : Option Json → ℕ → Bool
unfolding get
is_actor none trusted = false
is_actor (some value) trusted = equals_whole (get "id" value) trusted

-- `{...entry, triggerAt: externalTick(...)}` for an external run.
unfoldable pub add_trigger : Option ℕ → ℕ → Json → Run → Result ObserverError Run
unfolding get is_actor external_tick
add_trigger none now entry run = ok run
add_trigger (some trusted) now entry run = do
  require (is_actor (get "actor" entry) trusted) observer_external_actor_untrusted
  tick ← external_tick run.display_title run.created_at now
  ok (record {
    id = run.id;
    run_number = run.run_number;
    run_attempt = run.run_attempt;
    display_title = run.display_title;
    head_sha = run.head_sha;
    status = run.status;
    conclusion = run.conclusion;
    created_at = run.created_at;
    trigger_at = some tick;
  })

-- A run of the history, with its trigger where it claims one.
unfoldable pub read_run : Option ℕ → ℕ → ℕ → Json → Result ObserverError Run
unfolding is_run get as_positive add_trigger
read_run actor workflow_id now entry = do
  id ← want (as_positive (get "id" entry)) observer_run_invalid
  run_number ← want (as_positive (get "run_number" entry)) observer_run_invalid
  run_attempt ← want (as_positive (get "run_attempt" entry)) observer_run_invalid
  head_sha ← want (as_string (get "head_sha" entry)) observer_run_invalid
  display_title ← want (as_string (get "display_title" entry)) observer_run_invalid
  status ← want (as_string (get "status" entry)) observer_run_invalid
  created_at ← want (as_string (get "created_at" entry)) observer_run_invalid
  updated_at ← want (as_string (get "updated_at" entry)) observer_run_invalid
  let run : Run = record {
    id = id;
    run_number = run_number;
    run_attempt = run_attempt;
    display_title = display_title;
    head_sha = head_sha;
    status = status;
    conclusion = as_string (get "conclusion" entry);
    created_at = created_at;
    trigger_at = none;
  }
  require (is_run (is_external actor) workflow_id now entry run updated_at) observer_run_invalid
  add_trigger actor now entry run
