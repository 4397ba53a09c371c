-- ===== src/Monitor/Heartbeat.antt =====
-- scripts/monitor-heartbeat.ts: a completed run of the monitor is reported to an outside watch.
-- The transport, `JSON.parse` and the two readings of the clock are parameters; the race with the
-- timer is not modelled.
pub mod Sent
mod Examples
use maintainflow.Monitor.Artifact.{MonitorRun}
use maintainflow.Monitor.Artifact.Jobs.{was_observed, was_superseded, completed_monitor_job}
use maintainflow.Monitor.Body.{Response, read_body}
use maintainflow.Monitor.Instant.{date_parse}
use maintainflow.Monitor.Schedule.{is_revision}
use maintainflow.Monitor.Tick.{actor_id, fresh_external_tick}
use maintainflow.Monitor.Transport.{Http}
use maintainflow.Prelude.{
  ℕ, ◌+◌, Bool, true, false, not, ◌&&◌, ◌||◌, List, [], ◌∷◌, ◌++◌, Option, some, none, Result, ok,
  err, ◌>>=◌, ◌>>◌, require, want, leb, ◌==◌, if◌then◌else◌, length, drop,
}
use maintainflow.Prelude.Json.{Num, whole, safe_positive}
use maintainflow.Prelude.Text.{Str, codes, str_eq, starts_with, is_digit}
use Prim.Native.String.{String}

pub data HeartbeatFault : Type 0 where
  heartbeat_trigger_invalid : HeartbeatFault
  heartbeat_monitor_disabled : HeartbeatFault
  heartbeat_source_invalid : HeartbeatFault
  heartbeat_completion_invalid : HeartbeatFault
  heartbeat_identity_invalid : HeartbeatFault
  heartbeat_source_stale : HeartbeatFault
  heartbeat_source_token_missing : HeartbeatFault
  heartbeat_source_jobs_invalid : HeartbeatFault
  heartbeat_destination_invalid : HeartbeatFault
  heartbeat_timeout_invalid : HeartbeatFault
  heartbeat_response_invalid : HeartbeatFault
  heartbeat_not_accepted : HeartbeatFault
  heartbeat_transport_failed : HeartbeatFault

-- The variables of the environment that are read.
pub record HeartbeatEnv : Type 0 where
  pub github_event_name : Option Str
  pub github_repository : Option Str
  pub github_ref : Option Str
  pub github_run_attempt : Option Str
  pub folio_monitor_enabled : Option Str
  pub folio_monitor_external_trigger_enabled : Option Str
  pub folio_monitor_trigger_actor_id : Option Str
  pub folio_monitor_heartbeat_url : Option Str
  pub gh_token : Option Str
  pub source_event : Option Str
  pub source_title : Option Str
  pub source_actor_id : Option Str
  pub source_repository : Option Str
  pub source_head_repository : Option Str
  pub source_branch : Option Str
  pub source_workflow : Option Str
  pub source_path : Option Str
  pub source_status : Option Str
  pub source_conclusion : Option Str
  pub source_attempt : Option Str
  pub source_run_id : Option Str
  pub source_sha : Option Str
  pub source_created_at : Option Str
  pub source_updated_at : Option Str

abbrev pub max_age_ms : ℕ
max_age_ms = 1200000

-- `variable === literal`.
abbrev pub says : Option Str → String → Bool
says none literal = false
says (some text) literal = str_eq text (codes literal)

-- `variable ?? ''`.
abbrev pub or_empty : Option Str → Str
or_empty none = []
or_empty (some text) = text

abbrev pub same_actor : Option ℕ → Option ℕ → Bool
same_actor (some a) (some b) = a == b
same_actor _ _ = false

-- A dispatch by the trusted actor, where external triggers are enabled.
unfoldable pub is_external_source : HeartbeatEnv → Bool
unfolding actor_id
is_external_source env =
    says env.source_event "workflow_dispatch"
    && says env.folio_monitor_external_trigger_enabled "true"
    && same_actor (actor_id env.source_actor_id) (actor_id env.folio_monitor_trigger_actor_id)

unfoldable pub is_monitor_source : HeartbeatEnv → Bool
unfolding is_external_source
is_monitor_source env =
    ((says env.source_event "schedule" && says env.source_title "Folio monitor: run")
      || is_external_source env)
    && says env.source_repository "rory-hayes/maintainflow"
    && says env.source_head_repository "rory-hayes/maintainflow"
    && says env.source_branch "main"
    && says env.source_workflow "Operational monitoring"
    && says env.source_path ".github/workflows/operations-monitor.yml"

unfoldable pub is_trigger : HeartbeatEnv → Bool
is_trigger env =
    says env.github_event_name "workflow_run"
    && says env.github_repository "rory-hayes/maintainflow"
    && says env.github_ref "refs/heads/main"
    && says env.github_run_attempt "1"

unfoldable pub is_completion : HeartbeatEnv → Bool
is_completion env =
    says env.source_status "completed"
    && says env.source_conclusion "success"
    && says env.source_attempt "1"

-- `parse`: `NaN` is `none`.
abbrev pub instant_or_nan : Option Str → Option ℕ
unfolding date_parse
instant_or_nan none = none
instant_or_nan (some text) = date_parse text

unfoldable pub is_fresh_source : HeartbeatEnv → ℕ → ℕ → Bool
unfolding fresh_external_tick is_external_source
is_fresh_source env created current =
    not (is_external_source env)
    || (elim (fresh_external_tick (or_empty env.source_title) created current max_age_ms) [
      | none ↦ false
      | some tick ↦ true
    ])

-- A run id has the form of an actor id.
unfoldable pub validate_completed_schedule :
    HeartbeatEnv → Option ℕ → Result HeartbeatFault (Unit {0})
unfolding is_trigger is_monitor_source is_completion actor_id date_parse is_fresh_source
validate_completed_schedule env now = do
  require (is_trigger env) heartbeat_trigger_invalid
  require (says env.folio_monitor_enabled "true") heartbeat_monitor_disabled
  require (is_monitor_source env) heartbeat_source_invalid
  require (is_completion env) heartbeat_completion_invalid
  id ← want (actor_id env.source_run_id) heartbeat_identity_invalid
  require (is_revision (or_empty env.source_sha)) heartbeat_identity_invalid
  current ← want now heartbeat_source_stale
  created ← want (instant_or_nan env.source_created_at) heartbeat_source_stale
  updated ← want (instant_or_nan env.source_updated_at) heartbeat_source_stale
  require (leb created updated && leb updated current && leb current (created + max_age_ms))
      heartbeat_source_stale
  require (is_fresh_source env created current) heartbeat_source_stale

unfoldable pub jobs_address : HeartbeatEnv → Str
jobs_address env =
    codes "https://api.github.com/repos/rory-hayes/maintainflow/actions/runs/"
    ++ or_empty env.source_run_id
    ++ codes "/attempts/1/jobs?per_page=100"

-- The run that the jobs must be of; `completedMonitorJob` reads its id, attempt and revision.
unfoldable pub source_run : HeartbeatEnv → MonitorRun
unfolding actor_id
source_run env = record {
  run_id = elim (actor_id env.source_run_id) [ none ↦ 0 | some id ↦ id ];
  number = 0;
  attempt_of_run = 1;
  title = [];
  revision = or_empty env.source_sha;
  trigger_event = [];
  run_status = [];
  run_conclusion = none;
}

unfoldable pub source_observed : HeartbeatEnv → Http → Result HeartbeatFault Bool
unfolding jobs_address read_body source_run completed_monitor_job
source_observed env http = do
  require (leb 16 (length (or_empty env.gh_token))) heartbeat_source_token_missing
  response ← want (http.request (jobs_address env)) heartbeat_transport_failed
  require (response.status == 200) heartbeat_source_jobs_invalid
  bytes ← read_body 1048576 heartbeat_source_jobs_invalid heartbeat_source_jobs_invalid response
  value ← want (http.parse bytes) heartbeat_source_jobs_invalid
  result ← want (completed_monitor_job value (source_run env)) heartbeat_source_jobs_invalid
  ok (elim result [ was_observed ↦ true | was_superseded ↦ false ])

-- A pattern of lower-case hexadecimal digits, where `x` stands for one.
unfoldable pub fits_hex : Str → Str → Bool
unfolding is_digit
fits_hex [] [] = true
fits_hex (p ∷ ps) (c ∷ cs) =
    (if p == b'x' then is_digit c || (leb b'a' c && leb c b'f') else p == c) && fits_hex ps cs
fits_hex _ _ = false

abbrev pub ping_prefix : Str
ping_prefix = codes "https://hc-ping.com/"

unfoldable pub is_ping_address : Str → Bool
unfolding starts_with fits_hex
is_ping_address url =
    starts_with url ping_prefix
    && fits_hex (codes "xxxxxxxx-xxxx-xxxx-xxxx-xxxxxxxxxxxx") (drop (length ping_prefix) url)

-- `timeout_ms` is that of the options, or 10,000.
pub record HeartbeatOptions : Type 0 where
  pub now : Option ℕ
  pub later : Option ℕ
  pub timeout_ms : Num

-- What is done before the ping; false where the source has been superseded.
unfoldable pub prepare_heartbeat :
    HeartbeatEnv → Str → Http → HeartbeatOptions → Result HeartbeatFault Bool
unfolding validate_completed_schedule is_ping_address source_observed safe_positive
prepare_heartbeat env url http options = do
  validate_completed_schedule env options.now
  require (is_ping_address url) heartbeat_destination_invalid
  timeout ← want (safe_positive options.timeout_ms) heartbeat_timeout_invalid
  require (leb timeout 10000) heartbeat_timeout_invalid
  observed ← source_observed env http
  let again = validate_completed_schedule env options.later
  if observed then again >> ok true else ok false

-- The ping: the watch must answer with the two letters, and nothing else.
unfoldable pub ping : Str → Http → Result HeartbeatFault (Unit {0})
unfolding read_body
ping url http = do
  response ← want (http.request url) heartbeat_transport_failed
  require (response.status == 200) heartbeat_response_invalid
  bytes ← read_body 64 heartbeat_response_invalid heartbeat_response_invalid response
  require (str_eq bytes (codes "OK")) heartbeat_not_accepted

pub data HeartbeatStatus : Type 0 where
  sent inactive rejected : HeartbeatStatus

pub data HeartbeatReason : Type 0 where
  plan_only : HeartbeatReason
  heartbeat_arguments_invalid : HeartbeatReason
  heartbeat_not_configured : HeartbeatReason
  source_superseded_before_state : HeartbeatReason
  completed_schedule_accepted : HeartbeatReason
  completed_external_trigger_accepted : HeartbeatReason
  failed_by : HeartbeatFault → HeartbeatReason

pub record HeartbeatReport : Type 0 where
  pub heartbeat_status : HeartbeatStatus
  pub heartbeat_reason : HeartbeatReason
  pub requests : ℕ

abbrev pub report : HeartbeatStatus → HeartbeatReason → ℕ → HeartbeatReport
report status reason count = record {
  heartbeat_status = status;
  heartbeat_reason = reason;
  requests = count;
}

abbrev pub accepted_reason : HeartbeatEnv → HeartbeatReason
accepted_reason env =
    if says env.source_event "schedule"
    then completed_schedule_accepted
    else completed_external_trigger_accepted

abbrev pub after_ping : HeartbeatEnv → Result HeartbeatFault (Unit {0}) → HeartbeatReport
after_ping env (err fault) = report rejected (failed_by fault) 1
after_ping env (ok _) = report sent (accepted_reason env) 1

-- The report, by what was found before the ping and by what the ping gave, where it was made.
abbrev pub after_check :
    HeartbeatEnv → Result HeartbeatFault (Unit {0}) → Result HeartbeatFault Bool → HeartbeatReport
after_check env pinged (err fault) = report rejected (failed_by fault) 0
after_check env pinged (ok false) = report inactive source_superseded_before_state 0
after_check env pinged (ok true) = after_ping env pinged

unfoldable pub send_to : HeartbeatEnv → Http → HeartbeatOptions → Str → HeartbeatReport
unfolding prepare_heartbeat ping
send_to env http options [] = report inactive heartbeat_not_configured 0
send_to env http options (c ∷ url) =
    after_check env (ping (c ∷ url) http) (prepare_heartbeat env (c ∷ url) http options)

unfoldable pub send_heartbeat : HeartbeatEnv → Http → HeartbeatOptions → HeartbeatReport
unfolding send_to
send_heartbeat env http options =
    send_to env http options (or_empty env.folio_monitor_heartbeat_url)

abbrev pub heartbeat_exit_code : HeartbeatReport → ℕ
heartbeat_exit_code r = elim r.heartbeat_status [ sent ↦ 0 | inactive ↦ 0 | rejected ↦ 1 ]

-- The exit code and the report.
unfoldable pub heartbeat_main :
    List Str → HeartbeatEnv → Http → Option ℕ → Option ℕ → ℕ × HeartbeatReport
unfolding send_heartbeat
heartbeat_main [] env http now later = (0, report inactive plan_only 0)
heartbeat_main (argument ∷ []) env http now later =
    let done =
      send_heartbeat env http (record { now = now; later = later; timeout_ms = whole 10000 }) in
    if str_eq argument (codes "--plan")
    then (0, report inactive plan_only 0)
    else if str_eq argument (codes "--send")
    then (heartbeat_exit_code done, done)
    else (2, report rejected heartbeat_arguments_invalid 0)
heartbeat_main (_ ∷ _ ∷ _) env http now later = (2, report rejected heartbeat_arguments_invalid 0)
