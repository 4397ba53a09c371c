-- ===== src/Monitor/Trigger.antt =====
-- scripts/monitor-external-trigger.ts: an outside timer starts a run of the monitor. The
-- transport, `JSON.parse`, HMAC-SHA-256 and the readings of the clock are parameters; the race
-- with the timer is not modelled. An instant before the year 0, or one that a date cannot have,
-- is not modelled either.
pub mod Dispatch
pub mod Assertion
mod Examples
use maintainflow.Monitor.Body.{Response, read_body}
use maintainflow.Monitor.Instant.{to_iso_string}
use maintainflow.Monitor.Schedule.Observe.{has_space}
use maintainflow.Monitor.Heartbeat.{says, or_empty}
use maintainflow.Monitor.Tick.{external_title_prefix, actor_id, parse_external_tick}
use maintainflow.Prelude.{
  ℕ, ◌+◌, Bool, true, false, not, ◌&&◌, ◌||◌, List, [], ◌∷◌, ◌++◌, Option, some, none, Result, ok,
  err, ◌>>=◌, ◌>>◌, require, want, leb, ◌==◌, if◌then◌else◌, length,
}
use maintainflow.Prelude.Json.{
  Num, Json, get, as_array, as_count, as_positive, equals_string, equals_whole, safe_positive,
}
use maintainflow.Prelude.Text.{all_hex, Str, codes, str_eq, is_space}

pub record TriggerEnv : Type 0 where
  pub trigger_enabled : Option Str
  pub trigger_actor_id : Option Str
  pub trigger_token : Option Str
  pub trigger_key : Option Str

-- `dispatch` is the POST, with the tick and its signature. `hmac_hex` is given the key and the
-- message, and writes the digest in hexadecimal digits.
pub record TriggerHost : Type 0 where
  pub fetch : Str → Option Response
  pub dispatch : Str → Str → Option Response
  pub parse_json : List ℕ → Option Json
  pub hmac_hex : Str → Str → Str

-- Two readings of the clock, and the timeout of the options, or 15,000.
pub record TriggerOptions : Type 0 where
  pub now : Option ℕ
  pub later : Option ℕ
  pub timeout_ms : Num

pub data TriggerFault : Type 0 where
  trigger_tick_invalid : TriggerFault
  trigger_tick_stale : TriggerFault
  trigger_configuration_invalid : TriggerFault
  trigger_timeout_invalid : TriggerFault
  trigger_api_unavailable : TriggerFault
  trigger_response_invalid : TriggerFault
  trigger_actor_mismatch : TriggerFault
  trigger_workflow_invalid : TriggerFault
  trigger_history_invalid : TriggerFault
  trigger_dispatch_not_accepted : TriggerFault
  trigger_acceptance_invalid : TriggerFault
  trigger_transport_failed : TriggerFault

-- A fault, with the number of requests that were made before it.
pub record TriggerFailure : Type 0 where
  pub fault : TriggerFault
  pub made : ℕ

-- A step that comes after so many requests.
abbrev pub after_requests : {A : Type 0} → ℕ → Result TriggerFault A → Result TriggerFailure A
after_requests count (ok a) = ok a
after_requests count (err fault) = err (record { fault = fault; made = count })

unfoldable pub is_fresh : ℕ → Option ℕ → Bool
unfolding parse_external_tick to_iso_string
is_fresh scheduled none = false
is_fresh scheduled (some now) =
    (elim (parse_external_tick (to_iso_string scheduled)) [ none ↦ false | some at ↦ true ])
    && leb scheduled now
    && leb now (scheduled + 120000)

-- `/^[0-9a-f]{64}$/`
abbrev pub is_digest : Str → Bool
is_digest text = length text == 64 && all_hex text

abbrev pub user_address : Str
user_address = codes "https://api.github.com/user"

abbrev pub workflow_address : Str
workflow_address =
    codes
      "https://api.github.com/repos/rory-hayes/maintainflow/actions/workflows/operations-monitor.yml"

abbrev pub dispatches_address : Str
dispatches_address =
    workflow_address ++ codes "/runs?branch=main&event=workflow_dispatch&per_page=30"

-- The answer to a request, at most 1 MiB of it.
unfoldable pub read_answer : TriggerHost → TriggerFault → Option Response → Result TriggerFault Json
unfolding read_body
read_answer host refused sent = do
  response ← want sent trigger_transport_failed
  require (response.status == 200) refused
  bytes ← read_body 1048576 trigger_response_invalid trigger_response_invalid response
  want (host.parse_json bytes) trigger_response_invalid

-- The id of the active workflow.
unfoldable pub read_active_workflow : Json → Result TriggerFault ℕ
unfolding get as_positive
read_active_workflow metadata = do
  workflow_id ← want (as_positive (get "id" metadata)) trigger_workflow_invalid
  require
      (equals_string (get "path" metadata) (codes ".github/workflows/operations-monitor.yml")
        && equals_string (get "state" metadata) (codes "active"))
      trigger_workflow_invalid
  ok workflow_id

unfoldable pub read_dispatches : Json → Result TriggerFault (List Json)
unfolding get as_count
read_dispatches history = do
  total ← want (as_count (get "total_count" history)) trigger_history_invalid
  runs ← want (as_array (get "workflow_runs" history)) trigger_history_invalid
  require
      (leb (length runs) 30
        && leb (length runs) total
        && (total == length runs || length runs == 30))
      trigger_history_invalid
  ok runs

abbrev pub is_repository_of : Option Json → Bool
is_repository_of none = false
is_repository_of (some value) =
    equals_string (get "full_name" value) (codes "rory-hayes/maintainflow")

unfoldable pub is_dispatch : ℕ → Json → Bool
unfolding get
is_dispatch workflow_id run =
    equals_whole (get "workflow_id" run) workflow_id
    && equals_string (get "event" run) (codes "workflow_dispatch")
    && equals_string (get "head_branch" run) (codes "main")
    && is_repository_of (get "repository" run)
    && is_repository_of (get "head_repository" run)

abbrev pub is_titled : Str → Json → Bool
unfolding get
is_titled tick run = equals_string (get "display_title" run) (external_title_prefix ++ tick)

abbrev pub is_sent_by : ℕ → Json → Bool
unfolding get
is_sent_by actor run = elim (get "actor" run) [
  | none ↦ false
  | some value ↦ equals_whole (get "id" value) actor
]

-- The run that has been created for the tick, if there is one.
unfoldable pub find_created : ℕ → ℕ → Str → List Json → Result TriggerFault (Option ℕ)
unfolding get as_positive is_dispatch
find_created workflow_id actor tick [] = ok none
find_created workflow_id actor tick (run ∷ runs) =
    let rest = find_created workflow_id actor tick runs in
    do
      id ← want (as_positive (get "id" run)) trigger_history_invalid
      require (is_dispatch workflow_id run) trigger_history_invalid
      let found = require (is_sent_by actor run) trigger_history_invalid >> ok (some id)
      if is_titled tick run then found else rest

-- The trusted actor, where the token, the key and the timeout are good.
unfoldable pub check_trigger : TriggerEnv → TriggerOptions → ℕ → Result TriggerFault ℕ
unfolding is_fresh actor_id is_space safe_positive
check_trigger env options scheduled = do
  require (is_fresh scheduled options.now) trigger_tick_stale
  actor ← want (actor_id env.trigger_actor_id) trigger_configuration_invalid
  token ← want env.trigger_token trigger_configuration_invalid
  require (leb 16 (length token) && not (has_space token) && is_digest (or_empty env.trigger_key))
      trigger_configuration_invalid
  timeout ← want (safe_positive options.timeout_ms) trigger_timeout_invalid
  require (leb timeout 20000) trigger_timeout_invalid
  ok actor

unfoldable pub check_user : TriggerHost → ℕ → Result TriggerFault (Unit {0})
unfolding read_answer get
check_user host actor = do
  user ← read_answer host trigger_api_unavailable (host.fetch user_address)
  require (equals_whole (get "id" user) actor) trigger_actor_mismatch

unfoldable pub find_workflow : TriggerHost → Result TriggerFault ℕ
unfolding read_answer read_active_workflow
find_workflow host = do
  metadata ← read_answer host trigger_api_unavailable (host.fetch workflow_address)
  read_active_workflow metadata

-- The run of the tick, if there is one. Otherwise the tick must still be fresh.
unfoldable pub find_run : TriggerHost → TriggerOptions → ℕ → ℕ → ℕ → Result TriggerFault (Option ℕ)
unfolding read_answer read_dispatches find_created is_fresh to_iso_string
find_run host options scheduled actor workflow_id = do
  history ← read_answer host trigger_api_unavailable (host.fetch dispatches_address)
  runs ← read_dispatches history
  created ← find_created workflow_id actor (to_iso_string scheduled) runs
  elim created [
    | some id ↦ ok (some id)
    | none ↦ require (is_fresh scheduled options.later) trigger_tick_stale >> ok none
  ]

-- What comes before the POST.
unfoldable pub prepare_trigger :
    TriggerEnv → TriggerHost → TriggerOptions → ℕ → Result TriggerFailure (Option ℕ)
unfolding check_trigger check_user find_workflow find_run
prepare_trigger env host options scheduled = do
  actor ← after_requests 0 (check_trigger env options scheduled)
  after_requests 1 (check_user host actor)
  workflow_id ← after_requests 2 (find_workflow host)
  after_requests 3 (find_run host options scheduled actor workflow_id)

abbrev pub tick_message : Str → Str
tick_message tick = codes "maintainflow-monitor-tick:v1:" ++ tick

-- The POST, and the run that its answer names.
unfoldable pub post_dispatch : TriggerEnv → TriggerHost → Str → Result TriggerFault ℕ
unfolding read_answer get as_positive
post_dispatch env host tick = do
  let signature = host.hmac_hex (or_empty env.trigger_key) (tick_message tick)
  accepted ← read_answer host trigger_dispatch_not_accepted (host.dispatch tick signature)
  want (as_positive (get "workflow_run_id" accepted)) trigger_acceptance_invalid

pub data TriggerStatus : Type 0 where
  inactive accepted skipped failed : TriggerStatus

pub data TriggerReason : Type 0 where
  trigger_disabled : TriggerReason
  trigger_tick_already_created : TriggerReason
  trigger_dispatch_accepted : TriggerReason
  trigger_dispatch_uncertain : TriggerReason
  failed_by : TriggerFault → TriggerReason

-- `post_started` is not part of the report.
pub record TriggerReport : Type 0 where
  pub trigger_status : TriggerStatus
  pub trigger_reason : TriggerReason
  pub tick : Str
  pub requests : ℕ
  pub run : Option ℕ
  pub post_started : Bool

abbrev pub report : Str → Bool → TriggerStatus → TriggerReason → ℕ → Option ℕ → TriggerReport
report tick posted status reason count run = record {
  trigger_status = status;
  trigger_reason = reason;
  tick = tick;
  requests = count;
  run = run;
  post_started = posted;
}

-- After the POST has begun, a fault says nothing about whether a run was created.
abbrev pub after_post : Str → Result TriggerFault ℕ → TriggerReport
after_post tick (ok id) = report tick true accepted trigger_dispatch_accepted 4 (some id)
after_post tick (err fault) = report tick true failed trigger_dispatch_uncertain 4 none

abbrev pub after_search :
    Str → Result TriggerFault ℕ → Result TriggerFailure (Option ℕ) → TriggerReport
after_search tick posted (err e) = report tick false failed (failed_by e.fault) e.made none
after_search tick posted (ok (some id)) =
    report tick false skipped trigger_tick_already_created 3 (some id)
after_search tick posted (ok none) = after_post tick posted

-- The time is `none` where it is not a safe integer.
unfoldable pub trigger_monitor :
    Option ℕ → TriggerEnv → TriggerHost → TriggerOptions → TriggerReport
unfolding to_iso_string prepare_trigger post_dispatch
trigger_monitor time env host options =
    if says env.trigger_enabled "true"
    then elim time [
      | none ↦ report [] false failed (failed_by trigger_tick_invalid) 0 none
      | some scheduled ↦
          after_search (to_iso_string scheduled) (post_dispatch env host (to_iso_string scheduled))
            (prepare_trigger env host options scheduled)
    ]
    else report [] false inactive trigger_disabled 0 none
