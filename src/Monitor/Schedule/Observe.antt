-- ===== src/Monitor/Schedule/Observe.antt =====
-- `checkStaleMonitor` and `main` of scripts/stale-monitor.ts. The race with the timer is not
-- modelled: where the timer wins, the report is `unavailable` as after any other fault.
use maintainflow.Monitor.Schedule.{
  ObserverError, observer_clock_invalid, observer_threshold_invalid, observer_token_missing,
  observer_timeout_invalid, observer_api_unavailable, observer_response_limit,
  observer_response_invalid, ObserverReport, healthy, unhealthy, ReportStatus,
}
use maintainflow.Monitor.Schedule.Evaluate.{evaluate_schedule, threshold, trusted_actor}
use maintainflow.Monitor.Transport.{Http, ReadFaults, read_json}
use maintainflow.Prelude.{
  ℕ, Bool, true, false, not, ◌&&◌, ◌||◌, List, [], ◌∷◌, Option, some, none, Result, ok, err, ◌>>=◌,
  ◌>>◌, require, want, leb, if◌then◌else◌, length,
}
use maintainflow.Prelude.Json.{
  Num, whole, other_number, Json, object, array, number, no_items, field, no_fields, safe_positive,
}
use maintainflow.Prelude.Text.{only_digits, digits_value, Str, codes, str_eq, is_space}

abbrev pub observer_faults : ReadFaults ObserverError
observer_faults = record {
  unavailable_code = observer_api_unavailable;
  limit_code = observer_response_limit;
  invalid_code = observer_response_invalid;
}

-- `now` is `none` for an invalid date, and is read again when the history has come.
pub record ObserverOptions : Type 0 where
  pub external_actor_id : Option Num
  pub token : Str
  pub max_age : Num
  pub timeout_ms : Num
  pub now : Option ℕ
  pub later : Option ℕ

-- A report of `evaluateSchedule`, or the one that says `unavailable` with the code of a fault.
pub data Observation : Type 0 where
  reported : ObserverReport → Observation
  unavailable : ObserverError → Observation

abbrev pub has_space : Str → Bool
has_space [] = false
has_space (c ∷ s) = is_space c || has_space s

abbrev pub api : Str
api =
    codes
      "https://api.github.com/repos/rory-hayes/maintainflow/actions/workflows/operations-monitor.yml"

abbrev pub runs_address : Bool → Str
runs_address external =
    if external
    then codes
        "https://api.github.com/repos/rory-hayes/maintainflow/actions/workflows/operations-monitor.yml/runs?branch=main&event=workflow_dispatch&per_page=30"
    else codes
        "https://api.github.com/repos/rory-hayes/maintainflow/actions/workflows/operations-monitor.yml/runs?branch=main&event=schedule&per_page=30"

-- `{total_count: 0, workflow_runs: []}`.
abbrev pub no_history : Json
no_history = object (
    field (codes "total_count") (number (whole 0))
      (field (codes "workflow_runs") (array no_items) no_fields))

-- The checks of the options, before the first request.
unfoldable pub check_options : ObserverOptions → Result ObserverError (Unit {0})
unfolding threshold trusted_actor safe_positive is_space
check_options options = do
  clock ← want options.now observer_clock_invalid
  max_age ← want (threshold options.max_age) observer_threshold_invalid
  trusted ← trusted_actor options.external_actor_id
  require (leb 16 (length options.token) && not (has_space options.token)) observer_token_missing
  timeout ← want (safe_positive options.timeout_ms) observer_timeout_invalid
  require (leb timeout 30000) observer_timeout_invalid

abbrev pub is_active : ObserverReport → Bool
is_active report = elim report.workflow_active [ none ↦ false | some active ↦ active ]

unfoldable pub judge_history : Http → ObserverOptions → Json → Result ObserverError ObserverReport
unfolding read_json evaluate_schedule
judge_history http options metadata = do
  history ←
      read_json observer_faults http
        (runs_address (elim options.external_actor_id [ none ↦ false | some id ↦ true ]))
  evaluate_schedule metadata history options.later options.max_age options.external_actor_id

-- The two requests: the history is asked for only where the workflow is active.
unfoldable pub observe : Http → ObserverOptions → Result ObserverError ObserverReport
unfolding check_options read_json evaluate_schedule judge_history
observe http options = do
  checked ← check_options options
  metadata ← read_json observer_faults http api
  preliminary ←
      evaluate_schedule metadata no_history options.now options.max_age options.external_actor_id
  let judged = judge_history http options metadata
  if is_active preliminary then judged else ok preliminary

unfoldable pub check_stale_monitor : Http → ObserverOptions → Observation
unfolding observe
check_stale_monitor http options = elim (observe http options) [
  | ok report ↦ reported report
  | err code ↦ unavailable code
]

-- The variables of the environment that are read.
pub record ObserverEnv : Type 0 where
  pub gh_token : Option Str
  pub stale_monitor_max_age_minutes : Option Str
  pub folio_monitor_trigger_actor_id : Option Str

-- `/^[1-9][0-9]*$/.test(text) ? Number(text) : NaN`.
unfoldable pub positive_number : Str → Num
unfolding only_digits digits_value
positive_number [] = other_number (codes "NaN")
positive_number (c ∷ s) =
    if leb b'1' c && leb c b'9' && only_digits s
    then whole (digits_value (c ∷ s) 0)
    else other_number (codes "NaN")

pub data MainReport : Type 0 where
  plan : MainReport
  bad_arguments : MainReport
  observed : Observation → MainReport

abbrev pub number_or : Option Str → Num → Num
unfolding positive_number
number_or none default = default
number_or (some text) default = positive_number text

-- The options that `main` makes of its argument and of the environment.
unfoldable pub main_options : Bool → ObserverEnv → Option ℕ → Option ℕ → ObserverOptions
unfolding positive_number
main_options external env now later = record {
  external_actor_id =
      if external
      then some (number_or env.folio_monitor_trigger_actor_id (other_number (codes "NaN")))
      else none;
  token = elim env.gh_token [ none ↦ [] | some token ↦ token ];
  max_age = number_or env.stale_monitor_max_age_minutes (whole 20);
  timeout_ms = whole 20000;
  now = now;
  later = later;
}

unfoldable pub main : List Str → ObserverEnv → Http → Option ℕ → Option ℕ → MainReport
unfolding main_options check_stale_monitor
main [] env http now later = plan
main (argument ∷ []) env http now later =
    if str_eq argument (codes "--plan")
    then plan
    else if str_eq argument (codes "--check")
    then observed (check_stale_monitor http (main_options false env now later))
    else if str_eq argument (codes "--check-external")
    then observed (check_stale_monitor http (main_options true env now later))
    else bad_arguments
main (_ ∷ _ ∷ _) env http now later = bad_arguments

abbrev pub report_exit_code : ReportStatus → ℕ
report_exit_code healthy = 0
report_exit_code unhealthy = 1

abbrev pub exit_code : MainReport → ℕ
exit_code plan = 0
exit_code bad_arguments = 2
exit_code (observed (reported report)) = report_exit_code report.report_status
exit_code (observed (unavailable code)) = 1
