-- ===== src/Monitor/Schedule/Evaluate.antt =====
-- The body of `evaluateSchedule` of scripts/stale-monitor.ts.
use maintainflow.Monitor.Instant.{instant_of, to_iso_string}
use maintainflow.Monitor.Schedule.{
  ObserverError, observer_clock_invalid, observer_threshold_invalid,
  observer_external_actor_invalid, observer_workflow_invalid, observer_history_invalid,
  observer_run_invalid, observer_history_ambiguous, Reason, workflow_disabled,
  schedule_gate_disabled, latest_external_run_failed, latest_scheduled_run_failed,
  no_success_in_bounded_history, no_external_success, no_scheduled_success, external_monitor_stale,
  scheduled_monitor_stale, external_monitor_fresh, scheduled_monitor_fresh, ReportStatus, healthy,
  unhealthy, Run, ObserverReport, receipt, is_one_of, is_external, read_run, run_limit,
}
use maintainflow.Prelude.{
  want, ℕ, ◌+◌, ◌*◌, Bool, true, false, not, ◌&&◌, ◌||◌, List, [], ◌∷◌, map, Option, some, none,
  Result, ok, ◌>>=◌, ◌>>◌, require, map_result, ltb, leb, ◌==◌, if◌then◌else◌, length,
}
use maintainflow.Prelude.All.{find}
use maintainflow.Prelude.Json.{
  Num, Json, get, as_string, as_array, as_count, as_positive, equals_string, safe_positive,
  safe_count,
}
use maintainflow.Prelude.Text.{codes, str_eq, starts_with}

unfoldable pub contains : ℕ → List ℕ → Bool
contains n [] = false
contains n (m ∷ ms) = n == m || contains n ms

-- `new Set(values).size === values.length`.
unfoldable pub all_distinct : List ℕ → Bool
unfolding contains
all_distinct [] = true
all_distinct (n ∷ ns) = not (contains n ns) && all_distinct ns

-- `.sort((a, b) => b.run_number - a.run_number)`; the sort is stable.
unfoldable pub insert_run : Run → List Run → List Run
insert_run run [] = run ∷ []
insert_run run (other ∷ rest) =
    let later = insert_run run rest in
    if ltb run.run_number other.run_number then other ∷ later else run ∷ other ∷ rest

unfoldable pub sort_runs : List Run → List Run
unfolding insert_run
sort_runs [] = []
sort_runs (run ∷ runs) = insert_run run (sort_runs runs)

-- Creation follows the order of the numbers.
unfoldable pub is_in_order : List Run → Bool
unfolding instant_of
is_in_order [] = true
is_in_order (run ∷ []) = true
is_in_order (run ∷ next ∷ rest) =
    leb (instant_of next.created_at) (instant_of run.created_at) && is_in_order (next ∷ rest)

-- The runs that are judged: all of a schedule, and those that claim an external title.
unfoldable pub select_runs : Bool → List Json → Result ObserverError (List Json)
unfolding get starts_with
select_runs false entries = ok entries
select_runs true [] = ok []
select_runs true (entry ∷ entries) =
    let rest = select_runs true entries in
    do
      title ← want (as_string (get "display_title" entry)) observer_run_invalid
      kept ← rest
      ok (if starts_with title (codes "Folio monitor: external-run") then entry ∷ kept else kept)

-- `Number.isSafeInteger(maxAgeMinutes) && maxAgeMinutes >= 10 && maxAgeMinutes <= 60`.
unfoldable pub threshold : Num → Option ℕ
unfolding safe_count
threshold age = elim (safe_count age) [
  | none ↦ none
  | some minutes ↦ if leb 10 minutes && leb minutes 60 then some minutes else none
]

unfoldable pub trusted_actor : Option Num → Result ObserverError (Option ℕ)
unfolding safe_positive
trusted_actor none = ok none
trusted_actor (some actor) = do
  trusted ← want (safe_positive actor) observer_external_actor_invalid
  ok (some trusted)

abbrev pub is_completed : Run → Bool
is_completed run = str_eq run.status (codes "completed")

abbrev pub has_succeeded : Run → Bool
has_succeeded run = elim run.conclusion [ none ↦ false | some text ↦ str_eq text (codes "success") ]

-- A run that can establish freshness.
abbrev pub is_successful : Bool → Run → Bool
is_successful external run =
    (external || str_eq run.display_title (codes "Folio monitor: run"))
    && is_completed run
    && has_succeeded run

abbrev pub is_gate_disabled : Option Run → Bool
is_gate_disabled none = false
is_gate_disabled (some run) = str_eq run.display_title (codes "Folio monitor: disabled")

abbrev pub is_failed : Option Run → Bool
is_failed none = false
is_failed (some run) = not (has_succeeded run)

-- The instant that a run gives evidence of.
unfoldable pub evidence_at : Bool → Run → ℕ
unfolding instant_of
evidence_at false run = instant_of run.created_at
evidence_at true run = elim run.trigger_at [ none ↦ 0 | some tick ↦ instant_of tick ]

abbrev pub is_stale : Bool → ℕ → ℕ → Run → Bool
is_stale external now max_age run = ltb (evidence_at external run + max_age * 60000) now

-- The reason, for runs that are sorted with the latest first.
unfoldable pub judge : Bool → ℕ → ℕ → Bool → List Run → ReportStatus × Reason
unfolding find evidence_at
judge external now max_age is_partial runs =
    let latest = find (λ run. true) runs in
    let completed = find is_completed runs in
    if is_gate_disabled latest || is_gate_disabled completed
    then (unhealthy, schedule_gate_disabled)
    else if is_failed completed
    then (unhealthy, if external then latest_external_run_failed else latest_scheduled_run_failed)
    else elim (find (is_successful external) runs) [
      | none ↦ (
        unhealthy,
        if is_partial
            then no_success_in_bounded_history
            else if external
            then no_external_success
            else no_scheduled_success,
      )
      | some run ↦
          if is_stale external now max_age run
          then (unhealthy, if external then external_monitor_stale else scheduled_monitor_stale)
          else (healthy, if external then external_monitor_fresh else scheduled_monitor_fresh)
    ]

-- `runs`: read, sorted, and unambiguous.
unfoldable pub read_runs : Option ℕ → ℕ → ℕ → List Json → Result ObserverError (List Run)
unfolding select_runs read_run map_result sort_runs all_distinct is_in_order
read_runs actor workflow_id now listed = do
  selected ← select_runs (is_external actor) listed
  runs ← map_result (read_run actor workflow_id now) selected
  let sorted = sort_runs runs
  require
      (all_distinct (map (λ run. run.id) sorted)
        && all_distinct (map (λ run. run.run_number) sorted))
      observer_history_ambiguous
  require (is_in_order sorted) observer_history_ambiguous
  ok sorted

-- What is known of the history: its runs, and whether it has more than are listed.
unfoldable pub read_history : Json → Result ObserverError (List Json × Bool)
unfolding get as_count
read_history history = do
  total ← want (as_count (get "total_count" history)) observer_history_invalid
  listed ← want (as_array (get "workflow_runs" history)) observer_history_invalid
  require
      (leb (length listed) run_limit
        && leb (length listed) total
        && (total == length listed || length listed == run_limit))
      observer_history_invalid
  ok (listed, ltb (length listed) total)

-- The id of the workflow, and whether it is active.
unfoldable pub read_workflow : Json → Result ObserverError (ℕ × Bool)
unfolding get as_positive
read_workflow metadata = do
  workflow_id ← want (as_positive (get "id" metadata)) observer_workflow_invalid
  require (equals_string (get "path" metadata) (codes ".github/workflows/operations-monitor.yml"))
      observer_workflow_invalid
  state ← want (as_string (get "state" metadata)) observer_workflow_invalid
  require
      (is_one_of state (
        codes "active"
        ∷ codes "deleted"
        ∷ codes "disabled_fork"
        ∷ codes "disabled_inactivity"
        ∷ codes "disabled_manually"
        ∷ []))
      observer_workflow_invalid
  ok (workflow_id, str_eq state (codes "active"))

unfoldable pub report_of : Bool → ℕ → ℕ → Bool → Bool → List Run → ObserverReport
unfolding judge to_iso_string find
report_of external now max_age active is_partial runs = record {
  external_source = external;
  checked_at = to_iso_string now;
  max_age_minutes = max_age;
  report_status = if active then (judge external now max_age is_partial runs).0 else unhealthy;
  reason = if active then (judge external now max_age is_partial runs).1 else workflow_disabled;
  workflow_active = some active;
  latest_scheduled_run = elim (find (λ run. true) runs) [
    | none ↦ none
    | some run ↦ some (receipt run external)
  ];
  last_successful_scheduled_run = elim (find (is_successful external) runs) [
    | none ↦ none
    | some run ↦ some (receipt run external)
  ];
}

-- The report where the workflow is active.
unfoldable pub evaluate_history : Json → ℕ → ℕ → Option ℕ → ℕ → Result ObserverError ObserverReport
unfolding read_history read_runs report_of
evaluate_history history clock max_age trusted workflow_id = do
  listed ← read_history history
  runs ← read_runs trusted workflow_id clock listed.0
  ok (report_of (is_external trusted) clock max_age true listed.1 runs)

-- `now` is `none` for an invalid date.
unfoldable pub evaluate_schedule :
    Json → Json → Option ℕ → Num → Option Num → Result ObserverError ObserverReport
unfolding threshold trusted_actor read_workflow evaluate_history report_of
evaluate_schedule metadata history now max_age_minutes actor = do
  clock ← want now observer_clock_invalid
  max_age ← want (threshold max_age_minutes) observer_threshold_invalid
  trusted ← trusted_actor actor
  workflow ← read_workflow metadata
  let inactive = report_of (is_external trusted) clock max_age false false []
  let judged = evaluate_history history clock max_age trusted workflow.0
  if workflow.1 then judged else ok inactive
