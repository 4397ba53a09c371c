-- ===== src/Monitor/Schedule/Exit.antt =====
-- What a successful end of scripts/stale-monitor.ts rests on.
use maintainflow.Monitor.Schedule.{ObserverReport, healthy, unhealthy, ReportStatus}
use maintainflow.Monitor.Schedule.Evaluate.{evaluate_schedule}
use maintainflow.Monitor.Schedule.Healthy.{IsSupported, evaluate_schedule-IsSupported}
use maintainflow.Monitor.Transport.{Http, read_json}
use maintainflow.Prelude.{
  ℕ, ◌≡◌, ◌⊎◌, sym, Bool, true, false, List, [], ◌∷◌, Option, some, none, ok, if◌then◌else◌, refl,
  ap, ◌∙◌, bind-ok, ok-Ensures, Bool-cases, Result-cases, inl, inr, arith,
}
use maintainflow.Prelude.Json.{Json}
use maintainflow.Prelude.Text.{Str, codes, str_eq, str_eq_iff}
use maintainflow.Monitor.Schedule.Observe.{
  observer_faults, ObserverOptions, reported, api, runs_address, no_history, check_options,
  is_active, judge_history, observe, check_stale_monitor, ObserverEnv, MainReport, plan, observed,
  main_options, main, report_exit_code, exit_code,
}

-- What the transport answered, where the observer calls the monitor healthy.
pub record IsObserved (http : Http) (options : ObserverOptions) (report : ObserverReport)
    : Type 0 where
  pub metadata : Json
  pub history : Json
  pub workflow_read : read_json observer_faults http api ≡ ok metadata
  pub history_read :
      read_json observer_faults http
        (runs_address (elim options.external_actor_id [ none ↦ false | some id ↦ true ]))
      ≡ ok history
  pub supported : IsSupported metadata history options.later options.external_actor_id report

judge_history-IsObserved :
    (http : Http) (options : ObserverOptions) (metadata : Json) (report : ObserverReport)
    → read_json observer_faults http api ≡ ok metadata
    → judge_history http options metadata ≡ ok report
    → report.report_status ≡ healthy
    → IsObserved http options report
unfolding judge_history
judge_history-IsObserved http options metadata report read h good =
    let address = runs_address (elim options.external_actor_id [ none ↦ false | some id ↦ true ]) in
    bind-ok (read_json observer_faults http address) _ h λ history answered h1. record {
      metadata = metadata;
      history = history;
      workflow_read = read;
      history_read = answered;
      supported =
          evaluate_schedule-IsSupported metadata history options.later options.max_age
            options.external_actor_id report h1 good;
    }

observe-IsObserved :
    (http : Http) (options : ObserverOptions) (report : ObserverReport)
    → observe http options ≡ ok report
    → report.report_status ≡ healthy
    → IsObserved http options report
unfolding observe
observe-IsObserved http options report h good = bind-ok (check_options options) _ h λ _ _ h1.
    bind-ok (read_json observer_faults http api) _ h1 λ metadata read h2.
      let first =
        evaluate_schedule metadata no_history options.now options.max_age
          options.external_actor_id in
      bind-ok first _ h2 λ preliminary judged h3. elim (Bool-cases (is_active preliminary)) [
        | inl t ↦ judge_history-IsObserved http options metadata report read (rw t at h3) good
        | inr t ↦
            let same = rw t at h3 in
            let prelim_good = ok-Ensures (λ r. r.report_status ≡ healthy) (sym same) good in
            let supported =
              evaluate_schedule-IsSupported metadata no_history options.now options.max_age
                options.external_actor_id preliminary judged prelim_good in
            let inactive = rw supported.reported_active at t in cc
      ]

status-healthy : (status : ReportStatus) → report_exit_code status ≡ 0 → status ≡ healthy
status-healthy healthy h = refl
status-healthy unhealthy h = ground arith

zero-healthy :
    (report : ObserverReport)
    → exit_code (observed (reported report)) ≡ 0
    → report.report_status ≡ healthy
zero-healthy report h = status-healthy report.report_status h

check_stale_monitor-IsObserved :
    (http : Http) (options : ObserverOptions)
    → exit_code (observed (check_stale_monitor http options)) ≡ 0
    → (report : ObserverReport) × (check_stale_monitor http options ≡ reported report)
      × IsObserved http options report
unfolding check_stale_monitor
check_stale_monitor-IsObserved http options h = elim (Result-cases (observe http options)) [
  | inl (report, e) ↦
      let code = rw (e, check_stale_monitor) at h in
      (
        report,
        rw (e, check_stale_monitor) refl,
        observe-IsObserved http options report e (zero-healthy report code),
      )
  | inr (code, e) ↦ let wrong = rw (e, check_stale_monitor) at h in ground arith
]

ran-IsObserved :
    (http : Http) (options : ObserverOptions) (ended : MainReport)
    → ended ≡ observed (check_stale_monitor http options)
    → exit_code ended ≡ 0
    → (report : ObserverReport) × (ended ≡ observed (reported report))
      × IsObserved http options report
ran-IsObserved http options ended ran h =
    let (report, e, justified) = check_stale_monitor-IsObserved http options (rw ran at h) in
    (report, (ran ∙ ap observed e), justified)

-- The process ends with code 0 only after the plan was asked for, or where the two answers of
-- the transport support a healthy report.
pub main-exit_code :
    (args : List Str) (env : ObserverEnv) (http : Http) (now later : Option ℕ)
    → exit_code (main args env http now later) ≡ 0
    → (main args env http now later ≡ plan)
      ⊎ ((external : Bool) × (report : ObserverReport) × (args
            ≡ (if external then codes "--check-external" else codes "--check") ∷ [])
          × (main args env http now later ≡ observed (reported report))
          × IsObserved http (main_options external env now later) report)
unfolding main
main-exit_code [] env http now later h = inl refl
main-exit_code (argument ∷ []) env http now later h =
    elim (Bool-cases (str_eq argument (codes "--plan"))) [
      | inl t ↦ inl (rw t)
      | inr t ↦ elim (Bool-cases (str_eq argument (codes "--check"))) [
        | inl t1 ↦
            let options = main_options false env now later in
            let ran : main (argument ∷ []) env http now later
                ≡ observed (check_stale_monitor http options) =
              rw (t, t1) in
            let (report, e, justified) = ran-IsObserved http options _ ran h in
            let argued = (str_eq_iff argument _).0 t1 in
            inr (false, report, ap (λ a. a ∷ []) argued, e, justified)
        | inr t1 ↦ elim (Bool-cases (str_eq argument (codes "--check-external"))) [
          | inl t2 ↦
              let options = main_options true env now later in
              let ran : main (argument ∷ []) env http now later
                  ≡ observed (check_stale_monitor http options) =
                rw (t, t1, t2) in
              let (report, e, justified) = ran-IsObserved http options _ ran h in
              let argued = (str_eq_iff argument _).0 t2 in
              inr (true, report, ap (λ a. a ∷ []) argued, e, justified)
          | inr t2 ↦ (let wrong = rw (t, t1, t2) at h in ground arith)
        ]
      ]
    ]
main-exit_code (_ ∷ _ ∷ _) env http now later h = ground arith
