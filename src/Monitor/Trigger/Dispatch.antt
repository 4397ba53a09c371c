-- ===== src/Monitor/Trigger/Dispatch.antt =====
-- When scripts/monitor-external-trigger.ts begins its POST, and what it reports then.
use maintainflow.Monitor.Instant.{to_iso_string}
use maintainflow.Monitor.Tick.{actor_id, parse_external_tick}
use maintainflow.Monitor.Heartbeat.{says}
use maintainflow.Prelude.{
  ℕ, ◌+◌, ◌≤◌, ◌≡◌, true, false, ◌&&◌, List, [], ◌∷◌, Option, some, none, Result, ok, err, ◌>>◌,
  want, want-some, require, leb, refl, bind-ok, require-ok, require-true, ok-Ensures, Bool-cases,
  Option-cases, inl, inr, and_left, and_right, leb→le, length, not,
}
use maintainflow.Prelude.All.{All}
use maintainflow.Prelude.Json.{Json, get, as_positive, equals_whole, safe_positive}
use maintainflow.Prelude.Text.{Str}
use maintainflow.Monitor.Schedule.Observe.{has_space}
use maintainflow.Monitor.Heartbeat.{or_empty}
use maintainflow.Monitor.Trigger.{
  TriggerEnv, TriggerHost, TriggerOptions, TriggerFault, TriggerFailure, trigger_api_unavailable,
  trigger_tick_stale, after_requests, is_fresh, is_digest, user_address, workflow_address,
  dispatches_address, read_answer, read_active_workflow, read_dispatches, is_dispatch, is_titled,
  is_sent_by, find_created, check_trigger, check_user, find_workflow, find_run, prepare_trigger,
  post_dispatch, accepted, failed, trigger_dispatch_uncertain, TriggerReport, after_search,
  trigger_monitor,
}

-- The clock reads between the tick and two minutes after it, and the tick is a tick.
pub record IsOnTime (scheduled : ℕ) (clock : Option ℕ) : Type 0 where
  pub read : ℕ
  pub tick : ℕ
  pub read_at : clock ≡ some read
  pub ticked : parse_external_tick (to_iso_string scheduled) ≡ some tick
  pub begun : scheduled ≤ read
  pub soon : read ≤ scheduled + 120000

fresh_now-IsOnTime :
    (scheduled now : ℕ) → is_fresh scheduled (some now) ≡ true → IsOnTime scheduled (some now)
unfolding is_fresh
fresh_now-IsOnTime scheduled now h =
    elim (Option-cases (parse_external_tick (to_iso_string scheduled))) [
      | inl e ↦ let wrong = rw e at h in cc
      | inr (at, e) ↦ record {
        read = now;
        tick = at;
        read_at = refl;
        ticked = e;
        begun = leb→le _ _ (and_right _ (and_left _ h));
        soon = leb→le _ _ (and_right _ h);
      }
    ]

is_fresh-IsOnTime :
    (scheduled : ℕ) (clock : Option ℕ) → is_fresh scheduled clock ≡ true → IsOnTime scheduled clock
unfolding is_fresh
is_fresh-IsOnTime scheduled none h = cc
is_fresh-IsOnTime scheduled (some now) h = fresh_now-IsOnTime scheduled now h

after_requests-ok :
    {A : Type 0} (n : ℕ) (r : Result TriggerFault A) {a : A} → after_requests n r ≡ ok a → r ≡ ok a
after_requests-ok {A} n (ok b) h =
    ok-Ensures (λ c. ◌≡◌ {A = Result TriggerFault A} (ok b) (ok c)) h refl
after_requests-ok n (err e) h = cc

find_created-none :
    (workflow_id actor : ℕ) (tick : Str) (runs : List Json)
    → find_created workflow_id actor tick runs ≡ ok none
    → All (λ run. is_titled tick run ≡ false) runs
unfolding find_created
find_created-none workflow_id actor tick [] h = tt
find_created-none workflow_id actor tick (run ∷ runs) h =
    bind-ok (want (as_positive (get "id" run)) _) _ h λ id _ h1.
      require-ok (is_dispatch workflow_id run) _ _ h1 λ _ h2.
        elim (Bool-cases (is_titled tick run)) [
          | inr t ↦ (t, find_created-none workflow_id actor tick runs (rw t at h2))
          | inl t ↦ let h3 = rw t at h2 in require-ok (is_sent_by actor run) _ _ h3 λ good h4. (cc)
        ]

-- What is known before the POST begins.
pub record IsDispatch (env : TriggerEnv) (host : TriggerHost) (options : TriggerOptions)
    (scheduled : ℕ) : Type 0 where
  pub actor : ℕ
  pub user : Json
  pub metadata : Json
  pub workflow_id : ℕ
  pub history : Json
  pub runs : List Json
  pub on_time : IsOnTime scheduled options.now
  pub still_on_time : IsOnTime scheduled options.later
  pub trusted : actor_id env.trigger_actor_id ≡ some actor
  pub keyed : is_digest (or_empty env.trigger_key) ≡ true
  pub user_read : read_answer host trigger_api_unavailable (host.fetch user_address) ≡ ok user
  pub is_trusted : equals_whole (get "id" user) actor ≡ true
  pub metadata_read :
      read_answer host trigger_api_unavailable (host.fetch workflow_address) ≡ ok metadata
  pub active : read_active_workflow metadata ≡ ok workflow_id
  pub history_read :
      read_answer host trigger_api_unavailable (host.fetch dispatches_address) ≡ ok history
  pub listed : read_dispatches history ≡ ok runs
  pub not_created : All (λ run. is_titled (to_iso_string scheduled) run ≡ false) runs

check_trigger-ok :
    (env : TriggerEnv) (options : TriggerOptions) (scheduled actor : ℕ)
    → check_trigger env options scheduled ≡ ok actor
    → IsOnTime scheduled options.now
      × (actor_id env.trigger_actor_id ≡ some actor)
      × (is_digest (or_empty env.trigger_key) ≡ true)
unfolding check_trigger
check_trigger-ok env options scheduled actor h =
    require-ok (is_fresh scheduled options.now) _ _ h λ fresh h1.
      bind-ok (want (actor_id env.trigger_actor_id) _) _ h1 λ id e h2.
        bind-ok (want env.trigger_token _) _ h2 λ token _ h3.
          require-ok
            (leb 16 (length token) && not (has_space token) && is_digest (or_empty env.trigger_key))
            _ _ h3
            λ good h4. bind-ok (want (safe_positive options.timeout_ms) _) _ h4 λ timeout _ h5.
              require-ok (leb timeout 20000) _ _ h5 λ _ h6. (
                is_fresh-IsOnTime scheduled options.now fresh,
                ok-Ensures (λ a. actor_id env.trigger_actor_id ≡ some a) h6 (want-some _ _ e),
                and_right _ good,
              )

found_none :
    (created : Option ℕ) (m : Result TriggerFault (Unit {0}))
    → ◌≡◌ {A = Result TriggerFault (Option ℕ)}
        (elim created [ some id ↦ ok (some id) | none ↦ m >> ok none ])
        (ok none)
    → (created ≡ none) × (m ≡ ok tt)
found_none none (ok t) h = (refl, refl)
found_none none (err e) h = cc
found_none (some id) m h = let wrong = ok-Ensures (λ o. o ≡ some id) h refl in cc

module _ (env : TriggerEnv) (host : TriggerHost) (options : TriggerOptions) (scheduled : ℕ) where
  prepare_trigger-IsDispatch :
      prepare_trigger env host options scheduled ≡ ok none → IsDispatch env host options scheduled
  unfolding prepare_trigger check_user find_workflow find_run
  prepare_trigger-IsDispatch h =
      bind-ok (after_requests 0 (check_trigger env options scheduled)) _ h λ actor checked h1.
        bind-ok (after_requests 1 (check_user host actor)) _ h1 λ _ known h2.
          bind-ok (after_requests 2 (find_workflow host)) _ h2 λ workflow_id found h3.
            bind-ok (read_answer host trigger_api_unavailable (host.fetch user_address)) _
              (after_requests-ok 1 (check_user host actor) known)
              λ user user_read k1.
                bind-ok (read_answer host trigger_api_unavailable (host.fetch workflow_address)) _
                  (after_requests-ok 2 (find_workflow host) found)
                  λ metadata metadata_read k2.
                    bind-ok
                      (read_answer host trigger_api_unavailable (host.fetch dispatches_address)) _
                      (after_requests-ok 3 (find_run host options scheduled actor workflow_id) h3)
                      λ history history_read k3.
                        bind-ok (read_dispatches history) _ k3 λ runs listed k4.
                          bind-ok (find_created workflow_id actor (to_iso_string scheduled) runs) _
                            k4
                            λ created searched k5.
                              let (absent, again) =
                                found_none created
                                  (require (is_fresh scheduled options.later) trigger_tick_stale)
                                  k5 in
                              let (on_time, trusted, keyed) =
                                check_trigger-ok env options scheduled actor (
                                  after_requests-ok 0 (check_trigger env options scheduled)
                                    checked) in
                              record {
                                actor = actor;
                                user = user;
                                metadata = metadata;
                                workflow_id = workflow_id;
                                history = history;
                                runs = runs;
                                on_time = on_time;
                                still_on_time =
                                    is_fresh-IsOnTime scheduled options.later
                                      (require-true (is_fresh scheduled options.later) _ again);
                                trusted = trusted;
                                keyed = keyed;
                                user_read = user_read;
                                is_trusted = require-true (equals_whole (get "id" user) actor) _ k1;
                                metadata_read = metadata_read;
                                active = k2;
                                history_read = history_read;
                                listed = listed;
                                not_created =
                                    find_created-none workflow_id actor (to_iso_string scheduled)
                                      runs (rw absent at searched);
                              }

-- The run that the answer names, or the word that only the history can tell.
pub data IsReported (posted : Result TriggerFault ℕ) (r : TriggerReport) : Type 0 where
  as_accepted :
      (id : ℕ)
      → posted ≡ ok id
      → r.trigger_status ≡ accepted
      → r.run ≡ some id
      → IsReported posted r
  as_uncertain :
      (fault : TriggerFault)
      → posted ≡ err fault
      → r.trigger_status ≡ failed
      → r.trigger_reason ≡ trigger_dispatch_uncertain
      → IsReported posted r

after_search-started :
    (tick : Str) (posted : Result TriggerFault ℕ) (found : Result TriggerFailure (Option ℕ))
    → (after_search tick posted found).post_started ≡ true
    → (found ≡ ok none)
      × ((after_search tick posted found).requests ≡ 4)
      × IsReported posted (after_search tick posted found)
after_search-started tick posted (err e) h = cc
after_search-started tick posted (ok (some id)) h = cc
after_search-started tick (ok id) (ok none) h = (refl, refl, as_accepted id refl refl refl)
after_search-started tick (err fault) (ok none) h = (refl, refl, as_uncertain fault refl refl refl)

-- A POST begins only where triggers are enabled, the clock reads at most two minutes after the
-- tick both before the first request and just before the POST, the user of the token is the
-- trusted actor, the workflow is active, and no listed run has the title of the tick; the key has 64
-- hexadecimal digits. It is then
-- the fourth request, and the report is the accepted run that its answer names or says that the
-- outcome is uncertain.
pub trigger_monitor-IsDispatch :
    (scheduled : ℕ) (env : TriggerEnv) (host : TriggerHost) (options : TriggerOptions)
    → (trigger_monitor (some scheduled) env host options).post_started ≡ true
    → (says env.trigger_enabled "true" ≡ true)
      × IsDispatch env host options scheduled
      × ((trigger_monitor (some scheduled) env host options).requests ≡ 4)
      × IsReported
          (post_dispatch env host (to_iso_string scheduled))
          (trigger_monitor (some scheduled) env host options)
unfolding trigger_monitor
trigger_monitor-IsDispatch scheduled env host options h =
    elim (Bool-cases (says env.trigger_enabled "true")) [
      | inr t ↦ let wrong = rw t at h in cc
      | inl t ↦
          let tick = to_iso_string scheduled in
          let (free, fourth, reported) =
            after_search-started tick (post_dispatch env host tick)
              (prepare_trigger env host options scheduled) (rw t at h) in
          (
            t,
            prepare_trigger-IsDispatch env host options scheduled free,
            rw t fourth,
            rw t reported,
          )
    ]
