-- ===== src/Monitor/Heartbeat/Sent.antt =====
-- When scripts/monitor-heartbeat.ts sends its ping, and what an accepted ping says of the run.
use maintainflow.Monitor.Artifact.Jobs.{
  JobProof, was_observed, was_superseded, completed_monitor_job,
}
use maintainflow.Monitor.Artifact.Observed.{IsObservedJob, completed_monitor_job-IsObservedJob}
use maintainflow.Monitor.Body.{Response, concat, read_body, read_body-IsWhole}
use maintainflow.Monitor.Schedule.{is_revision}
use maintainflow.Monitor.Tick.{
  actor_id, fresh_external_tick, IsFreshTick, fresh_external_tick-IsFreshTick,
}
use maintainflow.Monitor.Transport.{Http}
use maintainflow.Prelude.{
  ℕ, ◌+◌, ◌≤◌, ◌≡◌, Bool, true, false, ◌&&◌, ◌||◌, List, [], ◌∷◌, Option, some, none, Result, ok,
  err, ◌>>◌, want, want-some, leb, ◌==◌, ==_iff, if◌then◌else◌, refl, bind-ok, require-ok,
  require-true, length, Bool-cases, Option-cases, inl, inr, arith, and_left, and_right,
}
use maintainflow.Prelude.Json.{Json, safe_positive}
use maintainflow.Prelude.Text.{Str, codes, str_eq, str_eq_iff}
use Prim.Native.String.{String}
use maintainflow.Monitor.Heartbeat.{
  HeartbeatFault, HeartbeatEnv, max_age_ms, says, or_empty, same_actor, is_external_source,
  is_monitor_source, is_trigger, is_completion, instant_or_nan, is_fresh_source,
  validate_completed_schedule, jobs_address, source_run, source_observed, is_ping_address,
  HeartbeatOptions, prepare_heartbeat, ping, after_ping, after_check, send_to, sent, send_heartbeat,
}

or_empty_lem : (o : Option Str) (c : ℕ) (s : Str) → or_empty o ≡ c ∷ s → o ≡ some (c ∷ s)
or_empty_lem none c s h = cc
or_empty_lem (some t) c s h = rw h refl

pub says_lem : (o : Option Str) (t : String) → says o t ≡ true → o ≡ some (codes t)
says_lem none t h = cc
says_lem (some text) t h = let e = (str_eq_iff text (codes t)).0 h in cc

-- A scheduled run, or one that the trusted actor has dispatched for a fresh tick.
pub data IsStarted (env : HeartbeatEnv) (created current : ℕ) : Type 0 where
  by_schedule : env.source_event ≡ some (codes "schedule") → IsStarted env created current
  by_actor :
      (actor tick : ℕ)
      → env.source_event ≡ some (codes "workflow_dispatch")
      → actor_id env.source_actor_id ≡ some actor
      → actor_id env.folio_monitor_trigger_actor_id ≡ some actor
      → IsFreshTick (or_empty env.source_title) created current max_age_ms tick
      → IsStarted env created current

-- A run that has completed with success, not longer ago than twenty minutes.
pub record IsCompletedAt (env : HeartbeatEnv) (now : Option ℕ) : Type 0 where
  pub current : ℕ
  pub created : ℕ
  pub updated : ℕ
  pub run_id : ℕ
  pub read_at : now ≡ some current
  pub created_at : instant_or_nan env.source_created_at ≡ some created
  pub updated_at : instant_or_nan env.source_updated_at ≡ some updated
  pub before : created ≤ updated
  pub past : updated ≤ current
  pub young : current ≤ created + max_age_ms
  pub successful : env.source_conclusion ≡ some (codes "success")
  pub of_main : env.source_branch ≡ some (codes "main")
  pub identified : actor_id env.source_run_id ≡ some run_id
  pub started : IsStarted env created current

same_actor_lem : (a b : Option ℕ) → same_actor a b ≡ true → (n : ℕ) × (a ≡ some n) × (b ≡ some n)
same_actor_lem none b h = cc
same_actor_lem (some a) none h = cc
same_actor_lem (some a) (some b) h = let e = (==_iff a b).0 h in (a, refl, rw e refl)

is_external_source_lem :
    (env : HeartbeatEnv)
    → is_external_source env ≡ true
    → (says env.source_event "workflow_dispatch" ≡ true)
      × (same_actor (actor_id env.source_actor_id) (actor_id env.folio_monitor_trigger_actor_id)
          ≡ true)
unfolding is_external_source
is_external_source_lem env h = (and_left _ (and_left _ h), and_right _ h)

in_order :
    (created updated current : ℕ)
    → (leb created updated && leb updated current && leb current (created + max_age_ms)) ≡ true
    → (created ≤ updated) × (updated ≤ current) × (current ≤ created + max_age_ms)
in_order created updated current h = ground arith

observed_lem :
    (observed : Bool) (again : Result HeartbeatFault (Unit {0}))
    → (if observed then again >> ok true else ok false) ≡ ok true
    → (observed ≡ true) × (again ≡ ok tt)
observed_lem true (ok tt) h = (refl, refl)
observed_lem true (err e) h = cc
observed_lem false again h = cc

only_left : (a : Bool) → (a || false) ≡ true → a ≡ true
only_left a h = ground arith

proof_lem :
    (result : JobProof) (o : Option JobProof)
    → o ≡ some result
    → ◌≡◌ {A = Result HeartbeatFault Bool}
        (ok (elim result [ was_observed ↦ true | was_superseded ↦ false ]))
        (ok true)
    → o ≡ some was_observed
proof_lem was_observed o e h = e
proof_lem was_superseded o e h = cc

of_main_lem :
    (env : HeartbeatEnv) → is_monitor_source env ≡ true → says env.source_branch "main" ≡ true
unfolding is_monitor_source
of_main_lem env h = ground arith

start_lem :
    (env : HeartbeatEnv)
    → is_monitor_source env ≡ true
    → ((says env.source_event "schedule" && says env.source_title "Folio monitor: run")
        || is_external_source env)
      ≡ true
unfolding is_monitor_source
start_lem env h = and_left _ (and_left _ (and_left _ (and_left _ (and_left _ h))))

started :
    (env : HeartbeatEnv) (created current : ℕ)
    → is_monitor_source env ≡ true
    → is_fresh_source env created current ≡ true
    → IsStarted env created current
unfolding is_monitor_source is_fresh_source
started env created current source fresh = elim (Bool-cases (is_external_source env)) [
  | inr t ↦
      let titled = rw t at (start_lem env source) in
      by_schedule (says_lem env.source_event "schedule" (and_left _ (only_left _ titled)))
  | inl t ↦
      let f = rw t at fresh in
      elim (Option-cases
        (fresh_external_tick (or_empty env.source_title) created current max_age_ms)) [
          | inl e ↦ let g = rw e at f in cc
          | inr (tick, e) ↦
              let (dispatched, same) = is_external_source_lem env t in
              let (n, dispatcher, trusted) = same_actor_lem _ _ same in
              let event = says_lem env.source_event "workflow_dispatch" dispatched in
              by_actor n tick event dispatcher trusted
                (fresh_external_tick-IsFreshTick _ created current max_age_ms tick e)
        ]
]

conclusion_lem :
    (env : HeartbeatEnv) → is_completion env ≡ true → says env.source_conclusion "success" ≡ true
unfolding is_completion
conclusion_lem env h = ground arith

pub validate_completed_schedule-IsCompletedAt :
    (env : HeartbeatEnv) (now : Option ℕ)
    → validate_completed_schedule env now ≡ ok tt
    → IsCompletedAt env now
unfolding validate_completed_schedule
validate_completed_schedule-IsCompletedAt env now h = require-ok (is_trigger env) _ _ h λ _ h1.
    require-ok (says env.folio_monitor_enabled "true") _ _ h1 λ _ h2.
      require-ok (is_monitor_source env) _ _ h2 λ source h3.
        require-ok (is_completion env) _ _ h3 λ completion h4.
          bind-ok (want (actor_id env.source_run_id) _) _ h4 λ id identity h5.
            require-ok (is_revision (or_empty env.source_sha)) _ _ h5 λ _ h6.
              bind-ok (want now _) _ h6 λ current at h7.
                bind-ok (want (instant_or_nan env.source_created_at) _) _ h7 λ created c h8.
                  bind-ok (want (instant_or_nan env.source_updated_at) _) _ h8 λ updated u h9.
                    require-ok
                      (leb created updated
                        && leb updated current
                        && leb current (created + max_age_ms))
                      _ _ h9
                      λ order h10.
                        let fresh = require-true (is_fresh_source env created current) _ h10 in
                        let (before, past, young) = in_order created updated current order in
                        record {
                          current = current;
                          created = created;
                          updated = updated;
                          run_id = id;
                          read_at = want-some _ _ at;
                          created_at = want-some _ _ c;
                          updated_at = want-some _ _ u;
                          before = before;
                          past = past;
                          young = young;
                          successful = says_lem _ "success" (conclusion_lem env completion);
                          of_main = says_lem _ "main" (of_main_lem env source);
                          identified = want-some _ _ identity;
                          started = started env created current source fresh;
                        }

-- What the answer of the jobs request stands for.
source_observed-was_observed :
    (env : HeartbeatEnv) (http : Http)
    → source_observed env http ≡ ok true
    → (response : Response) × (chunks : List (List ℕ)) × (value : Json) × (http.request
          (jobs_address env)
        ≡ some response)
      × (response.body ≡ some chunks)
      × (http.parse (concat chunks) ≡ some value)
      × (completed_monitor_job value (source_run env) ≡ some was_observed)
unfolding source_observed
source_observed-was_observed env http h =
    require-ok (leb 16 (length (or_empty env.gh_token))) _ _ h λ _ h1.
      bind-ok (want (http.request (jobs_address env)) _) _ h1 λ response sent h2.
        require-ok (response.status == 200) _ _ h2 λ _ h3.
          bind-ok (read_body 1048576 _ _ response) _ h3 λ bytes e h4.
            bind-ok (want (http.parse bytes) _) _ h4 λ value parsed h5.
              bind-ok (want (completed_monitor_job value (source_run env)) _) _ h5
                λ result judged h6.
                  let (chunks, body, whole, within) =
                    read_body-IsWhole 1048576 _ _ response bytes e in
                  (
                    response,
                    chunks,
                    value,
                    want-some _ _ sent,
                    body,
                    (rw whole at (want-some (http.parse bytes) _ parsed)),
                    proof_lem result (completed_monitor_job value (source_run env))
                        (want-some _ _ judged) h6,
                  )

-- The watch has answered 200 with the two letters, and nothing else.
ping-IsAccepted :
    (url : Str) (http : Http)
    → ping url http ≡ ok tt
    → (response : Response) × (chunks : List (List ℕ)) × (http.request url ≡ some response)
      × (response.status ≡ 200)
      × (response.body ≡ some chunks)
      × (concat chunks ≡ codes "OK")
unfolding ping
ping-IsAccepted url http h = bind-ok (want (http.request url) _) _ h λ response sent h1.
    require-ok (response.status == 200) _ _ h1 λ good h2.
      bind-ok (read_body 64 _ _ response) _ h2 λ bytes e h3.
        let two = require-true (str_eq bytes (codes "OK")) _ h3 in
        let (chunks, body, whole, within) = read_body-IsWhole 64 _ _ response bytes e in
        (
          response,
          chunks,
          want-some _ _ sent,
          ((==_iff response.status 200).0 good),
          body,
          (rw whole at ((str_eq_iff bytes (codes "OK")).0 two)),
        )

-- What a ping that is reported as sent rests on.
pub record IsBeat (env : HeartbeatEnv) (http : Http) (options : HeartbeatOptions) : Type 0 where
  pub url : Str
  pub jobs : Response
  pub jobs_chunks : List (List ℕ)
  pub jobs_value : Json
  pub answer : Response
  pub answer_chunks : List (List ℕ)
  pub configured : env.folio_monitor_heartbeat_url ≡ some url
  pub addressed : is_ping_address url ≡ true
  pub completed : IsCompletedAt env options.now
  pub still_completed : IsCompletedAt env options.later
  pub jobs_read : http.request (jobs_address env) ≡ some jobs
  pub jobs_body : jobs.body ≡ some jobs_chunks
  pub jobs_parsed : http.parse (concat jobs_chunks) ≡ some jobs_value
  pub observed : IsObservedJob jobs_value (source_run env)
  pub answered : http.request url ≡ some answer
  pub good : answer.status ≡ 200
  pub answer_body : answer.body ≡ some answer_chunks
  pub accepted : concat answer_chunks ≡ codes "OK"

beat :
    (env : HeartbeatEnv) (http : Http) (options : HeartbeatOptions) (url : Str)
    → env.folio_monitor_heartbeat_url ≡ some url
    → prepare_heartbeat env url http options ≡ ok true
    → ping url http ≡ ok tt
    → IsBeat env http options
unfolding prepare_heartbeat
beat env http options url configured prepared pinged =
    bind-ok (validate_completed_schedule env options.now) _ prepared λ _ first h1.
      require-ok (is_ping_address url) _ _ h1 λ addressed h2.
        bind-ok (want (safe_positive options.timeout_ms) _) _ h2 λ timeout _ h3.
          require-ok (leb timeout 10000) _ _ h3 λ _ h4.
            bind-ok (source_observed env http) _ h4 λ observed e h5.
              let (true_, again) =
                observed_lem observed (validate_completed_schedule env options.later) h5 in
              let seen = rw true_ at e in
              let (jobs, jobs_chunks, value, j1, j2, j3, j4) =
                source_observed-was_observed env http seen in
              let (answer, chunks, a1, a2, a3, a4) = ping-IsAccepted url http pinged in
              record {
                url = url;
                jobs = jobs;
                jobs_chunks = jobs_chunks;
                jobs_value = value;
                answer = answer;
                answer_chunks = chunks;
                configured = configured;
                addressed = addressed;
                completed = validate_completed_schedule-IsCompletedAt env options.now first;
                still_completed = validate_completed_schedule-IsCompletedAt env options.later again;
                jobs_read = j1;
                jobs_body = j2;
                jobs_parsed = j3;
                observed = completed_monitor_job-IsObservedJob value (source_run env) j4;
                answered = a1;
                good = a2;
                answer_body = a3;
                accepted = a4;
              }

after_ping-sent :
    (env : HeartbeatEnv) (pinged : Result HeartbeatFault (Unit {0}))
    → (after_ping env pinged).heartbeat_status ≡ sent
    → (pinged ≡ ok tt) × ((after_ping env pinged).requests ≡ 1)
after_ping-sent env (err fault) h = cc
after_ping-sent env (ok t) h = (refl, refl)

after_check-sent :
    (env : HeartbeatEnv) (pinged : Result HeartbeatFault (Unit {0}))
    → (checked : Result HeartbeatFault Bool)
    → (after_check env pinged checked).heartbeat_status ≡ sent
    → (checked ≡ ok true) × (pinged ≡ ok tt) × ((after_check env pinged checked).requests ≡ 1)
after_check-sent env pinged (err fault) h = cc
after_check-sent env pinged (ok false) h = cc
after_check-sent env pinged (ok true) h =
    let (accepted, once) = after_ping-sent env pinged h in (refl, accepted, once)

send_to-IsBeat :
    (env : HeartbeatEnv) (http : Http) (options : HeartbeatOptions) (url : Str)
    → or_empty env.folio_monitor_heartbeat_url ≡ url
    → (send_to env http options url).heartbeat_status ≡ sent
    → IsBeat env http options × ((send_to env http options url).requests ≡ 1)
unfolding send_to
send_to-IsBeat env http options [] configured h = cc
send_to-IsBeat env http options (c ∷ url) configured h =
    let (checked, pinged, once) =
      after_check-sent env (ping (c ∷ url) http) (prepare_heartbeat env (c ∷ url) http options) h in
    (
      beat env http options (c ∷ url)
          (or_empty_lem env.folio_monitor_heartbeat_url c url configured) checked pinged,
      once,
    )

-- A heartbeat is reported as sent only where the source is a successful scheduled or trusted run
-- of the last twenty minutes, before the jobs are read and after; the answer about its jobs holds
-- one job, the monitor's of that run, which has completed with success, and whose steps that
-- observe, commit and deliver have ended with success; and the watch answered 200 with `OK`. The
-- report then counts one ping.
pub send_heartbeat-IsBeat :
    (env : HeartbeatEnv) (http : Http) (options : HeartbeatOptions)
    → (send_heartbeat env http options).heartbeat_status ≡ sent
    → IsBeat env http options × ((send_heartbeat env http options).requests ≡ 1)
unfolding send_heartbeat
send_heartbeat-IsBeat env http options h = send_to-IsBeat env http options _ refl h
