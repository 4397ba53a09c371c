-- ===== src/Monitor/Trigger/Assertion.antt =====
-- The two ends of an external trigger: what scripts/monitor-external-trigger.ts posts is what
-- `validateExternalTrigger` of scripts/monitor-artifact-state.ts lets through.
use maintainflow.Monitor.Artifact.External.{
  ExternalEnv, is_exactly, text_or_empty, validate_external_trigger,
}
use maintainflow.Monitor.Instant.{to_iso_string}
use maintainflow.Monitor.Heartbeat.{or_empty}
use maintainflow.Monitor.Heartbeat.Sent.{says_lem}
use maintainflow.Monitor.Tick.{actor_id, parse_external_tick}
use maintainflow.Prelude.{
  ℕ, Bool, false, err, if◌then◌else◌, ◌+◌, ◌*◌, ◌≤◌, ◌≡◌, true, ◌&&◌, Option, some, none, ok, leb,
  refl, arith,
}
use maintainflow.Prelude.Text.{Str, codes, str_eq_iff}
use maintainflow.Monitor.Trigger.{
  TriggerEnv, TriggerHost, TriggerOptions, is_digest, tick_message, trigger_monitor, post_dispatch,
  prepare_trigger, check_user, find_workflow, find_run, read_answer,
}
use maintainflow.Monitor.Trigger.Dispatch.{trigger_monitor-IsDispatch}

-- What the workflow reads when the trusted actor dispatches it, with the same settings and key.
abbrev pub external_env : TriggerEnv → Str → ExternalEnv
external_env env tick = record {
  event_name = some (codes "workflow_dispatch");
  monitor_enabled = some (codes "true");
  external_enabled = env.trigger_enabled;
  trigger_actor = env.trigger_actor_id;
  sender = env.trigger_actor_id;
  trigger_at = some tick;
  signing_key = env.trigger_key;
}

own_text :
    (o : Option Str) (actor : ℕ) → actor_id o ≡ some actor → is_exactly o (text_or_empty o) ≡ true
unfolding actor_id
own_text none actor h = cc
own_text (some s) actor h = (str_eq_iff s s).1 refl

same_key : (o : Option Str) → text_or_empty o ≡ or_empty o
same_key none = refl
same_key (some s) = refl

young :
    (at clock : ℕ)
    → at ≤ clock
    → clock ≤ at + 20 * 60000
    → (leb at clock && leb clock (at + 20 * 60000)) ≡ true
young at clock begun fresh = ground arith

-- The assertion with the tick passes the workflow.
assertion_passes :
    (scheduled at clock : ℕ) (env : TriggerEnv) (host : TriggerHost) (options : TriggerOptions)
    → ((key message : Str) → is_digest (host.hmac_hex key message) ≡ true)
    → (trigger_monitor (some scheduled) env host options).post_started ≡ true
    → parse_external_tick (to_iso_string scheduled) ≡ some at
    → at ≤ clock
    → clock ≤ at + 20 * 60000
    → validate_external_trigger host.hmac_hex
        (external_env env (to_iso_string scheduled))
        (some clock)
        (host.hmac_hex (or_empty env.trigger_key) (tick_message (to_iso_string scheduled)))
      ≡ ok tt
unfolding validate_external_trigger
assertion_passes scheduled at clock env host options hex h named begun fresh =
    let (enabled, d, fourth, reported) = trigger_monitor-IsDispatch scheduled env host options h in
    let on = says_lem env.trigger_enabled "true" enabled in
    let sender = own_text env.trigger_actor_id d.actor d.trusted in
    let digest =
      host.hmac_hex (or_empty env.trigger_key) (tick_message (to_iso_string scheduled)) in
    let signed = (str_eq_iff digest digest).1 refl in
    rw
      (
        on,
        d.trusted,
        sender,
        named,
        young at clock begun fresh,
        same_key env.trigger_key,
        d.keyed,
        hex (or_empty env.trigger_key) (tick_message (to_iso_string scheduled)),
        signed,
      )
      refl

-- Whether the workflow, at the instant, lets the tick and the signature through.
abbrev pub lets_through : TriggerEnv → TriggerHost → ℕ → Str → Str → Bool
lets_through env host clock tick signature =
    elim (validate_external_trigger host.hmac_hex (external_env env tick) (some clock) signature) [
      | ok _ ↦ true
      | err _ ↦ false
    ]

-- The same host, but a POST whose tick and signature the workflow does not let through gets no
-- answer.
abbrev pub guarded : TriggerEnv → ℕ → TriggerHost → TriggerHost
guarded env clock host = record host {
  dispatch = λ tick signature.
      if lets_through env host clock tick signature then host.dispatch tick signature else none;
}

post_dispatch-guarded :
    (env : TriggerEnv) (host : TriggerHost) (clock : ℕ) (tick : Str)
    → validate_external_trigger host.hmac_hex
        (external_env env tick)
        (some clock)
        (host.hmac_hex (or_empty env.trigger_key) (tick_message tick))
      ≡ ok tt
    → post_dispatch env (guarded env clock host) tick ≡ post_dispatch env host tick
unfolding post_dispatch validate_external_trigger
post_dispatch-guarded env host clock tick passes = rw passes refl

prepare_trigger-guarded :
    (env : TriggerEnv) (host : TriggerHost) (options : TriggerOptions) (clock scheduled : ℕ)
    → prepare_trigger env (guarded env clock host) options scheduled
      ≡ prepare_trigger env host options scheduled
unfolding prepare_trigger check_user find_workflow find_run read_answer
prepare_trigger-guarded env host options clock scheduled = refl

-- The workflow's check of the assertion never stops a POST: where a POST begins, and the host
-- answers only a POST whose tick and signature the workflow with the same settings and key lets
-- through, at any instant of the twenty minutes after the one that the tick names, the report is
-- the same as where the host answers every POST. A digest has 64 digits.
pub validate_external_trigger-trigger_monitor :
    (scheduled at clock : ℕ) (env : TriggerEnv) (host : TriggerHost) (options : TriggerOptions)
    → ((key message : Str) → is_digest (host.hmac_hex key message) ≡ true)
    → (trigger_monitor (some scheduled) env host options).post_started ≡ true
    → parse_external_tick (to_iso_string scheduled) ≡ some at
    → at ≤ clock
    → clock ≤ at + 20 * 60000
    → trigger_monitor (some scheduled) env (guarded env clock host) options
      ≡ trigger_monitor (some scheduled) env host options
unfolding trigger_monitor
validate_external_trigger-trigger_monitor scheduled at clock env host options hex h named begun
      fresh =
    let passes = assertion_passes scheduled at clock env host options hex h named begun fresh in
    rw
      (
        prepare_trigger-guarded env host options clock scheduled,
        post_dispatch-guarded env host clock (to_iso_string scheduled) passes,
      )
      refl
