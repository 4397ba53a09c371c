-- ===== src/Monitor/Artifact/External.antt =====
-- `validateExternalTrigger` of scripts/monitor-artifact-state.ts. HMAC-SHA-256 is a parameter,
-- which is given the key and the message and writes the digest in hexadecimal digits; for two
-- texts of lower-case digits, `timingSafeEqual` of their bytes is the equality of the texts.
use maintainflow.Monitor.Artifact.{
  ArtifactError, external_trigger_invalid, external_trigger_signature_invalid,
}
use maintainflow.Monitor.Tick.{actor_id, parse_external_tick}
use maintainflow.Prelude.{
  ℕ, ◌+◌, ◌*◌, ◌≤◌, ◌≡◌, Bool, true, false, ◌&&◌, [], ◌++◌, Option, some, none, Result, ok, ◌>>=◌,
  ◌>>◌, want, want-some, require, leb, ◌==◌, length, bind-ok, require-ok, require-true, sym,
  and_left, and_right, leb→le,
}
use maintainflow.Prelude.Text.{all_hex, Str, codes, str_eq, str_eq_iff}

-- The variables of the environment that are read.
pub record ExternalEnv : Type 0 where
  pub event_name : Option Str
  pub monitor_enabled : Option Str
  pub external_enabled : Option Str
  pub trigger_actor : Option Str
  pub sender : Option Str
  pub trigger_at : Option Str
  pub signing_key : Option Str

abbrev pub is_exactly : Option Str → Str → Bool
is_exactly none t = false
is_exactly (some s) t = str_eq s t

-- `variable ?? ''`.
abbrev pub text_or_empty : Option Str → Str
text_or_empty none = []
text_or_empty (some s) = s

-- `/^[0-9a-f]{64}$/`
abbrev pub is_hex_digest : Str → Bool
is_hex_digest s = length s == 64 && all_hex s

-- The tests of the tick are those of `parseExternalTick`, and of the actor those of `actorId`.
unfoldable pub validate_external_trigger :
    (Str → Str → Str) → ExternalEnv → Option ℕ → Str → Result ArtifactError (Unit {0})
unfolding actor_id parse_external_tick
validate_external_trigger hmac env now signature = do
  require
      (is_exactly env.event_name (codes "workflow_dispatch")
        && is_exactly env.monitor_enabled (codes "true")
        && is_exactly env.external_enabled (codes "true"))
      external_trigger_invalid
  actor ← want (actor_id env.trigger_actor) external_trigger_invalid
  require (is_exactly env.sender (text_or_empty env.trigger_actor)) external_trigger_invalid
  at ← want (parse_external_tick (text_or_empty env.trigger_at)) external_trigger_invalid
  clock ← want now external_trigger_invalid
  require (leb at clock && leb clock (at + 20 * 60000)) external_trigger_invalid
  require (is_hex_digest (text_or_empty env.signing_key) && is_hex_digest signature)
      external_trigger_signature_invalid
  require
      (str_eq
        (hmac (text_or_empty env.signing_key)
          (codes "maintainflow-monitor-tick:v1:" ++ text_or_empty env.trigger_at))
        signature)
      external_trigger_signature_invalid

-- A dispatch of the trusted actor for a tick of the last twenty minutes, signed with the key.
pub record IsAuthentic (hmac : Str → Str → Str) (env : ExternalEnv) (now : Option ℕ)
    (signature : Str) : Type 0 where
  pub actor : ℕ
  pub at : ℕ
  pub clock : ℕ
  pub is_enabled : is_exactly env.external_enabled (codes "true") ≡ true
  pub trusted : actor_id env.trigger_actor ≡ some actor
  pub sent_by : is_exactly env.sender (text_or_empty env.trigger_actor) ≡ true
  pub ticked : parse_external_tick (text_or_empty env.trigger_at) ≡ some at
  pub read_at : now ≡ some clock
  pub begun : at ≤ clock
  pub fresh : clock ≤ at + 20 * 60000
  pub keyed : is_hex_digest (text_or_empty env.signing_key) ≡ true
  pub signed :
      signature
      ≡ hmac
          (text_or_empty env.signing_key)
          (codes "maintainflow-monitor-tick:v1:" ++ text_or_empty env.trigger_at)

-- An external trigger is accepted only as a dispatch of the trusted actor, where it is enabled,
-- for a tick of the last twenty minutes, with the signature of that tick under the key.
pub validate_external_trigger-IsAuthentic :
    (hmac : Str → Str → Str) (env : ExternalEnv) (now : Option ℕ) (signature : Str)
    → validate_external_trigger hmac env now signature ≡ ok tt
    → IsAuthentic hmac env now signature
unfolding validate_external_trigger
validate_external_trigger-IsAuthentic hmac env now signature h =
    let key = text_or_empty env.signing_key in
    let digest = hmac key (codes "maintainflow-monitor-tick:v1:" ++ text_or_empty env.trigger_at) in
    require-ok
      (is_exactly env.event_name (codes "workflow_dispatch")
        && is_exactly env.monitor_enabled (codes "true")
        && is_exactly env.external_enabled (codes "true"))
      _ _ h
      λ enabled h1. bind-ok (want (actor_id env.trigger_actor) _) _ h1 λ actor e h2.
        require-ok (is_exactly env.sender (text_or_empty env.trigger_actor)) _ _ h2 λ sender h3.
          bind-ok (want (parse_external_tick (text_or_empty env.trigger_at)) _) _ h3 λ at parsed h4.
            bind-ok (want now _) _ h4 λ clock read h5.
              require-ok (leb at clock && leb clock (at + 20 * 60000)) _ _ h5 λ young h6.
                require-ok (is_hex_digest key && is_hex_digest signature) _ _ h6 λ digests h7.
                  record {
                    actor = actor;
                    at = at;
                    clock = clock;
                    is_enabled = and_right _ enabled;
                    trusted = want-some _ _ e;
                    sent_by = sender;
                    ticked = want-some _ _ parsed;
                    read_at = want-some _ _ read;
                    begun = leb→le _ _ (and_left _ young);
                    fresh = leb→le _ _ (and_right _ young);
                    keyed = and_left _ digests;
                    signed = sym (
                        (str_eq_iff digest signature).0
                          (require-true (str_eq digest signature) _ h7));
                  }
