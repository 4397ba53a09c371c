-- ===== src/Monitor/Artifact/Main.antt =====
-- `main` of scripts/monitor-artifact-state.ts. The event file is a parameter: whether it is a plain
-- file, its size, and what `JSON.parse` makes of it, where it can be opened. The lines for the console are not modelled.
use maintainflow.Bank.Decimal.Print.{digits_of}
use maintainflow.Monitor.Artifact.{
  ArtifactError, ArtifactSelection, artifact_arguments_invalid, artifact_environment_invalid,
  external_trigger_event_invalid, artifact_output_missing, artifact_selector_failed,
  monitor_run_superseded,
}
use maintainflow.Monitor.Artifact.External.{
  ExternalEnv, is_exactly, text_or_empty, validate_external_trigger, IsAuthentic,
}
use maintainflow.Monitor.Artifact.Select.{SelectionOptions, select_monitor_artifact}
use maintainflow.Monitor.Artifact.Source.{SourceHost}
use maintainflow.Monitor.Schedule.Observe.{positive_number}
use maintainflow.Prelude.{
  ℕ, ◌*◌, ◌≡◌, Bool, true, false, ◌&&◌, List, [], ◌∷◌, ◌++◌, Option, some, none, Result, ok, err,
  ◌>>=◌, ◌>>◌, require, want, leb, ◌==◌, if◌then◌else◌,
}
use maintainflow.Prelude.Json.{Json, whole, get, as_string, equals_string}
use maintainflow.Prelude.Text.{Str, codes, str_eq}

-- The variables that are read beside those of an external trigger. A file path is absolute on
-- POSIX where it begins with a slash.
pub record SelectorEnv : Type 0 where
  pub repository_name : Option Str
  pub reference : Option Str
  pub monitor_mode : Option Str
  pub event_path : Option Str
  pub output_path : Option Str
  pub gh_token : Option Str
  pub run_text : Option Str
  pub attempt_text : Option Str
  pub number_text : Option Str
  pub external : ExternalEnv

pub record SelectorHost : Type 0 where
  pub source_host : SourceHost
  pub event_file : Str → Option (Bool × ℕ × Option Json)
  pub hmac : Str → Str → Str

abbrev pub is_absolute : Option Str → Bool
is_absolute none = false
is_absolute (some []) = false
is_absolute (some (c ∷ _)) = c == b'/'

-- `===`, for a property and a variable that may both be undefined.
abbrev pub is_same : Option Json → Option Str → Bool
is_same none none = true
is_same (some value) (some text) = equals_string (some value) text
is_same _ _ = false

unfoldable pub parse_arguments : List Str → Result ArtifactError Bool
parse_arguments [] = ok false
parse_arguments (argument ∷ []) =
    require (str_eq argument (codes "--initialize")) artifact_arguments_invalid >> ok true
parse_arguments (_ ∷ _ ∷ _) = err artifact_arguments_invalid

-- The assertion of an external run comes with the event file.
unfoldable pub check_event : SelectorHost → SelectorEnv → Option ℕ → Result ArtifactError (Unit {0})
unfolding get validate_external_trigger
check_event host env now = do
  require (is_absolute env.event_path) external_trigger_event_invalid
  file ← want (host.event_file (text_or_empty env.event_path)) artifact_selector_failed
  require (file.0 && leb file.1 (128 * 1024)) external_trigger_event_invalid
  event ← want file.2 artifact_selector_failed
  inputs ← want (get "inputs" event) external_trigger_event_invalid
  require
      (equals_string (get "mode" inputs) (codes "external-run")
        && is_same (get "trigger_at" inputs) env.external.trigger_at)
      external_trigger_event_invalid
  signature ← want (as_string (get "tick_signature" inputs)) external_trigger_event_invalid
  validate_external_trigger host.hmac env.external now signature

unfoldable pub selector_options : SelectorEnv → Bool → SelectionOptions
unfolding positive_number
selector_options env initialize = record {
  token = text_or_empty env.gh_token;
  current_id = positive_number (text_or_empty env.run_text);
  current_attempt = positive_number (text_or_empty env.attempt_text);
  current_number = positive_number (text_or_empty env.number_text);
  initialize = initialize;
  timeout_ms = whole 20000;
}

-- The lines of `GITHUB_OUTPUT`.
unfoldable pub output_lines : Option ArtifactSelection → Bool → Str
unfolding digits_of
output_lines selection superseded =
    codes "artifact_id="
    ++ (elim selection [ none ↦ [] | some s ↦ digits_of s.selected_id ])
    ++ 10 ∷ codes "run_id="
    ++ (elim selection [ none ↦ [] | some s ↦ digits_of s.selected_run ])
    ++ 10 ∷ codes "artifact_name="
    ++ (elim selection [ none ↦ [] | some s ↦ s.selected_name ])
    ++ 10 ∷ codes "superseded="
    ++ (if superseded then codes "true" else codes "false")
    ++ 10 ∷ []

abbrev pub is_superseded_fault : ArtifactError → Bool
is_superseded_fault fault = elim fault [ monitor_run_superseded ↦ true | _ ↦ false ]

-- A first attempt that is superseded ends well, with no checkpoint.
unfoldable pub output_of :
    SelectorEnv → Result ArtifactError (Option ArtifactSelection) → Result ArtifactError Str
unfolding output_lines
output_of env (ok selection) = ok (output_lines selection false)
output_of env (err fault) =
    if is_superseded_fault fault && is_exactly env.attempt_text (codes "1")
    then ok (output_lines none true)
    else err fault

-- What is appended to the output file.
unfoldable pub selector_main :
    List Str → SelectorEnv → SelectorHost → Option ℕ → Result ArtifactError Str
unfolding parse_arguments check_event selector_options select_monitor_artifact output_of
selector_main arguments env host now = do
  initialize ← parse_arguments arguments
  require
      (is_exactly env.repository_name (codes "rory-hayes/maintainflow")
        && is_exactly env.reference (codes "refs/heads/main"))
      artifact_environment_invalid
  let checked = check_event host env now
  event ← if is_exactly env.monitor_mode (codes "external-run") then checked else ok tt
  require (is_absolute env.output_path) artifact_output_missing
  output_of env (select_monitor_artifact host.source_host (selector_options env initialize))

-- The event file has the tick of the environment and a signature that is that of the tick.
pub record IsAsserted (host : SelectorHost) (env : SelectorEnv) (now : Option ℕ) : Type 0 where
  pub path : Str
  pub size : ℕ
  pub event : Json
  pub inputs : Json
  pub signature : Str
  pub located : env.event_path ≡ some path
  pub file_read : host.event_file path ≡ some (true, size, some event)
  pub has_inputs : get "inputs" event ≡ some inputs
  pub tick : as_string (get "trigger_at" inputs) ≡ env.external.trigger_at
  pub has_signature : as_string (get "tick_signature" inputs) ≡ some signature
  pub authentic : IsAuthentic host.hmac env.external now signature
