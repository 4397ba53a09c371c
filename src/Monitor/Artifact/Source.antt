-- ===== src/Monitor/Artifact/Source.antt =====
-- `refreshPriorRun`, `verifySelectorOnlySource` and the proof about a skipped run in
-- `selectMonitorArtifact` of scripts/monitor-artifact-state.ts. The transport, `JSON.parse`, base64,
-- SHA-256 and the two local files are parameters.
use maintainflow.Bank.Decimal.Print.{digits_of}
use maintainflow.Monitor.Artifact.{
  ArtifactError, MonitorRun, latest_monitor_checkpoint_missing, artifact_run_refresh_conflict,
  artifact_selector_source_untrusted, read_monitor_run, is_concluded,
}
use maintainflow.Monitor.Artifact.Jobs.{
  was_superseded, was_observed, failed_before_state, completed_monitor_job, never_acquired_check_id,
  artifact_faults, prove_never_acquired,
}
use maintainflow.Monitor.Schedule.{is_one_of}
use maintainflow.Monitor.Transport.{Http, read_json, response_limit}
use maintainflow.Prelude.{
  ℕ, Bool, true, false, not, ◌&&◌, ◌||◌, List, [], ◌∷◌, ◌++◌, Option, some, none, Result, ok, err,
  ◌>>=◌, ◌>>◌, require, want, leb, ◌==◌, if◌then◌else◌, length,
}
use maintainflow.Prelude.Json.{Json, get, as_array, as_string, equals_whole, equals_string}
use maintainflow.Prelude.Text.{Str, codes, str_eq, is_word}

-- `local` holds the digests of the workflow and of the selector beside this program.
pub record SourceHost : Type 0 where
  pub http : Http
  pub decode_base64 : Str → List ℕ
  pub sha256 : List ℕ → Str
  pub local_digests : Str × Str

abbrev pub actions_address : Str
actions_address = codes "https://api.github.com/repos/rory-hayes/maintainflow/actions"

unfoldable pub attempt_address : MonitorRun → ℕ → Str
unfolding digits_of
attempt_address run attempt =
    actions_address
    ++ codes "/runs/"
    ++ digits_of run.run_id
    ++ codes "/attempts/"
    ++ digits_of attempt

unfoldable pub page_address : ℕ → Str
unfolding digits_of
page_address page =
    actions_address
    ++ codes "/workflows/operations-monitor.yml/runs?branch=main&per_page=30"
    ++ (if page == 1 then [] else codes "&page=" ++ digits_of page)

-- `runsResponse({total_count: 1, workflow_runs: [value]}).runs[0]`.
unfoldable pub read_attempt : Http → MonitorRun → ℕ → Result ArtifactError MonitorRun
unfolding read_json read_monitor_run attempt_address
read_attempt http run attempt = do
  value ← read_json artifact_faults http (attempt_address run attempt)
  read_monitor_run value

-- The branch and the two repositories are the same for all runs.
unfoldable pub refresh_prior_run : Http → MonitorRun → Result ArtifactError MonitorRun
unfolding read_attempt
refresh_prior_run http run = do
  fresh ← read_attempt http run run.attempt_of_run
  require
      (fresh.run_id == run.run_id
        && fresh.number == run.number
        && fresh.attempt_of_run == run.attempt_of_run
        && str_eq fresh.revision run.revision
        && str_eq fresh.title run.title
        && str_eq fresh.trigger_event run.trigger_event)
      artifact_run_refresh_conflict
  ok fresh

-- The digests of the released workflows, and of the released selectors.
abbrev pub historical_workflows : List Str
historical_workflows =
    codes "b04ebabb35917e47b0ecb7756a838596ca27747a98d4b15fabfb20e31dbb6047"
    ∷ codes "3a1da6395411103a5a6ef6680a41fb22275dd565c6dc0dd7ab9f5d282853342a"
    ∷ codes "4d0f2af8ab134ed4ca002a0606729e2689fbf68a9fe2d10ec96941e6c04e9447"
    ∷ []

abbrev pub historical_selectors : List Str
historical_selectors =
    codes "36d48bfae9039bc891147c7d06ec659a15ac69a3b2574525d6113a967eba95ad"
    ∷ codes "ecaacf7b935d187b4957c33823b142a205e427b8838bd74a2879b863df563daa"
    ∷ codes "99055b9c9535bd229e108cfcb5cf0f74f8623bec946986961fed417dc11965bd"
    ∷ codes "e722304515a0ed48d52f744d8dc9a18dcf8ba6170d29aab992c00b05e8141ab8"
    ∷ codes "cd15e5ff042095c7143dea1d9e283bd02a814a79644c91d0f18281b087f05937"
    ∷ []

abbrev is_base64_digit : ℕ → Bool
unfolding is_word
is_base64_digit c = (is_word c && not (c == b'_')) || c == b'+' || c == b'/'

-- `/^(?:[A-Za-z0-9+/]{4})*(?:[A-Za-z0-9+/]{2}==|[A-Za-z0-9+/]{3}=)?$/`
unfoldable pub is_base64 : Str → Bool
unfolding is_word
is_base64 [] = true
is_base64 (a ∷ b ∷ c ∷ d ∷ []) =
    is_base64_digit a
    && is_base64_digit b
    && ((is_base64_digit c && (is_base64_digit d || d == b'=')) || (c == b'=' && d == b'='))
is_base64 (a ∷ b ∷ c ∷ d ∷ s) =
    is_base64_digit a && is_base64_digit b && is_base64_digit c && is_base64_digit d && is_base64 s
is_base64 _ = false

-- `.replace(/\n/g, '')`
abbrev pub drop_newlines : Str → Str
drop_newlines [] = []
drop_newlines (c ∷ s) = let rest = drop_newlines s in if c == 10 then rest else c ∷ rest

abbrev pub contents_address : Str → MonitorRun → Str
contents_address path run =
    codes "https://api.github.com/repos/rory-hayes/maintainflow/contents/"
    ++ path
    ++ codes "?ref="
    ++ run.revision

-- The file at that revision is the local one, or an old one where that is allowed.
unfoldable pub verify_file :
    SourceHost → MonitorRun → Bool → Str → Str → List Str → Result ArtifactError (Unit {0})
unfolding read_json get is_base64
verify_file host run allow_historical path local historical = do
  value ← read_json artifact_faults host.http (contents_address path run)
  require
      (equals_string (get "type" value) (codes "file")
        && equals_string (get "path" value) path
        && equals_string (get "encoding" value) (codes "base64"))
      artifact_selector_source_untrusted
  content ← want (as_string (get "content" value)) artifact_selector_source_untrusted
  let encoded = drop_newlines content
  require (leb 1 (length encoded) && is_base64 encoded) artifact_selector_source_untrusted
  let source = host.decode_base64 encoded
  require
      (leb (length source) response_limit
        && (str_eq (host.sha256 source) local
            || (allow_historical && is_one_of (host.sha256 source) historical)))
      artifact_selector_source_untrusted

unfoldable pub verify_selector_only_source :
    SourceHost → MonitorRun → Bool → Result ArtifactError (Unit {0})
unfolding verify_file
verify_selector_only_source host run allow_historical = do
  verify_file host run allow_historical (codes ".github/workflows/operations-monitor.yml")
      host.local_digests.0 historical_workflows
  verify_file host run allow_historical (codes "scripts/monitor-artifact-state.ts")
      host.local_digests.1 historical_selectors

-- `proofKey`: a revision, and whether the proof is of a superseded run.
unfoldable pub is_verified : Str → Bool → List (Str × Bool) → Bool
is_verified revision superseded [] = false
is_verified revision superseded ((r, s) ∷ keys) =
    (str_eq r revision && (if s then superseded else not superseded))
    || is_verified revision superseded keys

unfoldable pub is_superseded_run : Json → MonitorRun → Bool
unfolding completed_monitor_job
is_superseded_run jobs run =
    is_concluded run (codes "success") && elim (completed_monitor_job jobs run) [
      | none ↦ false
      | some proof ↦ elim proof [ was_observed ↦ false | was_superseded ↦ true ]
    ]

-- No artifacts at all.
unfoldable pub has_no_artifacts : Json → Bool
unfolding get
has_no_artifacts value =
    equals_whole (get "total_count" value) 0
    && elim (as_array (get "artifacts" value)) [ some [] ↦ true | _ ↦ false ]

-- The source of the skipped run, where it has not been verified before.
unfoldable pub verify_once :
    SourceHost → MonitorRun → Bool → List (Str × Bool) → Result ArtifactError (List (Str × Bool))
unfolding verify_selector_only_source is_verified
verify_once host run superseded verified =
    let checked =
      verify_selector_only_source host run (not superseded)
      >> ok ((run.revision, superseded) ∷ verified) in
    if is_verified run.revision superseded verified then ok verified else checked

unfoldable pub never_acquired : SourceHost → MonitorRun → Option ℕ → Result ArtifactError (Unit {0})
unfolding prove_never_acquired
never_acquired host run none = err latest_monitor_checkpoint_missing
never_acquired host run (some check) = do
  proven ← prove_never_acquired host.http check run
  require proven latest_monitor_checkpoint_missing

-- A run with no checkpoint is skipped only where it is proven that it did not touch the state.
unfoldable pub skip_run :
    SourceHost → MonitorRun → Json → List (Str × Bool) → Result ArtifactError (List (Str × Bool))
unfolding has_no_artifacts read_json is_superseded_run failed_before_state never_acquired_check_id
    verify_once
skip_run host run artifacts verified = do
  require (has_no_artifacts artifacts) latest_monitor_checkpoint_missing
  jobs ← read_json artifact_faults host.http (attempt_address run 1 ++ codes "/jobs?per_page=100")
  let superseded = is_superseded_run jobs run
  let failed = failed_before_state jobs run
  let known = failed || superseded
  let check = if known then none else never_acquired_check_id jobs run
  require (known || elim check [ none ↦ false | some id ↦ true ]) latest_monitor_checkpoint_missing
  now_verified ← verify_once host run superseded verified
  let proven = never_acquired host run check
  if known then ok now_verified else (proven >> ok now_verified)
