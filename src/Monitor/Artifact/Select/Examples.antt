-- ===== src/Monitor/Artifact/Select/Examples.antt =====
-- `selectMonitorArtifact` and `main` of scripts/monitor-artifact-state.ts at concrete histories.
use maintainflow.Monitor.Artifact.{ArtifactSelection}
use maintainflow.Monitor.Artifact.Main.{SelectorEnv, SelectorHost}
use maintainflow.Monitor.Artifact.Source.{SourceHost, page_address}
use maintainflow.Prelude.{
  ℕ, ◌≡◌, ◌≤◌, ◌==◌, refl, true, false, List, [], ◌∷◌, some, none, if◌then◌else◌, length,
  map_result,
}
use maintainflow.Prelude.All.{All}
use maintainflow.Prelude.Json.{
  Json, null, string, number, whole, object, array, bool, items_of_list, fields_of_list,
}
use maintainflow.Prelude.Sort.{sort_by}
use maintainflow.Prelude.Text.{Str, codes, str_eq}
use Prim.Native.String.{String}
use maintainflow.Monitor.Artifact.Select.{SelectionOptions, older_than, select_monitor_artifact}
use maintainflow.Monitor.Artifact.Select.Initial.{IsSearch, select_monitor_artifact-none}
use maintainflow.Monitor.Artifact.Select.Skips.{IsStateless}

abbrev name_of : Json
name_of =
    object (fields_of_list ((codes "full_name", string (codes "rory-hayes/maintainflow")) ∷ []))

abbrev listed_run : ℕ → ℕ → String → Json → Json
listed_run id run_number status conclusion = object (
    fields_of_list (
      (codes "id", number (whole id))
      ∷ (codes "run_number", number (whole run_number))
      ∷ (codes "run_attempt", number (whole 1))
      ∷ (codes "display_title", string (codes "Folio monitor: run"))
      ∷ (codes "head_sha", string (codes "0123456789abcdef0123456789abcdef01234567"))
      ∷ (codes "head_branch", string (codes "main"))
      ∷ (codes "event", string (codes "schedule"))
      ∷ (codes "status", string (codes status))
      ∷ (codes "conclusion", conclusion)
      ∷ (codes "repository", name_of)
      ∷ (codes "head_repository", name_of)
      ∷ []))

abbrev page_of : List Json → Json
page_of runs = object (
    fields_of_list (
      (codes "total_count", number (whole (length runs)))
      ∷ (codes "workflow_runs", array (items_of_list runs))
      ∷ []))

abbrev artifacts : Json
artifacts = object (
    fields_of_list (
      (codes "total_count", number (whole 1))
      ∷ (
        codes "artifacts",
        array (
            items_of_list (
              object (
                fields_of_list (
                  (codes "id", number (whole 2))
                  ∷ (codes "name", string (codes "folio-monitor-state-v1-1-delivered"))
                  ∷ (codes "expired", bool false)
                  ∷ (codes "size_in_bytes", number (whole 10))
                  ∷ []))
              ∷ [])),
      )
      ∷ []))

-- The first byte of a body says whether it is the page or the artifacts.
abbrev host : List Json → SourceHost
host runs = record {
  http = record {
    request = λ url. some (record {
      status = 200;
      content_length = none;
      body = some (((if str_eq url (page_address 1) then 1 else 2) ∷ []) ∷ []);
    });
    parse = λ bytes. elim bytes [
      | [] ↦ none
      | byte ∷ _ ↦ some (if byte == 1 then page_of runs else artifacts)
    ];
  };
  decode_base64 = λ s. s;
  sha256 = λ s. s;
  local_digests = ([], []);
}

abbrev current : Json
current = listed_run 10 9 "in_progress" null

abbrev older : Json
older = listed_run 4 8 "completed" (string (codes "success"))

abbrev options : SelectionOptions
options = record {
  token = codes "0123456789abcdef";
  current_id = whole 10;
  current_attempt = whole 1;
  current_number = whole 9;
  initialize = true;
  timeout_ms = whole 20000;
}

abbrev selection : ArtifactSelection
selection = record {
  selected_id = 2;
  selected_run = 4;
  selected_name = codes "folio-monitor-state-v1-1-delivered";
}

select_monitor_artifact-none_example :
    (options.initialize ≡ true)
    × ((search : IsSearch (host (current ∷ [])) options none) × (search.attempt ≤ 1)
        × All IsStateless (sort_by (λ run. run.number) (older_than search.number search.listed.0)))
unfolding select_monitor_artifact page_address map_result
select_monitor_artifact-none_example =
    select_monitor_artifact-none (host (current ∷ [])) options refl

abbrev digits : Str
digits = codes "0123456789abcdef0123456789abcdef0123456789abcdef0123456789abcdef"

abbrev env : SelectorEnv
env = record {
  repository_name = some (codes "rory-hayes/maintainflow");
  reference = some (codes "refs/heads/main");
  monitor_mode = some (codes "external-run");
  event_path = some (codes "/event.json");
  output_path = some (codes "/output");
  gh_token = some (codes "0123456789abcdef");
  run_text = some (codes "10");
  attempt_text = some (codes "1");
  number_text = some (codes "9");
  external = record {
    event_name = some (codes "workflow_dispatch");
    monitor_enabled = some (codes "true");
    external_enabled = some (codes "true");
    trigger_actor = some (codes "42");
    sender = some (codes "42");
    trigger_at = some (codes "2026-02-28T23:57:00.000Z");
    signing_key = some digits;
  };
}

abbrev event : Json
event = object (
    fields_of_list (
      (
        codes "inputs",
        object (
            fields_of_list (
              (codes "mode", string (codes "external-run"))
              ∷ (codes "trigger_at", string (codes "2026-02-28T23:57:00.000Z"))
              ∷ (codes "tick_signature", string digits)
              ∷ [])),
      )
      ∷ []))

abbrev selector_host : SelectorHost
selector_host = record {
  source_host = host (current ∷ older ∷ []);
  event_file = λ path. some (true, 200, some event);
  hmac = λ key message. digits;
}
