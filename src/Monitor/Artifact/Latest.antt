-- ===== src/Monitor/Artifact/Latest.antt =====
-- The checkpoint that `artifactResponse` of scripts/monitor-artifact-state.ts selects.
use maintainflow.Monitor.Artifact.{
  MonitorRun, is_concluded, Candidate, Phase, resumed, prepared, delivered, ArtifactSelection,
  code_of, read_candidates, artifact_response, artifact_limit, payload_limit, is_delivered,
}
use maintainflow.Monitor.Artifact.Candidates.{
  IsArtifactOf, Any, IsUpTo, IsAllowedOnly, code_of-IsUpTo, read_candidates-Any,
  read_candidates-IsAllowedOnly,
}
use maintainflow.Prelude.{
  ℕ, ◌≤◌, ◌≡◌, Bool, true, false, not, ◌&&◌, List, [], some, ok, refl, arith, bind-ok, refuse-ok,
  require-ok, ok-Ensures, want, want-some, leb, leb→le, ◌==◌, ==_iff, and_left, and_right, length,
}
use maintainflow.Prelude.All.{All, All-mono}
use maintainflow.Prelude.Json.{Json, get, as_array, as_count}
use maintainflow.Prelude.Sort.{first_of, sort_by, sort_by-All, sort_by-first_of, first_of-All}
use maintainflow.Prelude.Text.{codes}

-- The checkpoint of the latest attempt and phase that may be read: it is an artifact of the answer,
-- and every other checkpoint of the answer is of an attempt that may not be read, or not later.
pub record IsLatest (run : MonitorRun) (maximum : ℕ) (value : Json) (selection : ArtifactSelection)
    : Type 0 where
  pub artifacts : List Json
  pub chosen : Candidate
  pub listed : as_array (get "artifacts" value) ≡ some artifacts
  pub answered : Any (λ entry. IsArtifactOf entry chosen) artifacts
  pub latest : All (IsAllowedOnly maximum (λ c. IsUpTo c chosen)) artifacts
  pub allowed : chosen.attempt ≤ maximum
  pub usable : chosen.expired ≡ false
  pub not_empty : 1 ≤ chosen.size_in_bytes
  pub not_large : chosen.size_in_bytes ≤ 1048576
  pub final :
      is_concluded run (codes "success") ≡ true
      → (chosen.attempt ≡ maximum) × (chosen.phase ≡ delivered)
  pub selected_id : selection.selected_id ≡ chosen.artifact_id
  pub selected_run : selection.selected_run ≡ run.run_id
  pub selected_name : selection.selected_name ≡ chosen.name

delivered_lem : (phase : Phase) → is_delivered phase ≡ true → phase ≡ delivered
delivered_lem resumed h = cc
delivered_lem prepared h = cc
delivered_lem delivered h = refl

final_of :
    (success same last : Bool)
    → (success && not (same && last)) ≡ false
    → success ≡ true
    → (same ≡ true) × (last ≡ true)
final_of success same last h e = ground arith

-- A checkpoint that is selected is an artifact of the answer, with that artifact's id and name, of
-- the greatest attempt that may be read and, of that attempt, of the last phase of all in the
-- answer; it has not expired and has 1 byte to 1 MiB. For a run that succeeded it is what that run
-- delivered in its last attempt.
pub artifact_response-IsLatest :
    (value : Json) (run : MonitorRun) (maximum : ℕ) (selection : ArtifactSelection)
    → artifact_response value run maximum ≡ ok selection
    → IsLatest run maximum value selection
unfolding artifact_response
artifact_response-IsLatest value run maximum selection h =
    bind-ok (want (as_count (get "total_count" value)) _) _ h λ total _ h1.
      bind-ok (want (as_array (get "artifacts" value)) _) _ h1 λ artifacts listed h2.
        require-ok (leb (length artifacts) artifact_limit && total == length artifacts) _ _ h2
          λ _ h3. bind-ok (read_candidates run maximum [] [] artifacts) _ h3 λ candidates read h4.
            bind-ok (want (first_of (sort_by code_of candidates)) _) _ h4 λ chosen first h5.
              let success = is_concluded run (codes "success") in
              let last = chosen.attempt == maximum && is_delivered chosen.phase in
              let head = want-some (first_of (sort_by code_of candidates)) _ first in
              let known = read_candidates-Any run maximum [] [] artifacts candidates read in
              let (bound, answered) =
                first_of-All code_of
                  (λ c. (c.attempt ≤ maximum) × Any (λ e. IsArtifactOf e c) artifacts)
                  (sort_by code_of candidates) chosen (sort_by-All code_of _ candidates known)
                  head in
              let up_to =
                All-mono (λ c le. code_of-IsUpTo c chosen le) candidates
                  (sort_by-first_of code_of candidates chosen head) in
              refuse-ok (success && not last) _ _ h5 λ final h6.
                refuse-ok chosen.expired _ _ h6 λ usable h7.
                  require-ok (leb 1 chosen.size_in_bytes && leb chosen.size_in_bytes payload_limit)
                    _ _ h7
                    λ sized h8. ok-Ensures (IsLatest run maximum value) h8 (record {
                      artifacts = artifacts;
                      chosen = chosen;
                      listed = want-some _ _ listed;
                      answered = answered;
                      latest =
                          read_candidates-IsAllowedOnly run maximum (λ c. IsUpTo c chosen) [] []
                            artifacts candidates read up_to;
                      allowed = bound;
                      usable = usable;
                      not_empty = leb→le _ _ (and_left _ sized);
                      not_large = leb→le _ _ (and_right _ sized);
                      final = λ good.
                          let (same, late) =
                            final_of success (chosen.attempt == maximum) (is_delivered chosen.phase)
                              final good in
                          ((==_iff chosen.attempt maximum).0 same, delivered_lem chosen.phase late);
                      selected_id = refl;
                      selected_run = refl;
                      selected_name = refl;
                    })
