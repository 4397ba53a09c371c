-- ===== src/Monitor/Artifact/Select/Initial.antt =====
-- What `selectMonitorArtifact` of scripts/monitor-artifact-state.ts returns, over all pages of the
-- history.
use maintainflow.Monitor.Artifact.{
  ArtifactError, MonitorRun, ArtifactSelection, artifact_current_run_invalid,
  artifact_attempt_invalid, runs_response, is_stateful,
}
use maintainflow.Monitor.Artifact.Jobs.{artifact_faults}
use maintainflow.Monitor.Artifact.Source.{SourceHost, page_address, read_attempt}
use maintainflow.Monitor.Schedule.{run_limit}
use maintainflow.Monitor.Transport.{read_json}
use maintainflow.Prelude.{
  ℕ, zero, suc, ◌+◌, ◌-◌, ◌≡◌, ◌==◌, min, Bool, true, false, ◌&&◌, List, [], Option, some, none,
  Result, ok, want, ltb, leb, length, refl, sym, ◌≤◌, ◌∙◌, not_ltb, want-some, bind-ok, require-ok,
  require-true, refuse-ok, ok-Ensures, err-ok, Bool-cases, inl, inr,
}
use mathlib.Core.Path.{subst}
use maintainflow.Prelude.All.{All, find}
use maintainflow.Prelude.Json.{Json, safe_positive}
use maintainflow.Prelude.Sort.{sort_by}
use maintainflow.Prelude.Text.{Str}
use maintainflow.Monitor.Artifact.Select.{
  SelectionOptions, Step, selects, goes_on, scan_candidates, Seen, see, read_next_page,
  initialize_history, after_page, select_pages, has_newer, older_than, require_stateful,
  previous_attempt, first_candidates, select_monitor_artifact,
}
use maintainflow.Monitor.Artifact.Select.Skips.{
  IsPassed, IsChoice, IsStateless, StepsOf, scan_candidates-StepsOf,
}

-- The selection is found on a page, behind pages whose runs are all passed over.
pub data IsFound (host : SourceHost) (current_id maximum : ℕ)
    : List MonitorRun → ArtifactSelection → Type 0 where
  on_page :
      (runs : List MonitorRun) (s : ArtifactSelection)
      → IsChoice host current_id maximum runs s
      → IsFound host current_id maximum runs s
  on_later_page :
      (runs next : List MonitorRun) (s : ArtifactSelection) (total page : ℕ) (seen : Seen)
      → All (IsPassed host current_id) runs
      → read_next_page host total page seen ≡ ok next
      → IsFound host current_id maximum (sort_by (λ run. run.number) next) s
      → IsFound host current_id maximum runs s

initialize-none :
    (initialize saw : Bool) {o : Option ArtifactSelection}
    → initialize_history initialize saw ≡ ok o
    → (o ≡ none) × (initialize ≡ true) × (saw ≡ false)
initialize-none initialize saw h = refuse-ok saw _ _ h λ unseen h1.
    require-ok initialize _ _ h1 λ granted h2. (ok-Ensures (λ o. o ≡ none) h2 refl, granted, unseen)

module _ (host : SourceHost) (initialize : Bool) (current_id maximum total : ℕ) where
  -- What an answer says, by the runs that were still to be looked at.
  abbrev Answers : Bool → List MonitorRun → Option ArtifactSelection → Type 0
  Answers saw runs (some s) = IsFound host current_id maximum runs s
  Answers saw runs none = (initialize ≡ true) × All IsStateless runs × (saw ≡ false)

  after_page-Answers :
      (complete saw : Bool) (runs : List MonitorRun)
      → (next : Bool → List (Str × Bool) → Result ArtifactError (Option ArtifactSelection))
      → (step : Step) (o : Option ArtifactSelection) → StepsOf host current_id maximum saw runs step
      → ((s : Bool) (v : List (Str × Bool)) (s_found : ArtifactSelection)
          → All (IsPassed host current_id) runs
          → next s v ≡ ok (some s_found)
          → IsFound host current_id maximum runs s_found)
      → ((s : Bool) (v : List (Str × Bool))
          → next s v ≡ ok none
          → (initialize ≡ true) × (s ≡ false))
      → after_page initialize complete next step ≡ ok o
      → Answers saw runs o
  after_page-Answers complete saw runs next (selects s) o facts found empty h =
      ok-Ensures (Answers saw runs) h (on_page runs s facts)
  after_page-Answers true saw runs next (goes_on now v) o facts found empty h =
      let (none_, granted, unseen) = initialize-none initialize now h in
      let (stateless, before) = facts.1 unseen in
      subst (Answers saw runs) (sym none_) (granted, stateless, before)
  after_page-Answers false saw runs next (goes_on now v) (some s) facts found empty h =
      found now v s facts.0 h
  after_page-Answers false saw runs next (goes_on now v) none facts found empty h =
      let (granted, unseen) = empty now v h in
      let (stateless, before) = facts.1 unseen in (granted, stateless, before)

  select_pages-Answers :
      (left page : ℕ) (seen : Seen) (runs : List MonitorRun) (saw : Bool)
      → (verified : List (Str × Bool)) (o : Option ArtifactSelection)
      → select_pages host initialize current_id maximum total left page seen runs saw verified
        ≡ ok o
      → Answers saw runs o
  unfolding select_pages
  select_pages-Answers zero page seen runs saw verified o h =
      bind-ok (scan_candidates host current_id maximum runs saw verified) _ h λ step e h1.
        after_page-Answers (length seen.ids == total) saw runs _ step o
          (scan_candidates-StepsOf host current_id maximum runs saw verified step e)
          (λ s v s_found passed wrong. err-ok wrong) (λ s v wrong. err-ok wrong) h1
  select_pages-Answers (suc left) page seen runs saw verified o h =
      let later = select_pages-Answers left (page + 1) in
      bind-ok (scan_candidates host current_id maximum runs saw verified) _ h λ step e h1.
        after_page-Answers (length seen.ids == total) saw runs _ step o
          (scan_candidates-StepsOf host current_id maximum runs saw verified step e)
          (λ s v s_found passed h2.
            bind-ok (read_next_page host total page seen) _ h2 λ next read h3.
              on_later_page runs next s_found total page seen passed read
                (later (see seen next) (sort_by (λ run. run.number) next) s v (some s_found) h3))
          (λ s v h2. bind-ok (read_next_page host total page seen) _ h2 λ next read h3.
            let (granted, stateless, unseen) =
              later (see seen next) (sort_by (λ run. run.number) next) s v none h3 in
            (granted, unseen))
          h1

-- What is known of the current run and of the candidates, and what the answer says of them.
pub record IsSearch (host : SourceHost) (options : SelectionOptions) (o : Option ArtifactSelection)
    : Type 0 where
  pub id : ℕ
  pub attempt : ℕ
  pub number : ℕ
  pub value : Json
  pub listed : List MonitorRun × ℕ
  pub current : MonitorRun
  pub runs : List MonitorRun
  pub of_attempt : safe_positive options.current_attempt ≡ some attempt
  pub page_read : read_json artifact_faults host.http (page_address 1) ≡ ok value
  pub page_runs : runs_response value ≡ ok listed
  pub is_listed : find (λ run. run.run_id == id) listed.0 ≡ some current
  pub not_superseded : has_newer number listed.0 ≡ ok false
  pub candidates : first_candidates host current number attempt listed.0 ≡ ok runs
  pub answer : Answers host options.initialize id (attempt - 1) listed.1 false runs o

select_monitor_artifact-IsSearch :
    (host : SourceHost) (options : SelectionOptions) (o : Option ArtifactSelection)
    → select_monitor_artifact host options ≡ ok o
    → IsSearch host options o
unfolding select_monitor_artifact
select_monitor_artifact-IsSearch host options o h =
    require-ok (leb 16 (length options.token)) _ _ h λ _ h1.
      bind-ok (want (safe_positive options.current_id) _) _ h1 λ id _ h2.
        bind-ok (want (safe_positive options.current_attempt) _) _ h2 λ attempt of_attempt h3.
          bind-ok (want (safe_positive options.current_number) _) _ h3 λ number _ h4.
            bind-ok (want (safe_positive options.timeout_ms) _) _ h4 λ timeout _ h5.
              require-ok (leb timeout 30000) _ _ h5 λ _ h6.
                bind-ok (read_json artifact_faults host.http (page_address 1)) _ h6 λ value read h7.
                  bind-ok (runs_response value) _ h7 λ listed runs_read h8.
                    require-ok (length listed.0 == min run_limit listed.1) _ _ h8 λ _ h9.
                      bind-ok (want (find (λ run. run.run_id == id) listed.0) _) _ h9
                        λ current found h10.
                          require-ok (current.number == number && current.attempt_of_run == attempt)
                            _ _ h10
                            λ _ h11.
                              bind-ok (require_stateful current artifact_current_run_invalid) _ h11
                                λ _ _ h12. bind-ok (has_newer number listed.0) _ h12 λ newer n h13.
                                  refuse-ok newer _ _ h13 λ latest h14.
                                    bind-ok (first_candidates host current number attempt listed.0)
                                      _ h14
                                      λ runs c h15. record {
                                        id = id;
                                        attempt = attempt;
                                        number = number;
                                        value = value;
                                        listed = listed;
                                        current = current;
                                        runs = runs;
                                        of_attempt = want-some _ _ of_attempt;
                                        page_read = read;
                                        page_runs = runs_read;
                                        is_listed = want-some _ _ found;
                                        not_superseded = rw latest at n;
                                        candidates = c;
                                        answer =
                                            select_pages-Answers host options.initialize id
                                              (attempt - 1) listed.1 9 1 _ runs false [] o h15;
                                      }

-- The candidates of a first attempt, where none is stateful.
stateless_lem :
    (host : SourceHost) (current : MonitorRun) (number attempt : ℕ) (listed runs : List MonitorRun)
    → first_candidates host current number attempt listed ≡ ok runs
    → All IsStateless runs
    → (attempt ≤ 1) × (runs ≡ sort_by (λ run. run.number) (older_than number listed))
unfolding first_candidates previous_attempt
stateless_lem host current number attempt listed runs h stateless =
    elim (Bool-cases (ltb 1 attempt)) [
      | inr t ↦
          let e = rw t at h in
          (
            not_ltb 1 attempt t,
            ok-Ensures (λ l. l ≡ sort_by (λ run. run.number) (older_than number listed)) e refl,
          )
      | inl t ↦
          let h1 = rw t at h in
          bind-ok (read_attempt host.http current (attempt - 1)) _ h1 λ run _ h2.
            require-ok
              (run.run_id == current.run_id
                && run.number == current.number
                && run.attempt_of_run == attempt - 1)
              _ _ h2
              λ _ h3. bind-ok (require_stateful run artifact_attempt_invalid) _ h3 λ _ e h4.
                bind-ok (is_stateful run) _ e λ stateful s h5.
                  let good = require-true stateful _ h5 in
                  let none_ = ok-Ensures (All IsStateless) (sym h4) stateless in
                  let both = sym s ∙ none_.0 in
                  let wrong = ok-Ensures (λ b. b ≡ stateful) both refl in (cc)
    ]

-- No checkpoint is selected only where that was asked for, in a first attempt, and no older run of
-- the first page is stateful.
pub select_monitor_artifact-none :
    (host : SourceHost) (options : SelectionOptions)
    → select_monitor_artifact host options ≡ ok none
    → (options.initialize ≡ true)
      × ((search : IsSearch host options none) × (search.attempt ≤ 1)
          × All IsStateless
              (sort_by (λ run. run.number) (older_than search.number search.listed.0)))
select_monitor_artifact-none host options h =
    let search = select_monitor_artifact-IsSearch host options none h in
    let (granted, stateless, unseen) = search.answer in
    let (first, older) =
      stateless_lem host search.current search.number search.attempt search.listed.0 search.runs
        search.candidates stateless in
    (granted, (search, first, subst (All IsStateless) older stateless))
