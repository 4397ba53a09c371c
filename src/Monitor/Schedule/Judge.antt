-- ===== src/Monitor/Schedule/Judge.antt =====
-- The judgement of the runs by `evaluateSchedule` of scripts/stale-monitor.ts.
use maintainflow.Monitor.Schedule.{ReportStatus, healthy, unhealthy, Reason, Run}
use maintainflow.Monitor.Schedule.Evaluate.{
  is_completed, has_succeeded, is_successful, is_gate_disabled, is_failed, is_stale, evidence_at,
  judge,
}
use maintainflow.Monitor.Schedule.Runs.{IsEvidence, IsSorted, AreRuns}
use maintainflow.Prelude.{
  not_ltb, or_false, ℕ, ◌+◌, ◌*◌, ◌≤◌, ◌≡◌, Bool, true, false, not, ◌&&◌, ◌||◌, List, [], ◌∷◌,
  Option, some, none, refl, sym, ◌∙◌, arith, inl, inr, Bool-cases, Option-cases, some-Ensures,
  and_left, and_right, if◌then◌else◌,
}
use maintainflow.Prelude.All.{All, All-mono, find, find-All, find-none}
use maintainflow.Prelude.Text.{codes, str_eq}

-- A run that is behind the latest completed one and is completed has a lower number.
abbrev pub IsNewest : Run → List Run → Type 0
IsNewest run runs = All (λ r. is_completed r ≡ true → r.run_number ≤ run.run_number) runs

find-IsNewest :
    (runs : List Run) (run : Run)
    → IsSorted runs
    → find is_completed runs ≡ some run
    → IsNewest run runs
unfolding find
find-IsNewest [] run h e = cc
find-IsNewest (first ∷ rest) run h e = elim (Bool-cases (is_completed first)) [
  | inl t ↦
      some-Ensures (λ r. IsNewest r (first ∷ rest)) (rw t at e)
        ((λ _. omega arith), All-mono (λ r le _. le) rest h.0)
  | inr t ↦ ((λ c. cc), find-IsNewest rest run h.1 (rw t at e))
]

-- The first that passes a weaker test, where it passes the stronger one.
find-stronger :
    (weak strong : Run → Bool)
    → ((run : Run) → strong run ≡ true → weak run ≡ true)
    → (runs : List Run) (run : Run) → find weak runs ≡ some run
    → strong run ≡ true
    → find strong runs ≡ some run
unfolding find
find-stronger weak strong implied [] run e s = cc
find-stronger weak strong implied (first ∷ rest) run e s = elim (Bool-cases (weak first)) [
  | inl t ↦
      let same = rw t at e in
      let first_strong = some-Ensures (λ r. strong r ≡ true) (sym same) s in rw first_strong same
  | inr t ↦ elim (Bool-cases (strong first)) [
    | inl t1 ↦ let t2 = implied first t1 in cc
    | inr t1 ↦ rw t1 (find-stronger weak strong implied rest run (rw t at e) s)
  ]
]

is_successful-is_completed :
    (external : Bool) (run : Run) → is_successful external run ≡ true → is_completed run ≡ true
is_successful-is_completed external run h = and_right _ (and_left _ h)

abbrev verdict :
    Bool
    → Bool
    → Option Run
    → (Run → Bool)
    → Reason
    → Reason
    → Reason
    → Reason
    → Reason
    → ReportStatus × Reason
verdict gate failed successful stale r1 r2 r3 r4 r5 =
    if gate then (unhealthy, r1) else if failed then (unhealthy, r2) else elim successful [
      | none ↦ (unhealthy, r3)
      | some run ↦ if stale run then (unhealthy, r4) else (healthy, r5)
    ]

-- What the four tests gave where the verdict is good.
verdict-healthy :
    {P : Type 0} (gate failed : Bool) (successful : Option Run) (stale : Run → Bool)
    (r1 r2 r3 r4 r5 : Reason)
    → (verdict gate failed successful stale r1 r2 r3 r4 r5).0 ≡ healthy
    → ((run : Run) → gate ≡ false → failed ≡ false → successful ≡ some run → stale run ≡ false → P)
    → P
verdict-healthy true failed successful stale r1 r2 r3 r4 r5 h k = cc
verdict-healthy false true successful stale r1 r2 r3 r4 r5 h k = cc
verdict-healthy false false none stale r1 r2 r3 r4 r5 h k = cc
verdict-healthy false false (some run) stale r1 r2 r3 r4 r5 h k = elim (Bool-cases (stale run)) [
  | inl t ↦ let h1 = rw t at h in cc
  | inr t ↦ k run refl refl refl t
]

-- The last run that completed succeeded, and its evidence is fresh.
pub record IsAlive (external : Bool) (now max_age : ℕ) (runs : List Run) (run : Run) : Type 0 where
  pub listed : find is_completed runs ≡ some run
  pub newest : IsNewest run runs
  pub success : is_successful external run ≡ true
  pub reported : find (is_successful external) runs ≡ some run
  pub seen : evidence_at external run ≤ now
  pub fresh : now ≤ evidence_at external run + max_age * 60000

-- A completed run with a good title that is neither failed nor of a closed gate has succeeded.
succeeded :
    (external is_run is_disabled completed success : Bool)
    → (external || (is_run || (is_disabled || false))) ≡ true
    → is_disabled ≡ false
    → completed ≡ true
    → not success ≡ false
    → ((external || is_run) && completed && success) ≡ true
succeeded external is_run is_disabled completed success h1 h2 h3 h4 = ground arith

completed-IsAlive :
    (external : Bool) (now max_age : ℕ) (runs : List Run) (run found : Run)
    → AreRuns external now runs
    → find is_completed runs ≡ some run
    → is_gate_disabled (some run) ≡ false
    → is_failed (some run) ≡ false
    → find (is_successful external) runs ≡ some found
    → is_stale external now max_age found ≡ false
    → IsAlive external now max_age runs run
completed-IsAlive external now max_age runs run found known e gate failed successful stale =
    let (evidence, completed) =
      find-All (IsEvidence external now) is_completed runs run known.evidence e in
    let success =
      succeeded external (str_eq run.display_title (codes "Folio monitor: run"))
        (str_eq run.display_title (codes "Folio monitor: disabled")) (is_completed run)
        (has_succeeded run) evidence.titled gate completed failed in
    let same =
      find-stronger is_completed (is_successful external) (is_successful-is_completed external) runs
        run e success in
    let fresh =
      some-Ensures (λ r. is_stale external now max_age r ≡ false) (sym successful ∙ same) stale in
    record {
      listed = e;
      newest = find-IsNewest runs run known.sorted e;
      success = success;
      reported = same;
      seen = evidence.seen;
      fresh = not_ltb _ _ fresh;
    }

pub judge-IsAlive :
    (external : Bool) (now max_age : ℕ) (is_partial : Bool) (runs : List Run)
    → AreRuns external now runs
    → (judge external now max_age is_partial runs).0 ≡ healthy
    → (run : Run) × IsAlive external now max_age runs run
unfolding judge
judge-IsAlive external now max_age is_partial runs known h =
    verdict-healthy
      (is_gate_disabled (find (λ run. true) runs) || is_gate_disabled (find is_completed runs))
      (is_failed (find is_completed runs)) (find (is_successful external) runs)
      (is_stale external now max_age) _ _ _ _ _ h
      λ run gate failed successful stale. elim (Option-cases (find is_completed runs)) [
        | inl e ↦
            let found =
              find-All (λ r. is_completed r ≡ false) (is_successful external) runs run
                (find-none is_completed runs e) successful in
            let completed = is_successful-is_completed external run found.1 in cc
        | inr (completed, e) ↦
            let gate_open = or_false (is_gate_disabled (find (λ r. true) runs)) _ gate in
            (
              completed,
              completed-IsAlive external now max_age runs completed run known e
                  (rw e at (gate_open.1)) (rw e at failed) successful stale,
            )
      ]
