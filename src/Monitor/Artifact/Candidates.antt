-- ===== src/Monitor/Artifact/Candidates.antt =====
-- Where the candidates that `artifactResponse` of scripts/monitor-artifact-state.ts sorts come from,
-- and the order that they are sorted in.
use maintainflow.Monitor.Artifact.{
  MonitorRun, Candidate, Phase, resumed, prepared, delivered, phase_rank, Artifact, artifact_prefix,
  generation_named, generation_code, read_artifact, read_candidate, is_in_scope, candidate_list,
  code_of, keep_up_to, read_candidates,
}
use maintainflow.Monitor.Schedule.Evaluate.{contains}
use maintainflow.Prelude.{
  ℕ, ◌+◌, ◌*◌, ◌≤◌, ◌<◌, ◌≡◌, ◌⊎◌, true, false, List, [], ◌∷◌, ◌++◌, map, some, ok, refl, arith,
  Bool-cases, inl, inr, bind-ok, refuse-ok, require-ok, ok-Ensures, want, want-some, leb, leb→le,
  sym,
}
use maintainflow.Prelude.All.{All, All-mono}
use maintainflow.Prelude.Json.{Json, get, as_string, as_bool, as_positive, as_count}
use maintainflow.Prelude.Text.{Str, starts_with}

-- The artifact of an answer that a candidate is made of.
pub record IsArtifactOf (entry : Json) (c : Candidate) : Type 0 where
  pub id : as_positive (get "id" entry) ≡ some c.artifact_id
  pub named : as_string (get "name" entry) ≡ some c.name
  pub expiry : as_bool (get "expired" entry) ≡ some c.expired
  pub size : as_count (get "size_in_bytes" entry) ≡ some c.size_in_bytes
  pub prefixed : starts_with c.name artifact_prefix ≡ true
  pub generation : generation_named c.name ≡ some (c.attempt, c.phase)

-- One of the list has the property.
abbrev pub Any : (Json → Type 0) → List Json → Type 0
Any P [] = ⊥
Any P (x ∷ xs) = P x ⊎ Any P xs

-- An artifact whose name has another prefix is no checkpoint.
abbrev pub IsOther : Json → Type 0
IsOther entry =
    (name : Str) × (as_string (get "name" entry) ≡ some name)
    × (starts_with name artifact_prefix ≡ false)

-- `resumed`, `prepared`, `delivered`.
abbrev pub IsPhaseUpTo : Phase → Phase → Type 0
IsPhaseUpTo resumed q = Unit
IsPhaseUpTo prepared resumed = ⊥
IsPhaseUpTo prepared q = Unit
IsPhaseUpTo delivered delivered = Unit
IsPhaseUpTo delivered q = ⊥

-- Of an earlier attempt, or of the same one and no later phase.
abbrev pub IsUpTo : Candidate → Candidate → Type 0
IsUpTo c d = (c.attempt < d.attempt) ⊎ ((c.attempt ≡ d.attempt) × IsPhaseUpTo c.phase d.phase)

-- The artifact is no checkpoint, or one of an attempt that may not be read, or has the property.
abbrev pub IsAllowedOnly : ℕ → (Candidate → Type 0) → Json → Type 0
IsAllowedOnly maximum P entry =
    IsOther entry ⊎ ((c : Candidate) × IsArtifactOf entry c × ((maximum < c.attempt) ⊎ P c))

rank_lem :
    (a b : ℕ) (p q : Phase)
    → a * 3 + phase_rank p ≤ b * 3 + phase_rank q
    → (a < b) ⊎ ((a ≡ b) × (phase_rank p ≤ phase_rank q))
rank_lem a b resumed resumed h = ground arith
rank_lem a b resumed prepared h = ground arith
rank_lem a b resumed delivered h = ground arith
rank_lem a b prepared resumed h = ground arith
rank_lem a b prepared prepared h = ground arith
rank_lem a b prepared delivered h = ground arith
rank_lem a b delivered resumed h = ground arith
rank_lem a b delivered prepared h = ground arith
rank_lem a b delivered delivered h = ground arith

phase_lem : (p q : Phase) → phase_rank p ≤ phase_rank q → IsPhaseUpTo p q
phase_lem resumed q h = tt
phase_lem prepared resumed h = omega arith
phase_lem prepared prepared h = tt
phase_lem prepared delivered h = tt
phase_lem delivered resumed h = omega arith
phase_lem delivered prepared h = omega arith
phase_lem delivered delivered h = tt

pub code_of-IsUpTo : (c d : Candidate) → code_of c ≤ code_of d → IsUpTo c d
code_of-IsUpTo c d h = elim (rank_lem c.attempt d.attempt c.phase d.phase h) [
  | inl less ↦ inl less
  | inr (same, rank) ↦ inr (same, phase_lem c.phase d.phase rank)
]

abbrev HasFields : Json → Artifact → Type 0
HasFields entry a =
    (as_positive (get "id" entry) ≡ some a.id)
    × (as_string (get "name" entry) ≡ some a.artifact_name)
    × (as_bool (get "expired" entry) ≡ some a.is_expired)
    × (as_count (get "size_in_bytes" entry) ≡ some a.byte_size)

read_artifact-HasFields :
    (entry : Json) (artifact : Artifact)
    → read_artifact entry ≡ ok artifact
    → HasFields entry artifact
unfolding read_artifact
read_artifact-HasFields entry artifact h =
    bind-ok (want (as_positive (get "id" entry)) _) _ h λ id i h1.
      bind-ok (want (as_string (get "name" entry)) _) _ h1 λ name n h2.
        bind-ok (want (as_bool (get "expired" entry)) _) _ h2 λ expired x h3.
          bind-ok (want (as_count (get "size_in_bytes" entry)) _) _ h3 λ size s h4.
            ok-Ensures (HasFields entry) h4
              (want-some _ _ i, want-some _ _ n, want-some _ _ x, want-some _ _ s)

read_candidate-IsArtifactOf :
    (run : MonitorRun) (generations : List ℕ) (entry : Json) (artifact : Artifact) (c : Candidate)
    → HasFields entry artifact
    → starts_with artifact.artifact_name artifact_prefix ≡ true
    → read_candidate run generations entry artifact ≡ ok c
    → IsArtifactOf entry c
unfolding read_candidate
read_candidate-IsArtifactOf run generations entry artifact c known t h =
    bind-ok (want (generation_named artifact.artifact_name) _) _ h λ generation g h1.
      require-ok (leb generation.0 run.attempt_of_run) _ _ h1 λ _ h2.
        require-ok (is_in_scope (get "workflow_run" entry) run) _ _ h2 λ _ h3.
          refuse-ok (contains (generation_code generation) generations) _ _ h3 λ _ h4.
            ok-Ensures (IsArtifactOf entry) h4 (record {
              id = known.0;
              named = known.1;
              expiry = known.2;
              size = known.3;
              prefixed = t;
              generation = want-some _ _ g;
            })

abbrev IsListOf : Json → List Candidate → Type 0
IsListOf entry found =
    (IsOther entry × (found ≡ [])) ⊎ ((c : Candidate) × IsArtifactOf entry c × (found ≡ c ∷ []))

candidate_list-IsListOf :
    (run : MonitorRun) (generations : List ℕ) (entry : Json) (artifact : Artifact)
    (found : List Candidate)
    → HasFields entry artifact
    → candidate_list run generations entry artifact ≡ ok found
    → IsListOf entry found
unfolding candidate_list
candidate_list-IsListOf run generations entry artifact found known h =
    elim (Bool-cases (starts_with artifact.artifact_name artifact_prefix)) [
      | inr t ↦
          ok-Ensures (IsListOf entry) (rw t at h) (inl ((artifact.artifact_name, known.1, t), refl))
      | inl t ↦ bind-ok (read_candidate run generations entry artifact) _ (rw t at h) λ c e h1.
          let made = read_candidate-IsArtifactOf run generations entry artifact c known t e in
          ok-Ensures (IsListOf entry) h1 (inr (c, made, refl))
    ]

All-append :
    (P : Candidate → Type 0) (xs ys : List Candidate) → All P xs → All P ys → All P (xs ++ ys)
All-append P [] ys h k = k
All-append P (x ∷ xs) ys h k = (h.0, All-append P xs ys h.1 k)

above : (a b : ℕ) → leb a b ≡ false → b < a
above a b h = ground arith

-- What is kept of the candidate of an artifact.
kept_lem :
    (maximum : ℕ) (entry : Json) (found : List Candidate)
    → IsListOf entry found
    → All (λ c. (c.attempt ≤ maximum) × IsArtifactOf entry c) (keep_up_to maximum found)
kept_lem maximum entry found (inl (other, none_)) = rw none_ tt
kept_lem maximum entry found (inr (c, made, one)) = elim (Bool-cases (leb c.attempt maximum)) [
  | inl t ↦ rw (one, t) ((leb→le _ _ t, made), tt)
  | inr t ↦ rw (one, t) tt
]

left_lem :
    (maximum : ℕ) (P : Candidate → Type 0) (entry : Json) (found : List Candidate)
    → IsListOf entry found
    → All P (keep_up_to maximum found)
    → IsAllowedOnly maximum P entry
left_lem maximum P entry found (inl (other, none_)) h = inl other
left_lem maximum P entry found (inr (c, made, one)) h = elim (Bool-cases (leb c.attempt maximum)) [
  | inl t ↦ let k = rw (one, t) at h in inr (c, made, inr k.0)
  | inr t ↦ inr (c, made, inl (above c.attempt maximum t))
]

All-left :
    (P : Candidate → Type 0) (xs ys : List Candidate) → All P (xs ++ ys) → All P xs × All P ys
All-left P [] ys h = (tt, h)
All-left P (x ∷ xs) ys h = let (a, b) = All-left P xs ys h.1 in ((h.0, a), b)

-- Each candidate is of an attempt that may be read, and is an artifact of the list.
pub read_candidates-Any :
    (run : MonitorRun) (maximum : ℕ) (ids generations : List ℕ) (entries : List Json)
    (found : List Candidate)
    → read_candidates run maximum ids generations entries ≡ ok found
    → All (λ c. (c.attempt ≤ maximum) × Any (λ e. IsArtifactOf e c) entries) found
unfolding read_candidates
read_candidates-Any run maximum ids generations [] found h =
    ok-Ensures (All (λ c. (c.attempt ≤ maximum) × ⊥)) h tt
read_candidates-Any run maximum ids generations (entry ∷ entries) found h =
    bind-ok (read_artifact entry) _ h λ artifact a h1.
      refuse-ok (contains artifact.id ids) _ _ h1 λ _ h2.
        bind-ok (candidate_list run generations entry artifact) _ h2 λ here e h3.
          let seen = map code_of here ++ generations in
          bind-ok (read_candidates run maximum (artifact.id ∷ ids) seen entries) _ h3 λ others o h4.
            let fields = read_artifact-HasFields entry artifact a in
            let listed = candidate_list-IsListOf run generations entry artifact here fields e in
            let rest = read_candidates-Any run maximum (artifact.id ∷ ids) seen entries others o in
            ok-Ensures
              (All (λ c. (c.attempt ≤ maximum) × Any (λ e. IsArtifactOf e c) (entry ∷ entries))) h4
              (All-append _ (keep_up_to maximum here) others
                (All-mono (λ c k. (k.0, inl k.1)) (keep_up_to maximum here)
                  (kept_lem maximum entry here listed))
                (All-mono (λ c k. (k.0, inr k.1)) others rest))

-- What holds of every candidate holds of every checkpoint of the list that may be read.
pub read_candidates-IsAllowedOnly :
    (run : MonitorRun) (maximum : ℕ) (P : Candidate → Type 0) (ids generations : List ℕ)
    (entries : List Json) (found : List Candidate)
    → read_candidates run maximum ids generations entries ≡ ok found
    → All P found
    → All (IsAllowedOnly maximum P) entries
unfolding read_candidates
read_candidates-IsAllowedOnly run maximum P ids generations [] found h p = tt
read_candidates-IsAllowedOnly run maximum P ids generations (entry ∷ entries) found h p =
    bind-ok (read_artifact entry) _ h λ artifact a h1.
      refuse-ok (contains artifact.id ids) _ _ h1 λ _ h2.
        bind-ok (candidate_list run generations entry artifact) _ h2 λ here e h3.
          let seen = map code_of here ++ generations in
          bind-ok (read_candidates run maximum (artifact.id ∷ ids) seen entries) _ h3 λ others o h4.
            let fields = read_artifact-HasFields entry artifact a in
            let listed = candidate_list-IsListOf run generations entry artifact here fields e in
            let all = ok-Ensures (All P) (sym h4) p in
            let (first, rest) = All-left P (keep_up_to maximum here) others all in
            (
              left_lem maximum P entry here listed first,
              read_candidates-IsAllowedOnly run maximum P (artifact.id ∷ ids) seen entries others o
                  rest,
            )
