-- ===== src/Monitor/Tick.antt =====
-- scripts/monitor-trigger-contract.ts: the tick of an external timer, and the id of the actor that
-- may send one.
use maintainflow.Monitor.Instant.{fits, date_parse, to_iso_string}
use maintainflow.Prelude.{
  ℕ, ◌+◌, ◌/◌, ◌%◌, ◌≤◌, ◌≡◌, true, ◌&&◌, [], ◌∷◌, Option, some, none, leb, ◌==◌, if◌then◌else◌,
  length, drop, Bool-cases, Option-cases, inl, inr, some-Ensures, arith,
}
use maintainflow.Prelude.Json.{max_safe_integer}
use maintainflow.Prelude.Text.{Str, codes, str_eq, starts_with, only_digits, digits_value}

abbrev pub external_title_prefix : Str
external_title_prefix = codes "Folio monitor: external-run "

-- A whole minute, and one of every five, from the second on.
unfoldable pub parse_external_tick : Str → Option ℕ
unfolding fits date_parse to_iso_string
parse_external_tick value = elim (date_parse value) [
  | none ↦ none
  | some at ↦
      if fits (codes "####-##-##T##:##:00.000Z") value
        && str_eq (to_iso_string at) value
        && at / 60000 % 60 % 5 == 2
      then some at
      else none
]

-- `/^[1-9][0-9]{0,15}$/` and a safe integer.
unfoldable pub actor_id : Option Str → Option ℕ
unfolding only_digits digits_value
actor_id none = none
actor_id (some []) = none
actor_id (some (c ∷ s)) =
    if leb b'1' c
      && leb c b'9'
      && only_digits s
      && leb (length s) 15
      && leb (digits_value (c ∷ s) 0) max_safe_integer
    then some (digits_value (c ∷ s) 0)
    else none

unfoldable pub fresh_external_tick : Str → ℕ → ℕ → ℕ → Option ℕ
unfolding starts_with parse_external_tick
fresh_external_tick title created now maximum_age =
    if starts_with title external_title_prefix
    then elim (parse_external_tick (drop (length external_title_prefix) title)) [
      | none ↦ none
      | some tick ↦
          if leb tick created
            && leb created (tick + 120000)
            && leb created now
            && leb now (tick + maximum_age)
          then some tick
          else none
    ]
    else none

-- A run that was created at most two minutes after the tick that its title names, which is not
-- older than the limit.
pub record IsFreshTick (title : Str) (created now maximum_age tick : ℕ) : Type 0 where
  pub titled : starts_with title external_title_prefix ≡ true
  pub named : parse_external_tick (drop (length external_title_prefix) title) ≡ some tick
  pub before : tick ≤ created
  pub soon : created ≤ tick + 120000
  pub past : created ≤ now
  pub fresh : now ≤ tick + maximum_age

in_window :
    (tick created now maximum_age : ℕ)
    → (leb tick created
        && leb created (tick + 120000)
        && leb created now
        && leb now (tick + maximum_age))
      ≡ true
    → (tick ≤ created) × (created ≤ tick + 120000) × (created ≤ now) × (now ≤ tick + maximum_age)
in_window tick created now maximum_age h = ground arith

pub fresh_external_tick-IsFreshTick :
    (title : Str) (created now maximum_age tick : ℕ)
    → fresh_external_tick title created now maximum_age ≡ some tick
    → IsFreshTick title created now maximum_age tick
unfolding fresh_external_tick
fresh_external_tick-IsFreshTick title created now maximum_age tick h =
    elim (Bool-cases (starts_with title external_title_prefix)) [
      | inr t ↦ let h1 = rw t at h in cc
      | inl t ↦
          elim (Option-cases (parse_external_tick (drop (length external_title_prefix) title))) [
            | inl e ↦ let h1 = rw (t, e) at h in cc
            | inr (at, e) ↦
                let h1 = rw (t, e) at h in
                elim (Bool-cases (
                  leb at created
                  && leb created (at + 120000)
                  && leb created now
                  && leb now (at + maximum_age))) [
                    | inr t1 ↦ let h2 = rw t1 at h1 in cc
                    | inl t1 ↦
                        let (before, soon, past, fresh) = in_window at created now maximum_age t1 in
                        some-Ensures (IsFreshTick title created now maximum_age) (rw t1 at h1)
                          (record {
                            titled = t;
                            named = e;
                            before = before;
                            soon = soon;
                            past = past;
                            fresh = fresh;
                          })
                  ]
          ]
    ]
