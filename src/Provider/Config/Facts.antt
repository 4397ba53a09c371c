-- ===== src/Provider/Config/Facts.antt =====
-- What the tests of a configuration in server/integrations/provider-policy.ts establish, in terms
-- of the texts themselves.
use maintainflow.Prelude.{
  ℕ, ◌==◌, ◌≡◌, ◌≢◌, Bool, true, false, ◌||◌, not, ◌⊎◌, [], ◌∷◌, ◌++◌, Option, some, none, refl,
  arith, inl, inr, Bool-cases, some-Ensures, and_left, and_right, or_false, ==_iff,
}
use maintainflow.Prelude.Text.{Str, codes, starts_with, str_eq, str_eq_iff}
use maintainflow.Provider.Config.{
  Url, non_empty, is_set, is_identifier, are_equal, is_local, is_key, clock_is_allowed, is_true,
  is_production_origin,
}
use maintainflow.Provider.Stripe.{StripeMode, test_mode, live_mode}

pub or_left_false : (a b : Bool) → a ≡ false → (a || b) ≡ true → b ≡ true
or_left_false a b e h = ground arith

-- The text begins with the other.
abbrev pub HasPrefix : Str → Str → Type 0
HasPrefix prefix s = (rest : Str) × (s ≡ prefix ++ rest)

pub starts_with-HasPrefix : (s prefix : Str) → starts_with s prefix ≡ true → HasPrefix prefix s
unfolding starts_with
starts_with-HasPrefix s [] h = (s, refl)
starts_with-HasPrefix [] (b ∷ prefix) h = cc
starts_with-HasPrefix (a ∷ s) (b ∷ prefix) h =
    let same : a ≡ b = (==_iff a b).0 (and_left _ h) in
    let (rest, e) = starts_with-HasPrefix s prefix (and_right (a == b) h) in
    (rest, rw (same, e) refl)

-- A secret key, or a restricted one, of the mode.
abbrev pub IsKeyOf : StripeMode → Str → Type 0
IsKeyOf test_mode key = HasPrefix (codes "sk_test_") key ⊎ HasPrefix (codes "rk_test_") key
IsKeyOf live_mode key = HasPrefix (codes "sk_live_") key ⊎ HasPrefix (codes "rk_live_") key

identifier-HasPrefix :
    (prefix : Str) (with_dash : Bool) (s : Str)
    → is_identifier prefix with_dash s ≡ true
    → HasPrefix prefix s
unfolding is_identifier
identifier-HasPrefix prefix with_dash s h =
    starts_with-HasPrefix s prefix (and_left _ (and_left _ h))

pub is_key-IsKeyOf : (mode : StripeMode) (key : Str) → is_key mode key ≡ true → IsKeyOf mode key
unfolding is_key
is_key-IsKeyOf test_mode key h = elim (Bool-cases (is_identifier (codes "sk_test_") true key)) [
  | inl t ↦ inl (identifier-HasPrefix (codes "sk_test_") true key t)
  | inr t ↦ inr (identifier-HasPrefix (codes "rk_test_") true key (or_left_false _ _ t h))
]
is_key-IsKeyOf live_mode key h = elim (Bool-cases (is_identifier (codes "sk_live_") true key)) [
  | inl t ↦ inl (identifier-HasPrefix (codes "sk_live_") true key t)
  | inr t ↦ inr (identifier-HasPrefix (codes "rk_live_") true key (or_left_false _ _ t h))
]

-- A test clock is for test mode only.
abbrev pub IsClockOf : StripeMode → Option Str → Type 0
IsClockOf test_mode test_clock = Unit
IsClockOf live_mode test_clock = test_clock ≡ none

pub clock_lem :
    (mode : StripeMode) (o : Option Str) → clock_is_allowed o mode ≡ true → IsClockOf mode o
unfolding clock_is_allowed
clock_lem test_mode o h = tt
clock_lem live_mode none h = refl
clock_lem live_mode (some id) h = cc

-- A price that is there is not empty.
abbrev pub IsPresent : Option Str → Type 0
IsPresent o = (c : ℕ) × (s : Str) × (o ≡ some (c ∷ s))

pub is_set-IsPresent : (o : Option Str) → is_set o ≡ true → IsPresent o
is_set-IsPresent none h = cc
is_set-IsPresent (some []) h = cc
is_set-IsPresent (some (c ∷ s)) h = (c, s, refl)

-- Two plans do not have the same price.
abbrev pub ArePricesDistinct : Option Str → Option Str → Type 0
ArePricesDistinct (some (a ∷ s)) (some (b ∷ t)) = ◌≢◌ {A = Str} (a ∷ s) (b ∷ t)
ArePricesDistinct _ _ = Unit

differ_lem : (s t : Str) → not (str_eq s t) ≡ true → s ≢ t
differ_lem s t h = λ e. let same = (str_eq_iff s t).1 e in let k = rw same at h in cc

pub distinct_lem :
    (p q : Option Str) → not (are_equal (non_empty p) (non_empty q)) ≡ true → ArePricesDistinct p q
distinct_lem none q h = tt
distinct_lem (some []) q h = tt
distinct_lem (some (a ∷ s)) none h = tt
distinct_lem (some (a ∷ s)) (some []) h = tt
distinct_lem (some (a ∷ s)) (some (b ∷ t)) h = differ_lem (a ∷ s) (b ∷ t) h

pub any_set : (p q : Option Str) → (is_set p || is_set q) ≡ true → IsPresent p ⊎ IsPresent q
any_set p q h = elim (Bool-cases (is_set p)) [
  | inl t ↦ inl (is_set-IsPresent p t)
  | inr t ↦ inr (is_set-IsPresent q (or_left_false _ _ t h))
]

-- An https origin, without credentials or anything behind its host, which is not this machine.
pub record IsPublicOrigin (url : Url) : Type 0 where
  pub secure : url.protocol ≡ codes "https:"
  pub no_user : url.username ≡ []
  pub no_password : url.password ≡ []
  pub no_path : url.pathname ≡ codes "/"
  pub no_query : url.search ≡ []
  pub no_fragment : url.hash ≡ []
  pub not_localhost : url.hostname ≢ codes "localhost"
  pub not_loopback : url.hostname ≢ codes "127.0.0.1"
  pub not_loopback6 : url.hostname ≢ codes "::1"
  pub not_bracketed : url.hostname ≢ codes "[::1]"

other_host : (host name : Str) → str_eq host name ≡ false → host ≢ name
other_host host name h = λ e. let same = (str_eq_iff host name).1 e in cc

negated_lem : (b : Bool) → not b ≡ true → b ≡ false
negated_lem b h = ground arith

pub is_production_origin-IsPublicOrigin :
    (url : Url) → is_production_origin url ≡ true → IsPublicOrigin url
unfolding is_production_origin
is_production_origin-IsPublicOrigin url h =
    let remote = negated_lem (is_local url.hostname) (and_right _ h) in
    let (three, four) = or_false _ _ remote in
    let (two, third) = or_false _ _ three in
    let (one, second) = or_false _ _ two in
    let h6 = and_left _ h in
    let h5 = and_left _ h6 in
    let h4 = and_left _ h5 in
    let h3 = and_left _ h4 in
    let h2 = and_left _ h3 in
    record {
      secure = (str_eq_iff _ _).0 (and_left _ h2);
      no_user = (str_eq_iff _ _).0 (and_right _ h2);
      no_password = (str_eq_iff _ _).0 (and_right _ h3);
      no_path = (str_eq_iff _ _).0 (and_right _ h4);
      no_query = (str_eq_iff _ _).0 (and_right _ h5);
      no_fragment = (str_eq_iff _ _).0 (and_right _ h6);
      not_localhost = other_host _ _ one;
      not_loopback = other_host _ _ second;
      not_loopback6 = other_host _ _ third;
      not_bracketed = other_host _ _ four;
    }

pub is_true_lem : (o : Option Str) → is_true o ≡ false → o ≢ some (codes "true")
is_true_lem none h = λ e. cc
is_true_lem (some s) h =
    let other = other_host s (codes "true") h in λ e. other (some-Ensures (λ z. s ≡ z) e refl)
