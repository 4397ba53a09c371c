-- ===== src/Provider/Config/Safe.antt =====
-- What an accepted configuration of server/integrations/provider-policy.ts is known to be.
use maintainflow.Prelude.{
  ℕ, zero, suc, ◌≡◌, ◌≢◌, Bool, true, false, ◌&&◌, ◌||◌, ◌⊎◌, [], ◌∷◌, Option, some, ok, refl, sym,
  ◌∙◌, arith, inl, inr, Bool-cases, bind-ok, require-ok, refuse-ok, ok-Ensures, want, want-some,
  some-Ensures, and_left, and_right, or_false, get_elem?, ==_iff, if◌then◌else◌,
}
use maintainflow.Prelude.Text.{Str, codes, starts_with}
use maintainflow.Provider.Config.{
  Environment, Url, non_empty, is_set, is_identifier, stripe_mode, is_key, key_prefix,
  require_stripe_key, clock_is_allowed, prices_are_good, is_true, is_production_origin,
  is_identifier_of, StripeConfiguration, check_live, stripe_configuration,
}
use maintainflow.Provider.Config.Facts.{
  HasPrefix, IsKeyOf, IsClockOf, IsPresent, ArePricesDistinct, IsPublicOrigin, or_left_false,
  starts_with-HasPrefix, is_key-IsKeyOf, clock_lem, is_set-IsPresent, any_set, distinct_lem,
  is_production_origin-IsPublicOrigin, is_true_lem,
}
use maintainflow.Provider.Stripe.{PriceMap, StripeMode, test_mode, live_mode, is_live}

-- A text has the characters of what it starts with.
starts_with-get_elem? :
    (s t : Str) (i c : ℕ) → starts_with s t ≡ true → get_elem? t i ≡ some c → get_elem? s i ≡ some c
unfolding starts_with
starts_with-get_elem? s [] i c h e = cc
starts_with-get_elem? [] (b ∷ t) i c h e = cc
starts_with-get_elem? (a ∷ s) (b ∷ t) zero c h e =
    let same : a ≡ b = (==_iff a b).0 (and_left _ h) in cc
starts_with-get_elem? (a ∷ s) (b ∷ t) (suc i) c h e =
    starts_with-get_elem? s t i c (and_right _ h) e

-- The fourth character of a key tells its mode.
abbrev mode_mark : StripeMode → ℕ
mode_mark test_mode = b't'
mode_mark live_mode = b'l'

prefix-mark :
    (secret : Bool) (mode : StripeMode)
    → get_elem? (key_prefix secret mode) 3 ≡ some (mode_mark mode)
prefix-mark true test_mode = refl
prefix-mark true live_mode = refl
prefix-mark false test_mode = refl
prefix-mark false live_mode = refl

identifier-mark :
    (secret : Bool) (mode : StripeMode) (key : Str)
    → is_identifier (key_prefix secret mode) true key ≡ true
    → get_elem? key 3 ≡ some (mode_mark mode)
unfolding is_identifier
identifier-mark secret mode key h =
    starts_with-get_elem? key (key_prefix secret mode) 3 (mode_mark mode)
      (and_left _ (and_left _ h)) (prefix-mark secret mode)

is_key-mark :
    (mode : StripeMode) (key : Str)
    → is_key mode key ≡ true
    → get_elem? key 3 ≡ some (mode_mark mode)
unfolding is_key
is_key-mark mode key h = elim (Bool-cases (is_identifier (key_prefix true mode) true key)) [
  | inl t ↦ identifier-mark true mode key t
  | inr t ↦ identifier-mark false mode key (or_left_false _ _ t h)
]

require_stripe_key-is_key :
    (key : Option Str) (mode : StripeMode) (value : Str)
    → require_stripe_key key mode ≡ ok value
    → is_key mode value ≡ true
unfolding require_stripe_key
require_stripe_key-is_key key mode value h =
    bind-ok (want (non_empty key) _) _ h λ v _ h1.
      require-ok (is_key mode v) _ _ h1 λ t h2. ok-Ensures (λ z. is_key mode z ≡ true) h2 t

some_differ : ◌≢◌ {A = Option ℕ} (some b't') (some b'l')
some_differ =
    λ e. let same : ◌≡◌ {A = ℕ} b't' b'l' = some-Ensures (λ (z : ℕ). b't' ≡ z) e refl in omega arith

-- No key is accepted for one mode and equal to a key that is accepted for the other.
pub require_stripe_key-differ :
    (test_key live_key : Option Str) (a b : Str)
    → require_stripe_key test_key test_mode ≡ ok a
    → require_stripe_key live_key live_mode ≡ ok b
    → a ≢ b
require_stripe_key-differ test_key live_key a b h k = λ same.
    let at_test = is_key-mark test_mode a (require_stripe_key-is_key test_key test_mode a h) in
    let at_live = is_key-mark live_mode b (require_stripe_key-is_key live_key live_mode b k) in
    let both = rw same at at_test in some_differ (sym both ∙ at_live)

module _ (parse_url : Str → Option Url) where
  -- Live mode is configured only outside of mocks and previews, at an origin for production, with
  -- the account, the portal and both prices.
  pub record IsLive (environment : Environment) (origin : Str) (prices : PriceMap) : Type 0 where
    pub url : Url
    pub not_mocked : environment.billing_mock ≢ some (codes "true")
    pub not_preview : environment.preview_mode ≢ some (codes "true")
    pub parsed : parse_url origin ≡ some url
    pub production : IsPublicOrigin url
    pub has_standard : IsPresent prices.standard_price
    pub has_team : IsPresent prices.team_price

  check_live-IsLive :
      (environment : Environment) (origin : Str) (prices : PriceMap)
      → check_live parse_url environment origin prices ≡ ok tt
      → IsLive environment origin prices
  unfolding check_live
  check_live-IsLive environment origin prices h =
      refuse-ok (is_true environment.billing_mock || is_true environment.preview_mode) _ _ h
        λ real h1. bind-ok (want (parse_url origin) _) _ h1 λ url parsed h2.
          require-ok (is_production_origin url) _ _ h2 λ production h3.
            require-ok (is_identifier_of environment.account_id (codes "acct_")) _ _ h3 λ _ h4.
              require-ok (is_set prices.standard_price && is_set prices.team_price) _ _ h4 λ set h5.
                record {
                  url = url;
                  not_mocked = is_true_lem _ (or_false _ _ real).0;
                  not_preview = is_true_lem _ (or_false _ _ real).1;
                  parsed = want-some _ _ parsed;
                  production = is_production_origin-IsPublicOrigin url production;
                  has_standard = is_set-IsPresent _ (and_left _ set);
                  has_team = is_set-IsPresent _ (and_right _ set);
                }

  -- In test mode nothing more is asked for.
  abbrev pub IsLiveIn : StripeMode → Environment → Str → PriceMap → Type 0
  IsLiveIn test_mode environment origin prices = Unit
  IsLiveIn live_mode environment origin prices = IsLive environment origin prices

  -- A configuration that is accepted.
  pub record IsConfigured (environment : Environment) (origin : Str) (c : StripeConfiguration)
      : Type 0 where
    pub keyed : IsKeyOf c.mode c.key
    pub clocked : IsClockOf c.mode c.test_clock
    pub priced : IsPresent c.prices.standard_price ⊎ IsPresent c.prices.team_price
    pub distinct : ArePricesDistinct c.prices.standard_price c.prices.team_price
    pub signed : HasPrefix (codes "whsec_") c.webhook
    pub live : IsLiveIn c.mode environment origin c.prices

  check_live-IsLiveIn :
      (environment : Environment) (origin : Str) (prices : PriceMap) (mode : StripeMode)
      → (if is_live mode then check_live parse_url environment origin prices else ok tt) ≡ ok tt
      → IsLiveIn mode environment origin prices
  check_live-IsLiveIn environment origin prices live_mode h =
      check_live-IsLive environment origin prices h
  check_live-IsLiveIn environment origin prices test_mode h = tt

  prices_lem :
      (prices : PriceMap)
      → prices_are_good prices ≡ true
      → (IsPresent prices.standard_price ⊎ IsPresent prices.team_price)
        × ArePricesDistinct prices.standard_price prices.team_price
  unfolding prices_are_good
  prices_lem prices h = (
    any_set _ _ (and_left _ (and_left _ (and_left _ h))),
    distinct_lem prices.standard_price prices.team_price (and_right _ h),
  )

  -- An accepted configuration has a secret or restricted key of its mode, no test clock in live
  -- mode, a price for one plan at least, not the same price for both plans, and a signing secret.
  -- In live mode neither a mock nor a preview is on, the origin is https, without credentials or
  -- anything behind its host and not local, and both plans have a price.
  pub stripe_configuration-IsConfigured :
      (environment : Environment) (origin : Str) (c : StripeConfiguration)
      → stripe_configuration parse_url environment origin ≡ ok c
      → IsConfigured environment origin c
  unfolding stripe_configuration
  stripe_configuration-IsConfigured environment origin c h =
      bind-ok (stripe_mode environment) _ h λ mode _ h1.
        bind-ok (require_stripe_key environment.secret_key mode) _ h1 λ key keyed h2.
          require-ok (clock_is_allowed (non_empty environment.test_clock_id) mode) _ _ h2
            λ clocked h3.
              let prices : PriceMap = record {
                standard_price = environment.price_standard;
                team_price = environment.price_team;
              } in
              require-ok (prices_are_good prices) _ _ h3 λ priced h4.
                bind-ok (want environment.webhook_secret _) _ h4 λ webhook _ h5.
                  require-ok (starts_with webhook (codes "whsec_")) _ _ h5 λ signed h6.
                    let checks =
                      if is_live mode
                      then check_live parse_url environment origin prices
                      else ok tt in
                    bind-ok checks _ h6 λ _ live h7.
                      ok-Ensures (IsConfigured environment origin) h7 (record {
                        keyed =
                            is_key-IsKeyOf mode key
                              (require_stripe_key-is_key environment.secret_key mode key keyed);
                        clocked = clock_lem mode _ clocked;
                        priced = (prices_lem prices priced).0;
                        distinct = (prices_lem prices priced).1;
                        signed = starts_with-HasPrefix webhook (codes "whsec_") signed;
                        live = check_live-IsLiveIn environment origin prices mode live;
                      })
