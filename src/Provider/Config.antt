-- ===== src/Provider/Config.antt =====
-- `stripeMode`, `requireStripeKey`, `assertStripeCustomerTestClock` and `stripeConfiguration` of
-- server/integrations/provider-policy.ts.
pub mod Facts
pub mod Safe
use maintainflow.Provider.Stripe.{
  PriceMap, StripeMode, test_mode, live_mode, is_live, same_bool, is_text,
}
use maintainflow.Prelude.{
  ℕ, Bool, true, false, not, ◌&&◌, ◌||◌, List, [], ◌∷◌, ◌++◌, Option, some, none, Result, ok, err,
  ◌>>=◌, ◌>>◌, refuse, require, want, leb, ltb, ◌==◌, if◌then◌else◌, length, drop,
}
use maintainflow.Prelude.Text.{Str, codes, str_eq, starts_with, is_word}

pub data ConfigFault : Type 0 where
  bad_mode bad_key bad_clock bad_prices bad_webhook : ConfigFault
  live_mock live_origin live_account live_prices live_portal : ConfigFault
  wrong_mode wrong_clock portal_inactive portal_prices : ConfigFault

-- The variables that are read.
pub record Environment : Type 0 where
  pub stripe_mode_name : Option Str
  pub secret_key : Option Str
  pub test_clock_id : Option Str
  pub price_standard : Option Str
  pub price_team : Option Str
  pub webhook_secret : Option Str
  pub billing_mock : Option Str
  pub preview_mode : Option Str
  pub account_id : Option Str
  pub portal_configuration_id : Option Str
  pub app_origin : Option Str

-- Of `new URL`, the parts that are read.
pub record Url : Type 0 where
  pub protocol : Str
  pub username : Str
  pub password : Str
  pub pathname : Str
  pub search : Str
  pub hash : Str
  pub hostname : Str

-- `value || undefined`.
abbrev pub non_empty : Option Str → Option Str
non_empty none = none
non_empty (some []) = none
non_empty (some (c ∷ s)) = some (c ∷ s)

abbrev pub is_set : Option Str → Bool
is_set value = elim (non_empty value) [ none ↦ false | some s ↦ true ]

unfoldable pub all_word : Bool → Str → Bool
unfolding is_word
all_word with_dash [] = true
all_word with_dash (c ∷ s) = is_word c && (with_dash || not (c == b'_')) && all_word with_dash s

-- `/^prefix[A-Za-z0-9_]+$/`, or without the low line.
unfoldable pub is_identifier : Str → Bool → Str → Bool
unfolding starts_with all_word
is_identifier prefix with_dash s =
    starts_with s prefix
    && leb 1 (length (drop (length prefix) s))
    && all_word with_dash (drop (length prefix) s)

unfoldable pub stripe_mode : Environment → Result ConfigFault StripeMode
stripe_mode environment = elim environment.stripe_mode_name [
  | none ↦ ok test_mode
  | some name ↦
      if str_eq name (codes "test")
      then ok test_mode
      else if str_eq name (codes "live")
      then ok live_mode
      else err bad_mode
]

abbrev pub key_prefix : Bool → StripeMode → Str
key_prefix true test_mode = codes "sk_test_"
key_prefix true live_mode = codes "sk_live_"
key_prefix false test_mode = codes "rk_test_"
key_prefix false live_mode = codes "rk_live_"

unfoldable pub is_key : StripeMode → Str → Bool
unfolding is_identifier
is_key mode key =
    is_identifier (key_prefix true mode) true key || is_identifier (key_prefix false mode) true key

unfoldable pub require_stripe_key : Option Str → StripeMode → Result ConfigFault Str
unfolding is_key
require_stripe_key key mode = do
  value ← want (non_empty key) bad_key
  require (is_key mode value) bad_key
  ok value

-- `livemode` may be missing.
abbrev pub is_mode : Option Bool → StripeMode → Bool
is_mode none mode = false
is_mode (some livemode) mode = same_bool livemode (is_live mode)

unfoldable pub assert_stripe_mode : Option Bool → StripeMode → Result ConfigFault (Unit {0})
assert_stripe_mode livemode mode = require (is_mode livemode mode) wrong_mode

-- The clock of a customer is its own id, or that of an object, or none.
unfoldable pub assert_stripe_customer_test_clock :
    Option Str → Option Str → Result ConfigFault (Unit {0})
assert_stripe_customer_test_clock customer_clock test_clock = elim (non_empty test_clock) [
  | none ↦ ok tt
  | some id ↦ require (is_text customer_clock id) wrong_clock
]

abbrev pub clock_is_allowed : Option Str → StripeMode → Bool
unfolding is_identifier
clock_is_allowed none mode = true
clock_is_allowed (some id) mode =
    not (is_live mode) && leb (length id) 200 && is_identifier (codes "clock_") false id

abbrev pub is_price : Option Str → Bool
unfolding is_identifier
is_price value = elim (non_empty value) [
  | none ↦ true
  | some id ↦ is_identifier (codes "price_") true id
]

abbrev pub are_equal : Option Str → Option Str → Bool
are_equal (some a) (some b) = str_eq a b
are_equal _ _ = false

-- At least one price, each well formed, and no two equal.
unfoldable pub prices_are_good : PriceMap → Bool
unfolding is_identifier
prices_are_good prices =
    (is_set prices.standard_price || is_set prices.team_price)
    && is_price prices.standard_price
    && is_price prices.team_price
    && not (are_equal (non_empty prices.standard_price) (non_empty prices.team_price))

abbrev pub is_true : Option Str → Bool
is_true value = is_text value (codes "true")

abbrev pub is_local : Str → Bool
is_local host =
    str_eq host (codes "localhost")
    || str_eq host (codes "127.0.0.1")
    || str_eq host (codes "::1")
    || str_eq host (codes "[::1]")

unfoldable pub is_production_origin : Url → Bool
is_production_origin url =
    str_eq url.protocol (codes "https:")
    && str_eq url.username []
    && str_eq url.password []
    && str_eq url.pathname (codes "/")
    && str_eq url.search []
    && str_eq url.hash []
    && not (is_local url.hostname)

abbrev pub is_identifier_of : Option Str → Str → Bool
unfolding is_identifier
is_identifier_of none prefix = false
is_identifier_of (some s) prefix = is_identifier prefix false s

pub record StripeConfiguration : Type 0 where
  pub mode : StripeMode
  pub key : Str
  pub prices : PriceMap
  pub account : Option Str
  pub portal_configuration : Option Str
  pub test_clock : Option Str
  pub webhook : Str

abbrev pub origin_of : Environment → Str
origin_of environment = elim (non_empty environment.app_origin) [
  | none ↦ codes "http://localhost"
  | some origin ↦ origin
]

module _ (parse_url : Str → Option Url) where
  -- The further conditions of live mode.
  unfoldable pub check_live : Environment → Str → PriceMap → Result ConfigFault (Unit {0})
  unfolding is_production_origin is_identifier
  check_live environment origin prices = do
    refuse (is_true environment.billing_mock || is_true environment.preview_mode) live_mock
    url ← want (parse_url origin) live_origin
    require (is_production_origin url) live_origin
    require (is_identifier_of environment.account_id (codes "acct_")) live_account
    require (is_set prices.standard_price && is_set prices.team_price) live_prices
    require (is_identifier_of environment.portal_configuration_id (codes "bpc_")) live_portal

  unfoldable pub stripe_configuration : Environment → Str → Result ConfigFault StripeConfiguration
  unfolding stripe_mode require_stripe_key prices_are_good check_live starts_with
  stripe_configuration environment origin = do
    mode ← stripe_mode environment
    key ← require_stripe_key environment.secret_key mode
    let test_clock = non_empty environment.test_clock_id
    require (clock_is_allowed test_clock mode) bad_clock
    let prices : PriceMap = record {
      standard_price = environment.price_standard;
      team_price = environment.price_team;
    }
    require (prices_are_good prices) bad_prices
    webhook ← want environment.webhook_secret bad_webhook
    require (starts_with webhook (codes "whsec_")) bad_webhook
    let checked = check_live environment origin prices
    live ← if is_live mode then checked else ok tt
    ok (record {
      mode = mode;
      key = key;
      prices = prices;
      account = environment.account_id;
      portal_configuration = environment.portal_configuration_id;
      test_clock = test_clock;
      webhook = webhook;
    })
