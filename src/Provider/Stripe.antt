-- ===== src/Provider/Stripe.antt =====
-- The payment rules of server/integrations/provider-policy.ts, with the plans of shared/plans.ts.
-- Of a Stripe object only what the rules read is kept. `new URL` and `localeCompare` are
-- parameters.
pub mod Select
use maintainflow.Prelude.{
  ℕ, ◌*◌, Bool, true, false, not, ◌&&◌, ◌||◌, List, [], ◌∷◌, ◌++◌, Option, some, none, Result, ok,
  err, ◌>>=◌, ◌>>◌, refuse, require, want, ltb, leb, ◌==◌, if◌then◌else◌, length, drop,
}
use maintainflow.Prelude.Text.{Str, codes, str_eq, starts_with, is_word}

pub data PaidPlanId : Type 0 where
  standard team : PaidPlanId

pub data StripeMode : Type 0 where
  test_mode live_mode : StripeMode

-- The configured price of each plan.
pub record PriceMap : Type 0 where
  pub standard_price : Option Str
  pub team_price : Option Str

-- `prices[planId]`.
abbrev pub price_of : PriceMap → PaidPlanId → Option Str
price_of prices standard = prices.standard_price
price_of prices team = prices.team_price

abbrev pub is_text : Option Str → Str → Bool
is_text none s = false
is_text (some t) s = str_eq t s

-- `plan.monthlyPrice`.
abbrev pub monthly_price : PaidPlanId → ℕ
monthly_price standard = 19
monthly_price team = 49

abbrev pub is_live : StripeMode → Bool
is_live test_mode = false
is_live live_mode = true

abbrev pub same_bool : Bool → Bool → Bool
same_bool true b = b
same_bool false b = not b

pub record Recurring : Type 0 where
  pub interval : Str
  pub interval_count : ℕ
  pub usage_type : Option Str

pub record Price : Type 0 where
  pub price_id : Str
  pub price_livemode : Bool
  pub price_active : Bool
  pub currency : Str
  pub unit_amount : Option ℕ
  pub recurring : Option Recurring
  pub billing_scheme : Option Str
  pub transform_quantity : Bool

-- `!value || value === literal`.
abbrev pub is_absent_or : Option Str → Str → Bool
is_absent_or none s = true
is_absent_or (some []) s = true
is_absent_or (some (c ∷ t)) s = str_eq (c ∷ t) s

abbrev pub is_amount : Option ℕ → ℕ → Bool
is_amount none n = false
is_amount (some m) n = m == n

abbrev pub is_monthly : Option Recurring → Bool
is_monthly none = false
is_monthly (some r) =
    str_eq r.interval (codes "month")
    && r.interval_count == 1
    && is_absent_or r.usage_type (codes "licensed")

unfoldable pub stripe_price_matches : Price → PaidPlanId → PriceMap → StripeMode → Bool → Bool
stripe_price_matches price plan prices mode require_active =
    is_text (price_of prices plan) price.price_id
    && same_bool price.price_livemode (is_live mode)
    && (not require_active || price.price_active)
    && str_eq price.currency (codes "eur")
    && is_amount price.unit_amount (monthly_price plan * 100)
    && is_monthly price.recurring
    && is_absent_or price.billing_scheme (codes "per_unit")
    && not price.transform_quantity

pub record SubscriptionItem : Type 0 where
  pub quantity : Option ℕ
  pub price : Price

pub record Subscription : Type 0 where
  pub subscription_id : Str
  pub created : ℕ
  pub livemode : Bool
  pub status : Str
  pub items : List SubscriptionItem

-- `PLANS.find(p => p.id !== 'explore' && prices[p.id] === item.price.id)`.
unfoldable pub plan_of_price : PriceMap → Str → Option PaidPlanId
plan_of_price prices id =
    if is_text (price_of prices standard) id
    then some standard
    else if is_text (price_of prices team) id
    then some team
    else none

unfoldable pub plan_of_item : SubscriptionItem → PriceMap → StripeMode → Option PaidPlanId
unfolding plan_of_price stripe_price_matches
plan_of_item item prices mode = elim (plan_of_price prices item.price.price_id) [
  | none ↦ none
  | some plan ↦
      if is_amount item.quantity 1 && stripe_price_matches item.price plan prices mode false
      then some plan
      else none
]

-- The plan that a subscription pays for.
unfoldable pub stripe_plan : Subscription → PriceMap → StripeMode → Option PaidPlanId
unfolding plan_of_item
stripe_plan subscription prices mode = elim subscription.items [
  | [] ↦ none
  | item ∷ [] ↦
      if same_bool subscription.livemode (is_live mode)
        && (str_eq subscription.status (codes "active")
            || str_eq subscription.status (codes "trialing"))
      then plan_of_item item prices mode
      else none
  | _ ∷ _ ∷ _ ↦ none
]

abbrev pub has_plan : PriceMap → StripeMode → Subscription → Bool
unfolding stripe_plan
has_plan prices mode s = elim (stripe_plan s prices mode) [ none ↦ false | some plan ↦ true ]

unfoldable pub keep_paid : PriceMap → StripeMode → List Subscription → List Subscription
unfolding stripe_plan
keep_paid prices mode [] = []
keep_paid prices mode (s ∷ ss) =
    let rest = keep_paid prices mode ss in if has_plan prices mode s then s ∷ rest else rest

abbrev pub head_of : List Subscription → Option Subscription
head_of [] = none
head_of (s ∷ ss) = some s

-- `before a b` is `a.localeCompare(b) < 0`.
module _ (before : Str → Str → Bool) where
  -- `b.created - a.created || a.id.localeCompare(b.id)` sorts `b` in front of `a`.
  abbrev pub is_behind : Subscription → Subscription → Bool
  is_behind a b =
      ltb a.created b.created
      || (a.created == b.created && before b.subscription_id a.subscription_id)

  unfoldable pub insert_subscription : Subscription → List Subscription → List Subscription
  insert_subscription a [] = a ∷ []
  insert_subscription a (b ∷ rest) =
      let later = insert_subscription a rest in if is_behind a b then b ∷ later else a ∷ b ∷ rest

  unfoldable pub sort_subscriptions : List Subscription → List Subscription
  unfolding insert_subscription
  sort_subscriptions [] = []
  sort_subscriptions (s ∷ ss) = insert_subscription s (sort_subscriptions ss)

  -- The newest subscription that pays for a plan, or else the newest one.
  unfoldable pub select_stripe_subscription :
      List Subscription → PriceMap → StripeMode → Option Subscription
  unfolding sort_subscriptions keep_paid
  select_stripe_subscription subscriptions prices mode =
      elim (head_of (sort_subscriptions (keep_paid prices mode subscriptions))) [
        | some s ↦ some s
        | none ↦ head_of (sort_subscriptions subscriptions)
      ]
