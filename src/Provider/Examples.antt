-- ===== src/Provider/Examples.antt =====
-- Tests of server/integrations/provider-policy.ts, and the theorems at concrete inputs.
use maintainflow.Export.{Cell, number_cell, text_cell}
use maintainflow.Provider.Sheets.{ApprovalPayload, SheetConfig, sheet_column, sheet_ranges}
use maintainflow.Provider.Sheets.Bounds.{IsCapital, column_number, sheet_column-column_number}
use maintainflow.Prelude.Json.{Json, field, no_fields, number, whole}
use maintainflow.Prelude.{
  arith, ℕ, ◌≡◌, ◌⊎◌, refl, true, false, List, [], ◌∷◌, Option, some, none, ok,
}
use maintainflow.Prelude.Text.{Str, codes, str_ltb}
use maintainflow.Provider.Config.{Environment, Url, StripeConfiguration, stripe_configuration}
use maintainflow.Provider.Config.Safe.{IsConfigured, stripe_configuration-IsConfigured}
use maintainflow.Prelude.{length, ◌==◌}
use maintainflow.Prelude.All.{All}
use maintainflow.Provider.Mail.{MailHost, email_address, delivered_recipients}
use maintainflow.Provider.Mail.Signed.{IsDelivered, AreDistinct, delivered_recipients-IsDelivered}
use maintainflow.Provider.Portal.{is_managed_domain}
use maintainflow.Provider.Stripe.{
  PriceMap, live_mode, Subscription, team, has_plan, stripe_plan, select_stripe_subscription,
}
use maintainflow.Provider.Stripe.Select.{
  IsNewestOf, IsNewestPayer, select_stripe_subscription-IsNewestOf,
}

abbrev environment : Environment
environment = record {
  stripe_mode_name = some (codes "live");
  secret_key = some (codes "sk_live_a1");
  test_clock_id = none;
  price_standard = some (codes "price_a");
  price_team = some (codes "price_b");
  webhook_secret = some (codes "whsec_c");
  billing_mock = none;
  preview_mode = none;
  account_id = some (codes "acct_d");
  portal_configuration_id = some (codes "bpc_e");
  app_origin = none;
}

abbrev parse_url : Str → Option Url
parse_url _ = some (record {
  protocol = codes "https:";
  username = [];
  password = [];
  pathname = codes "/";
  search = [];
  hash = [];
  hostname = codes "app.example.com";
})

abbrev prices : PriceMap
prices = record { standard_price = some (codes "price_a"); team_price = some (codes "price_b") }

abbrev configuration : StripeConfiguration
configuration = record {
  mode = live_mode;
  key = codes "sk_live_a1";
  prices = prices;
  account = some (codes "acct_d");
  portal_configuration = some (codes "bpc_e");
  test_clock = none;
  webhook = codes "whsec_c";
}

stripe_configuration-IsConfigured_example :
    IsConfigured parse_url environment (codes "https://app.example.com") configuration
unfolding stripe_configuration
stripe_configuration-IsConfigured_example =
    stripe_configuration-IsConfigured parse_url environment (codes "https://app.example.com")
      configuration refl

-- A subscription to the team plan, and a newer one at another price.
abbrev subscription_of : Str → ℕ → Str → Subscription
subscription_of id created price = record {
  subscription_id = id;
  created = created;
  livemode = true;
  status = codes "active";
  items =
      record {
        quantity = some 1;
        price = record {
          price_id = price;
          price_livemode = true;
          price_active = true;
          currency = codes "eur";
          unit_amount = some 4900;
          recurring =
              some (record { interval = codes "month"; interval_count = 1; usage_type = none });
          billing_scheme = none;
          transform_quantity = false;
        };
      }
      ∷ [];
}

abbrev subscriptions : List Subscription
subscriptions =
    subscription_of (codes "s1") 5 (codes "price_b")
    ∷ subscription_of (codes "s2") 9 (codes "price_x")
    ∷ []

test_stripe_plan :
    stripe_plan (subscription_of (codes "s1") 5 (codes "price_b")) prices live_mode ≡ some team
unfolding stripe_plan
test_stripe_plan = refl

test_select :
    select_stripe_subscription str_ltb subscriptions prices live_mode
    ≡ some (subscription_of (codes "s1") 5 (codes "price_b"))
unfolding select_stripe_subscription
test_select = refl

select_stripe_subscription-IsNewestOf_example :
    ((select_stripe_subscription str_ltb subscriptions prices live_mode ≡ none)
      × (subscriptions ≡ []))
    ⊎ ((s : Subscription) × (select_stripe_subscription str_ltb subscriptions prices live_mode
          ≡ some s)
        × (IsNewestPayer prices live_mode s subscriptions
            ⊎ (All (λ t. has_plan prices live_mode t ≡ false) subscriptions
                × IsNewestOf s subscriptions)))
select_stripe_subscription-IsNewestOf_example =
    select_stripe_subscription-IsNewestOf str_ltb subscriptions prices live_mode

sheet_column-column_number_example :
    (name : Str) × (sheet_column 28 ≡ ok name) × All IsCapital name × (column_number name 0 ≡ 28)
sheet_column-column_number_example = sheet_column-column_number 28 (omega arith) (omega arith)

test_sheet_column : sheet_column 28 ≡ ok (codes "AB")
unfolding sheet_column
test_sheet_column = refl

abbrev stringify : Json → Str
stringify _ = codes "{}"

abbrev payload : ApprovalPayload
payload = record {
  payload_document_id = codes "d1";
  payload_document_name = codes "a.pdf";
  payload_run_id = codes "r1";
  payload_revision = 2;
  payload_values = field (codes "total") (number (whole 7)) no_fields;
}

abbrev sheet_config : SheetConfig
sheet_config = record {
  sheet_name = codes "Bob's";
  sheet_columns =
      record { source = codes "total"; label = codes "Total" }
      ∷ record { source = codes "$filename"; label = codes "File" }
      ∷ [];
  sheet_line_items = none;
}

abbrev sheet : List (List Cell)
sheet = (number_cell (whole 7) ∷ text_cell (codes "a.pdf") ∷ []) ∷ []

test_sheet_ranges :
    sheet_ranges sheet_config 2 3
    ≡ ok (record { header_range = codes "'Bob''s'!A1:B1"; data_range = codes "'Bob''s'!A2:B4" })
unfolding sheet_ranges
test_sheet_ranges = refl

-- Texts that are in lower case already.
abbrev mail_host : MailHost
mail_host = record { lower = λ s. s; is_uuid = λ s. length s == 36; byte_length = λ s. length s }

test_email_address :
    email_address mail_host (codes "\"Ann, B\" <ann@mail.example.io>")
    ≡ some (codes "ann@mail.example.io")
unfolding email_address
test_email_address = refl

test_email_address_second : email_address mail_host (codes "a@b.io <ann@mail.example.io>") ≡ none
unfolding email_address
test_email_address_second = refl

abbrev signed_recipients : List Str
signed_recipients = codes "Ann <ann@mail.io>" ∷ codes "team@mail.io" ∷ []

abbrev received_recipients : List Str
received_recipients = codes "ann@mail.io" ∷ codes "bob@mail.io" ∷ codes " ann@mail.io" ∷ []

test_delivered_recipients :
    delivered_recipients mail_host signed_recipients received_recipients ≡ codes "ann@mail.io" ∷ []
unfolding delivered_recipients
test_delivered_recipients = refl

delivered_recipients-IsDelivered_example :
    All
      (IsDelivered mail_host signed_recipients received_recipients)
      (delivered_recipients mail_host signed_recipients received_recipients)
    × AreDistinct (delivered_recipients mail_host signed_recipients received_recipients)
delivered_recipients-IsDelivered_example =
    delivered_recipients-IsDelivered mail_host signed_recipients received_recipients

test_is_managed_domain : is_managed_domain (codes "folio-1.resend.app") ≡ true
unfolding is_managed_domain
test_is_managed_domain = refl

test_is_managed_domain_hyphen : is_managed_domain (codes "folio-.resend.app") ≡ false
unfolding is_managed_domain
test_is_managed_domain_hyphen = refl
