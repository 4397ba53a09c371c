-- ===== src/Provider/Portal.antt =====
-- `stripeCustomerPointer`, `assertStripePortalConfiguration`, `publicProviderError` and the managed
-- probe of server/integrations/provider-policy.ts. Of an event, a configuration and an error only
-- what the code reads is kept.
use maintainflow.Monitor.Schedule.{is_one_of}
use maintainflow.Prelude.{
  ℕ, ◌-◌, Bool, true, false, not, ◌&&◌, ◌||◌, List, [], ◌∷◌, ◌++◌, Option, some, none, Result, ◌>>◌,
  require, leb, ◌==◌, if◌then◌else◌, length, take, drop,
}
use maintainflow.Prelude.Json.{Json, get, as_string, as_array, equals_string}
use maintainflow.Prelude.Text.{all_hex, Str, codes, str_eq, starts_with, split, trim, is_digit}
use maintainflow.Provider.Config.{ConfigFault, assert_stripe_mode, portal_inactive, portal_prices}
use maintainflow.Provider.Mail.{MailHost}
use maintainflow.Provider.Stripe.{PriceMap, StripeMode, test_mode, live_mode}

pub record StripeEvent : Type 0 where
  pub event_id : Str
  pub event_type : Str
  pub event_created : ℕ
  pub event_livemode : Bool
  pub event_customer : Option Str

pub record StripeCustomerPointer : Type 0 where
  pub pointer_id : Str
  pub pointer_type : Str
  pub pointer_created : ℕ
  pub customer_id : Str
  pub pointer_mode : StripeMode

abbrev pointed_types : List Str
pointed_types =
    codes "customer.subscription.created"
    ∷ codes "customer.subscription.updated"
    ∷ codes "customer.subscription.deleted"
    ∷ codes "customer.subscription.paused"
    ∷ codes "customer.subscription.resumed"
    ∷ codes "checkout.session.completed"
    ∷ codes "checkout.session.async_payment_succeeded"
    ∷ codes "invoice.paid"
    ∷ codes "invoice.payment_failed"
    ∷ codes "invoice.payment_action_required"
    ∷ []

-- The customer of the event is its text, or the id of its object; an empty one is none.
unfoldable pub stripe_customer_pointer : StripeEvent → Option StripeCustomerPointer
stripe_customer_pointer event =
    let pointer : Option StripeCustomerPointer = elim event.event_customer [
      | none ↦ none
      | some [] ↦ none
      | some (c ∷ s) ↦ some (record {
        pointer_id = event.event_id;
        pointer_type = event.event_type;
        pointer_created = event.event_created;
        customer_id = c ∷ s;
        pointer_mode = if event.event_livemode then live_mode else test_mode;
      })
    ] in
    if is_one_of event.event_type pointed_types then pointer else none

pub record Portal : Type 0 where
  pub portal_livemode : Option Bool
  pub active : Bool
  pub can_cancel : Bool
  pub can_update : Bool
  pub allowed_updates : List Str
  pub product_prices : Option (List (List Str))

abbrev is_approved : PriceMap → Str → Bool
is_approved prices id =
    (elim prices.standard_price [ none ↦ false | some p ↦ str_eq p id ])
    || (elim prices.team_price [ none ↦ false | some p ↦ str_eq p id ])

abbrev all_prices : List Str → Bool
all_prices [] = true
all_prices (update ∷ updates) = str_eq update (codes "price") && all_prices updates

abbrev all_approved : PriceMap → List Str → Bool
all_approved prices [] = true
all_approved prices (id ∷ ids) = is_approved prices id && all_approved prices ids

abbrev products_approved : PriceMap → List (List Str) → Bool
products_approved prices [] = true
products_approved prices (ids ∷ products) =
    leb 1 (length ids) && all_approved prices ids && products_approved prices products

abbrev has_products : PriceMap → Option (List (List Str)) → Bool
has_products prices none = false
has_products prices (some products) = leb 1 (length products) && products_approved prices products

unfoldable pub assert_stripe_portal_configuration :
    Portal → PriceMap → StripeMode → Result ConfigFault (Unit {0})
unfolding assert_stripe_mode
assert_stripe_portal_configuration portal prices mode = do
  assert_stripe_mode portal.portal_livemode mode
  require (portal.active && portal.can_cancel) portal_inactive
  require
      (not portal.can_update
        || (all_prices portal.allowed_updates && has_products prices portal.product_prices))
      portal_prices

-- The guidance for a code of Google's that is known.
abbrev guidance_of : Str → Option Str
guidance_of code =
    if str_eq code (codes "invalid_grant")
    then some (codes "Reconnect Google Sheets in Integrations.")
    else if str_eq code (codes "invalid_client")
    then some (codes "Contact support to check this application's Google connection settings.")
    else if str_eq code (codes "unauthorized_client")
    then some
        (codes "Contact support to check whether this application is allowed to connect to Google.")
    else if str_eq code (codes "access_denied")
    then some (
        codes
          "Check your Google account permissions, then reconnect Google Sheets in Integrations.")
    else none

-- The guidance for an error, where the provider is Google's and the status is of authorization.
unfoldable pub google_guidance : Str → ℕ → Option Json → Option (Str × Str)
unfolding get
google_guidance provider status response_data =
    let google = is_one_of provider (codes "Google Sheets" ∷ codes "Google OAuth" ∷ []) in
    let found : Option (Str × Str) = elim (response_data) [
      | none ↦ none
      | some value ↦ elim (as_string (get "error" value)) [
        | none ↦ none
        | some code ↦ elim (guidance_of code) [ none ↦ none | some text ↦ some (code, text) ]
      ]
    ] in
    if google && (status == 400 || status == 401 || status == 403) then found else none

-- No part of the error is quoted but a code that is known. The status is 0 where there is none.
unfoldable pub public_provider_error : Str → ℕ → Option Json → Str
unfolding google_guidance
public_provider_error provider status response_data =
    elim (google_guidance provider status response_data) [
      | some (code, text) ↦
          provider ++ codes " authorization failed (" ++ code ++ codes "). " ++ text
      | none ↦
          provider
          ++ (if status == 401 || status == 403
              then codes " authorization failed. Check credentials and permissions."
              else if status == 429
              then codes " rate limit reached. The worker will retry within its configured limit."
              else codes
                  " operation failed. Check provider configuration and the documented release gates.")
    ]

pub record ManagedReceivingProbe : Type 0 where
  pub probe_domain : Str
  pub probe_email_id : Str
  pub probe_recipient : Str
  pub probe_nonce : Str

abbrev is_lower_alnum : ℕ → Bool
unfolding is_digit
is_lower_alnum c = (leb b'a' c && leb c b'z') || is_digit c

-- `(?:[a-z0-9-]*[a-z0-9])?`, where the flag says that the character before ends a label.
unfoldable is_label : Bool → Str → Bool
unfolding is_digit
is_label ended [] = ended
is_label ended (c ∷ s) = (is_lower_alnum c || c == b'-') && is_label (is_lower_alnum c) s

abbrev managed_suffix : Str
managed_suffix = codes ".resend.app"

-- `managedReceivingDomain`
unfoldable pub is_managed_domain : Str → Bool
unfolding is_label
is_managed_domain s =
    let cut = length s - length managed_suffix in
    leb 1 cut
    && leb cut 63
    && is_label false (take cut s)
    && (elim s [ [] ↦ false | c ∷ rest ↦ is_lower_alnum c ])
    && str_eq (drop cut s) managed_suffix

abbrev address_characters : Str → Bool
address_characters [] = true
address_characters (c ∷ s) = (is_lower_alnum c || c == b'.' || c == b'-') && address_characters s

abbrev probe_prefix : Str
probe_prefix = codes "folio-probe-"

-- `/^folio-probe-[a-f0-9]{32}@[a-z0-9.-]+$/`, and the domain behind the `@`.
unfoldable pub is_probe_recipient : Str → Str → Bool
unfolding starts_with split is_digit
is_probe_recipient recipient domain =
    let rest = drop (length probe_prefix) recipient in
    starts_with recipient probe_prefix
    && length (take 32 rest) == 32
    && all_hex (take 32 rest)
    && (elim (drop 32 rest) [
      | [] ↦ false
      | c ∷ s ↦ c == b'@' && leb 1 (length s) && address_characters s
    ])
    && (elim (split b'@' recipient) [ local ∷ d ∷ _ ↦ str_eq d domain | _ ↦ false ])

-- The variables of the environment that are read.
pub record ProbeEnv : Type 0 where
  pub inbound_domain : Option Str
  pub probe_email : Option Str
  pub probe_recipient_text : Option Str
  pub probe_nonce_text : Option Str

abbrev lower_trimmed : MailHost → Option Str → Str
unfolding trim
lower_trimmed host none = []
lower_trimmed host (some text) = host.lower (trim text)

abbrev trimmed : Option Str → Str
unfolding trim
trimmed none = []
trimmed (some text) = trim text

-- A variable that is missing fails as an empty one does; zod takes no empty text for a UUID.
unfoldable pub managed_receiving_probe : MailHost → ProbeEnv → Option ManagedReceivingProbe
unfolding trim is_managed_domain is_probe_recipient
managed_receiving_probe host env =
    let domain = lower_trimmed host env.inbound_domain in
    let email_id = lower_trimmed host env.probe_email in
    let recipient = lower_trimmed host env.probe_recipient_text in
    let nonce = trimmed env.probe_nonce_text in
    if is_managed_domain domain
      && leb 1 (length email_id)
      && host.is_uuid email_id
      && is_probe_recipient recipient domain
      && leb 32 (length nonce)
      && leb (length nonce) 64
      && all_hex nonce
    then some (record {
      probe_domain = domain;
      probe_email_id = email_id;
      probe_recipient = recipient;
      probe_nonce = nonce;
    })
    else none

-- The one recipient of a message.
unfoldable only_recipient : List Json → Option Str
only_recipient (value ∷ []) = as_string (some value)
only_recipient _ = none

-- A message with more than one recipient is refused, whatever the others are.
unfoldable pub verified_managed_receiving_probe : MailHost → Json → ManagedReceivingProbe → Bool
unfolding get trim only_recipient
verified_managed_receiving_probe host email probe =
    let expected = codes "Folio receiving probe " ++ probe.probe_nonce in
    equals_string (get "object" email) (codes "email")
    && (elim (as_string (get "id" email)) [
      | none ↦ false
      | some id ↦ host.is_uuid id && str_eq (host.lower id) probe.probe_email_id
    ])
    && (elim (as_array (get "received_for" email)) [
      | none ↦ false
      | some listed ↦ elim (only_recipient listed) [
        | none ↦ false
        | some recipient ↦ str_eq (host.lower (trim recipient)) probe.probe_recipient
      ]
    ])
    && equals_string (get "subject" email) expected
    && (elim (as_string (get "text" email)) [
      | none ↦ false
      | some text ↦ leb (length text) 10000 && str_eq (trim text) expected
    ])
