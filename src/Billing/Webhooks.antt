-- ===== src/Billing/Webhooks.antt =====
-- src/billing/stripe-webhook.service.ts from the verified event on, with `processWebhook` and
-- `webhookProcessed` of src/billing/billing.repository.ts. The check of the signature is Stripe's
-- library; `subscriptionForInvoice` asks Stripe for the subscription of an invoice, which is the
-- argument `fetched`; what the clients of the account are told after the transaction is left out.
pub mod Once
use histae_api.Prelude.{
  ℕ, Bool, true, false, not, Option, none, some, List, ◌∷◌, ◌==◌, ◌*◌, if◌then◌else◌, is_set,
  exists_where,
}
use histae_api.Billing.Models.{
  SubscriptionStatus, canceled, Notice, subscription_trial_ending, billing_payment_failed, Intent,
  WebhookMetadata, Db, Failure, account_inactive, mapping_error, Result, ok, err, ◌>>=◌, ◌>>◌,
  throw_if,
}
use histae_api.Billing.Stripe.{
  StripeSubscription, StripeInvoice, Config, Parsed, required, parse_subscription, parse_invoice,
  projection_of,
}
use histae_api.Billing.Subscriptions.{upsert_subscription}
use histae_api.Billing.Invoices.{upsert_invoice}
use histae_api.Billing.Customers.{resolve_billing_user, mark_customer_deleted}
use histae_api.Billing.Checkout.{CheckoutEnd, mark_checkout_from_webhook}

-- The supported types of events, each with its object; `unsupported` is any other type.
pub data Payload : Type 0 where
  -- `customer.subscription.*`; the test is `trial_will_end`
  subscription_event : StripeSubscription → Bool → Payload
  -- `invoice.*`; the test is `payment_failed` or `payment_action_required`
  invoice_event : StripeInvoice → Bool → Payload
  checkout_event : ℕ → CheckoutEnd → Payload
  customer_deleted : Option ℕ → Payload
  unsupported : Payload

pub record StripeEvent : Type 0 where
  pub id : ℕ
  pub event_type : ℕ
  pub object_id : Option ℕ
  pub livemode : Bool
  pub api_version : Option ℕ
  -- in seconds
  pub created : ℕ
  pub payload : Payload

-- `WebhookEffect`
pub record Effect : Type 0 where
  pub user_id : ℕ
  pub notification : Option Notice
  pub subscription_status : Option SubscriptionStatus

abbrev pub metadata_of : StripeEvent → WebhookMetadata
metadata_of e = record {
  id = e.id;
  event_type = e.event_type;
  object_id = e.object_id;
  livemode = e.livemode;
  api_version = e.api_version;
  created_at = e.created * 1000;
}

-- `resolveUser`
resolve_user : ℕ → Parsed → Db → Result (Db × ℕ)
resolve_user clock p d = do
  resolved ← resolve_billing_user clock p.stripe_customer_id p.metadata_user_id d
  user ← required resolved.1
  ok (resolved.0, user)

abbrev trial_notice : Bool → Parsed → Option Notice
trial_notice false p = none
trial_notice true p = elim p.trial_ends_at [
  | none ↦ none
  | some t ↦ some (subscription_trial_ending p.stripe_subscription_id t)
]

abbrev told : Option ℕ → Option SubscriptionStatus → Option Effect
told none status = none
told (some user) status =
    some (record { user_id = user; notification = none; subscription_status = status })

-- The branch of `processEvent` for a subscription.
process_subscription : ℕ → Config → ℕ → StripeSubscription → Bool → Db → Result (Db × Option Effect)
unfolding resolve_user
process_subscription clock config created s ending d = do
  parsed ← parse_subscription config s
  resolved ← resolve_user clock parsed d
  d' ← upsert_subscription clock (projection_of parsed resolved.1 created) resolved.0
  ok (
    d',
    some (record {
      user_id = resolved.1;
      notification = trial_notice ending parsed;
      subscription_status = some parsed.status;
    }),
  )

-- The branch for an invoice whose subscription was fetched.
process_invoice : ℕ → ℕ → StripeInvoice → Bool → Parsed → Db → Result (Db × Option Effect)
unfolding resolve_user
process_invoice clock created i failing parsed d = do
  customer ← required i.customer
  throw_if (not (parsed.stripe_customer_id == customer)) mapping_error
  resolved ← resolve_user clock parsed d
  d1 ← upsert_subscription clock (projection_of parsed resolved.1 created) resolved.0
  invoice ← parse_invoice i created
  d2 ← upsert_invoice clock resolved.1 invoice d1
  ok (
    d2,
    some (record {
      user_id = resolved.1;
      notification = if failing then some (billing_payment_failed i.id) else none;
      subscription_status = some parsed.status;
    }),
  )

process_checkout : ℕ → ℕ → CheckoutEnd → Db → Result (Db × Option Effect)
process_checkout clock session end d =
    let (d', user) = mark_checkout_from_webhook clock session end d in ok (d', told user none)

process_deletion : ℕ → ℕ → Option ℕ → Db → Result (Db × Option Effect)
process_deletion clock created object d = do
  customer ← required object
  done ← mark_customer_deleted clock customer created d
  ok (done.0, told done.1 (some canceled))

-- `processEvent`
pub process_event : ℕ → Config → Option Parsed → StripeEvent → Db → Result (Db × Option Effect)
unfolding process_subscription process_invoice process_checkout process_deletion
process_event clock config fetched e d = elim e.payload [
  | subscription_event s ending ↦ process_subscription clock config (e.created * 1000) s ending d
  | invoice_event i failing ↦ elim fetched [
    | none ↦ ok (d, none)
    | some parsed ↦ process_invoice clock (e.created * 1000) i failing parsed d
  ]
  | checkout_event session end ↦ process_checkout clock session end d
  | customer_deleted object ↦ process_deletion clock (e.created * 1000) object d
  | unsupported ↦ ok (d, none)
]

abbrev pub is_webhook : ℕ → WebhookMetadata → Bool
is_webhook id w = w.id == id

-- `enqueueNotification`, as its intent
abbrev intents_of : ℕ → Option Effect → Db → Db
intents_of event none d = d
intents_of event (some effect) d = elim effect.notification [
  | none ↦ d
  | some notice ↦ record d {
    intents =
        record { user_id = effect.user_id; source_event_id = event; notice = notice } ∷ d.intents;
  }
]

-- The work that `handle` does in the transaction: an erased account keeps the receipt alone.
abbrev settle : ℕ → Db → Result (Db × Option Effect) → Result (Db × Option Effect)
settle event d (ok (d', effect)) = ok (intents_of event effect d', effect)
settle event d (err account_inactive) = ok (d, none)
settle event d (err e) = err e

-- `processWebhook`: the answer says whether the event is a duplicate.
pub process_webhook :
    ℕ → Config → Option Parsed → StripeEvent → Db → Result (Db × Bool × Option Effect)
process_webhook clock config fetched e d =
    if exists_where (is_webhook e.id) d.webhooks then ok (d, true, none) else do
      let received = record d { webhooks = metadata_of e ∷ d.webhooks }
      done ← settle e.id received (process_event clock config fetched e received)
      ok (done.0, false, done.1)

abbrev pub is_supported : Payload → Bool
is_supported unsupported = false
is_supported _ = true

-- `handle`, after `verifiedEvent`: the tables, and what is told to the clients. A failure leaves the
-- tables as they were.
pub handle : ℕ → Config → Option Parsed → StripeEvent → Db → Result (Db × Option Effect)
unfolding process_webhook
handle clock config fetched e d =
    if not (is_supported e.payload)
    then ok (d, none)
    else if exists_where (is_webhook e.id) d.webhooks
    then ok (d, none)
    else do done ← process_webhook clock config fetched e d; ok (done.0, done.2)
