-- ===== src/Billing/Stripe.antt =====
-- src/billing/stripe-projection.mapper.ts: what the billing reads of Stripe's objects. A field that
-- the mapper tests for its form is an `Option`, `none` when the form is another: `metadata_user_id` is
-- a uuid, `product`, `customer` and `subscription` have an identifier (`stripeObjectId`), `status` is
-- one of STRIPE_SUBSCRIPTION_STATUSES. Instants of Stripe are seconds.
use histae_api.Prelude.{
  ℕ, Bool, not, Option, none, some, List, [], ◌∷◌, ◌==◌, ◌*◌, if◌then◌else◌, holds,
}
use histae_api.Billing.Models.{
  BillingPeriod, monthly, annual, SubscriptionStatus, InvoiceStatus, Projection, InvoiceProjection,
  mapping_error, Result, ok, err, ◌>>=◌, ◌>>◌, throw_if,
}

pub record Price : Type 0 where
  pub id : ℕ
  pub product : Option ℕ

pub record Item : Type 0 where
  pub price : Price
  pub current_period_start : ℕ
  pub current_period_end : ℕ

pub record StripeSubscription : Type 0 where
  pub id : ℕ
  pub status : Option SubscriptionStatus
  pub items : List Item
  pub metadata_user_id : Option ℕ
  pub customer : Option ℕ
  pub cancel_at_period_end : Bool
  pub trial_start : Option ℕ
  pub trial_end : Option ℕ
  pub canceled_at : Option ℕ
  pub created : ℕ

pub record StripeInvoice : Type 0 where
  pub id : ℕ
  pub customer : Option ℕ
  pub subscription : Option ℕ
  pub status : Option InvoiceStatus
  -- in upper case
  pub currency : ℕ
  pub amount_due : ℕ
  pub amount_paid : ℕ
  pub amount_remaining : ℕ
  pub period_start : ℕ
  pub period_end : ℕ
  pub paid_at : Option ℕ
  pub created : ℕ

-- The part of `BillingConfig` that the mapper reads.
pub record Config : Type 0 where
  pub premium_product_id : ℕ
  pub premium_monthly_price_id : ℕ
  pub premium_annual_price_id : ℕ

-- `ParsedSubscription`
pub record Parsed : Type 0 where
  pub metadata_user_id : Option ℕ
  pub stripe_customer_id : ℕ
  pub stripe_subscription_id : ℕ
  pub stripe_price_id : ℕ
  pub billing_period : BillingPeriod
  pub status : SubscriptionStatus
  pub cancel_at_period_end : Bool
  pub current_period_starts_at : ℕ
  pub current_period_ends_at : ℕ
  pub trial_starts_at : Option ℕ
  pub trial_ends_at : Option ℕ
  pub canceled_at : Option ℕ

abbrev pub required {ℓ} : {A : Type ℓ} → Option A → Result A
required none = err mapping_error
required (some a) = ok a

abbrev unix_date : Option ℕ → Option ℕ
unix_date none = none
unix_date (some t) = some (t * 1000)

-- `periodForPrice`
pub period_for_price : Config → ℕ → Result BillingPeriod
period_for_price config price =
    if price == config.premium_monthly_price_id
    then ok monthly
    else if price == config.premium_annual_price_id
    then ok annual
    else err mapping_error

abbrev single : List Item → Result Item
single (item ∷ []) = ok item
single _ = err mapping_error

-- `subscription`
unfoldable pub parse_subscription : Config → StripeSubscription → Result Parsed
unfolding period_for_price
parse_subscription config s = do
  status ← required s.status
  item ← single s.items
  throw_if (not (holds item.price.product config.premium_product_id)) mapping_error
  customer ← required s.customer
  period ← period_for_price config item.price.id
  ok (record {
    metadata_user_id = s.metadata_user_id;
    stripe_customer_id = customer;
    stripe_subscription_id = s.id;
    stripe_price_id = item.price.id;
    billing_period = period;
    status = status;
    cancel_at_period_end = s.cancel_at_period_end;
    current_period_starts_at = item.current_period_start * 1000;
    current_period_ends_at = item.current_period_end * 1000;
    trial_starts_at = unix_date s.trial_start;
    trial_ends_at = unix_date s.trial_end;
    canceled_at = unix_date s.canceled_at;
  })

-- `invoice`
pub parse_invoice : StripeInvoice → ℕ → Result InvoiceProjection
parse_invoice i event_created_at = do
  customer ← required i.customer
  ok (record {
    stripe_invoice_id = i.id;
    stripe_customer_id = customer;
    stripe_subscription_id = i.subscription;
    status = i.status;
    currency = i.currency;
    amount_due = i.amount_due;
    amount_paid = i.amount_paid;
    amount_remaining = i.amount_remaining;
    period_starts_at = i.period_start * 1000;
    period_ends_at = i.period_end * 1000;
    paid_at = unix_date i.paid_at;
    created_at = i.created * 1000;
    event_created_at = event_created_at;
  })

-- `{ ...parsed, userId, eventCreatedAt }`
abbrev pub projection_of : Parsed → ℕ → ℕ → Projection
projection_of p user event_created_at = record {
  user_id = user;
  stripe_customer_id = p.stripe_customer_id;
  stripe_subscription_id = p.stripe_subscription_id;
  stripe_price_id = p.stripe_price_id;
  billing_period = p.billing_period;
  status = p.status;
  cancel_at_period_end = p.cancel_at_period_end;
  current_period_starts_at = p.current_period_starts_at;
  current_period_ends_at = p.current_period_ends_at;
  trial_starts_at = p.trial_starts_at;
  trial_ends_at = p.trial_ends_at;
  canceled_at = p.canceled_at;
  event_created_at = event_created_at;
}
