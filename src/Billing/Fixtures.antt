-- ===== src/Billing/Fixtures.antt =====
-- Tables and requests for the tests of the billing: two accounts, of which the first is a customer.
use histae_api.Prelude.{ℕ, none, some, [], ◌∷◌, false, true}
use histae_api.Billing.Models.{
  Db, Account, Customer, Projection, InvoiceProjection, premium, monthly, SubscriptionStatus,
  InvoiceStatus,
}

abbrev pub account : ℕ → Account
account user = record { user_id = user; deleted_at = none }

abbrev pub customer : Customer
customer = record {
  user_id = 1;
  stripe_customer_id = 70;
  stripe_customer_deleted_at = none;
  trial_used_at = none;
  stripe_reconciliation_due_at = 0;
  stripe_reconciled_at = none;
  updated_at = 0;
}

abbrev pub db : Db
db = record {
  accounts = account 1 ∷ account 2 ∷ [];
  plans = record { code = premium; trial_days = 14; is_active = true } ∷ [];
  subscriptions = [];
  customers = customer ∷ [];
  checkouts = [];
  invoices = [];
  webhooks = [];
  jobs = [];
  intents = [];
}

-- What Stripe tells of the subscription 90 of an account at an instant.
abbrev pub projection : ℕ → SubscriptionStatus → ℕ → Projection
projection user status instant = record {
  user_id = user;
  stripe_customer_id = 70;
  stripe_subscription_id = 90;
  stripe_price_id = 80;
  billing_period = monthly;
  status = status;
  cancel_at_period_end = false;
  current_period_starts_at = 0;
  current_period_ends_at = 5000;
  trial_starts_at = some 3;
  trial_ends_at = none;
  canceled_at = none;
  event_created_at = instant;
}

abbrev pub invoice : InvoiceStatus → ℕ → InvoiceProjection
invoice status instant = record {
  stripe_invoice_id = 7;
  stripe_customer_id = 70;
  stripe_subscription_id = some 90;
  status = some status;
  currency = 978;
  amount_due = 999;
  amount_paid = 0;
  amount_remaining = 999;
  period_starts_at = 0;
  period_ends_at = 5000;
  paid_at = none;
  created_at = 1;
  event_created_at = instant;
}
