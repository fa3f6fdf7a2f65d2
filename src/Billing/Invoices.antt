-- ===== src/Billing/Invoices.antt =====
-- `upsertInvoice` of src/billing/billing.repository.ts.
pub mod Ordering
pub mod Receipts
use histae_api.Prelude.{
  ℕ, Bool, true, false, not, ◌&&◌, ◌||◌, Option, none, some, List, ◌∷◌, ◌==◌, if◌then◌else◌,
  is_null, holds, update_where, find_where,
}
use histae_api.Billing.Models.{
  Invoice, InvoiceProjection, InvoiceStatus, is_settled, Db, foreign_key_violation, Result, ok, err,
  is_known,
}
use histae_api.Billing.Subscriptions.{is_before}

abbrev pub is_invoice : ℕ → Invoice → Bool
is_invoice id i = i.stripe_invoice_id == id

-- `status IN ('paid', 'void', 'uncollectible')`, and NOT IN
abbrev pub settled : Option InvoiceStatus → Bool
settled none = false
settled (some s) = is_settled s

abbrev pub not_settled : Option InvoiceStatus → Bool
not_settled none = false
not_settled (some s) = not (is_settled s)

abbrev pub recorded : ℕ → ℕ → InvoiceProjection → Invoice
recorded clock user p = record {
  stripe_invoice_id = p.stripe_invoice_id;
  user_id = some user;
  stripe_customer_id = p.stripe_customer_id;
  stripe_subscription_id = p.stripe_subscription_id;
  status = p.status;
  currency = p.currency;
  amount_due = p.amount_due;
  amount_paid = p.amount_paid;
  amount_remaining = p.amount_remaining;
  period_starts_at = p.period_starts_at;
  period_ends_at = p.period_ends_at;
  paid_at = p.paid_at;
  created_at = p.created_at;
  provider_event_created_at = some p.event_created_at;
  updated_at = clock;
}

-- DO UPDATE SET: all columns but the identifier and `created_at`.
abbrev pub rerecorded : ℕ → ℕ → InvoiceProjection → Invoice → Invoice
rerecorded clock user p i = record i {
  user_id = some user;
  stripe_customer_id = p.stripe_customer_id;
  stripe_subscription_id = p.stripe_subscription_id;
  status = p.status;
  currency = p.currency;
  amount_due = p.amount_due;
  amount_paid = p.amount_paid;
  amount_remaining = p.amount_remaining;
  period_starts_at = p.period_starts_at;
  period_ends_at = p.period_ends_at;
  paid_at = p.paid_at;
  provider_event_created_at = some p.event_created_at;
  updated_at = clock;
}

-- The WHERE of the upsert.
pub is_invoice_superseded : InvoiceProjection → Invoice → Bool
is_invoice_superseded p i =
    is_null i.provider_event_created_at
    || is_before i.provider_event_created_at p.event_created_at
    || holds i.provider_event_created_at p.event_created_at
      && (not_settled i.status || settled p.status)

-- The INSERT, by the row that has the identifier.
pub record_invoice : ℕ → ℕ → InvoiceProjection → Db → Option Invoice → Result Db
unfolding is_invoice_superseded
record_invoice clock user p d none =
    if not (is_known d user)
    then err foreign_key_violation
    else ok (record d { invoices = recorded clock user p ∷ d.invoices })
record_invoice clock user p d (some i) =
    if not (is_invoice_superseded p i)
    then ok d
    else if not (is_known d user)
    then err foreign_key_violation
    else ok (record d {
      invoices = update_where (is_invoice p.stripe_invoice_id) (rerecorded clock user p) d.invoices;
    })

pub upsert_invoice : ℕ → ℕ → InvoiceProjection → Db → Result Db
unfolding record_invoice
upsert_invoice clock user p d =
    record_invoice clock user p d (find_where (is_invoice p.stripe_invoice_id) d.invoices)
