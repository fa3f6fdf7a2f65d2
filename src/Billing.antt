-- ===== src/Billing.antt =====
-- src/billing: the projections of Stripe's subscriptions and invoices, the checkout, the customers,
-- the webhooks and the reconciliation.
mod Fixtures
pub mod Models
pub mod Latest
pub mod Versions
pub mod Subscriptions
pub mod Customers
pub mod Checkout
pub mod Stripe
pub mod Webhooks
pub mod Reconciliation
pub mod Invoices
