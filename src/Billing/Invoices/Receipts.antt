-- ===== src/Billing/Invoices/Receipts.antt =====
-- The statements on the invoices leave the receipts of the webhooks alone.
use histae_api.Prelude.{Option, none, some, ◌≡◌, arith, ℕ, find_where}
use histae_api.Billing.Models.{Db, InvoiceProjection, Invoice, ok}
use histae_api.Billing.Invoices.{upsert_invoice, record_invoice, is_invoice}

record_invoice-webhooks :
    (clock user : ℕ) (p : InvoiceProjection) (d d' : Db) (o : Option Invoice)
    → record_invoice clock user p d o ≡ ok d'
    → d'.webhooks ≡ d.webhooks
unfolding record_invoice
record_invoice-webhooks clock user p d d' none h = ground arith
record_invoice-webhooks clock user p d d' (some i) h = ground arith

pub upsert_invoice-webhooks :
    (clock user : ℕ) (p : InvoiceProjection) (d d' : Db)
    → upsert_invoice clock user p d ≡ ok d'
    → d'.webhooks ≡ d.webhooks
unfolding upsert_invoice
upsert_invoice-webhooks clock user p d d' h =
    record_invoice-webhooks clock user p d d'
      (find_where (is_invoice p.stripe_invoice_id) d.invoices) h
