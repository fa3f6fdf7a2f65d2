-- ===== src/Billing/Invoices/Ordering/Tests.antt =====
-- The payment of an invoice is delivered before the event that opens it.
use histae_api.Prelude.{[], ◌∷◌, ◌≡◌, refl, find_where, exists_where}
use histae_api.Billing.Models.{Db, InvoiceStatus, paid, ok}
use histae_api.Billing.Latest.{Latest, deliver_all}
use histae_api.Billing.Invoices.Ordering.{Delivery, deliver, key, IsShown, invoice-Latest}
use histae_api.Billing.Fixtures.{db, invoice}

abbrev payment : Delivery
payment = record { handled_at = 100; invoice = invoice paid 20 }

abbrev opening : Delivery
opening = record { handled_at = 101; invoice = invoice InvoiceStatus.open_ 10 }

invoice-Latest_example :
    (d' : Db) × (deliver_all (deliver 1) (payment ∷ opening ∷ []) db ≡ ok d')
    × (q : Delivery) × Latest key (payment ∷ opening ∷ []) q
    × IsShown 1 7 q d'
unfolding find_where exists_where
invoice-Latest_example = invoice-Latest 1 7 db payment (opening ∷ []) refl refl (refl, (refl, tt))
