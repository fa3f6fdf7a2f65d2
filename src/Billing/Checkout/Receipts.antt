-- ===== src/Billing/Checkout/Receipts.antt =====
-- The statements on the checkouts leave the receipts of the webhooks alone.
use histae_api.Prelude.{ℕ, ◌≡◌, refl}
use histae_api.Billing.Models.{Db}
use histae_api.Billing.Checkout.{CheckoutEnd, mark_checkout_from_webhook}

pub mark_checkout_from_webhook-webhooks :
    (clock session : ℕ) (end : CheckoutEnd) (d : Db)
    → (mark_checkout_from_webhook clock session end d).0.webhooks ≡ d.webhooks
unfolding mark_checkout_from_webhook
mark_checkout_from_webhook-webhooks clock session end d = refl
