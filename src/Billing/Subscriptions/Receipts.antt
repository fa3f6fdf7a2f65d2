-- ===== src/Billing/Subscriptions/Receipts.antt =====
-- The statements on the subscriptions leave the receipts of the webhooks alone.
use histae_api.Prelude.{Option, none, some, ◌≡◌, arith, ℕ, find_where}
use histae_api.Billing.Models.{Db, Projection, Subscription, ok}
use histae_api.Billing.Subscriptions.{upsert_subscription, project, of_user}

project-webhooks :
    (clock : ℕ) (p : Projection) (d d' : Db) (o : Option Subscription)
    → project clock p d o ≡ ok d'
    → d'.webhooks ≡ d.webhooks
unfolding project
project-webhooks clock p d d' none h = ground arith
project-webhooks clock p d d' (some s) h = ground arith

pub upsert_subscription-webhooks :
    (clock : ℕ) (p : Projection) (d d' : Db)
    → upsert_subscription clock p d ≡ ok d'
    → d'.webhooks ≡ d.webhooks
unfolding upsert_subscription
upsert_subscription-webhooks clock p d d' h =
    ground (arith, project-webhooks clock p d d' (find_where (of_user p.user_id) d.subscriptions))
