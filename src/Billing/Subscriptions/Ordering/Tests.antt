-- ===== src/Billing/Subscriptions/Ordering/Tests.antt =====
-- The cancellation of a subscription is delivered before the event that it started.
use histae_api.Prelude.{[], ◌∷◌, ◌≡◌, refl, find_where, exists_where}
use histae_api.Billing.Models.{Db, ok, canceled, active}
use histae_api.Billing.Latest.{Latest, deliver_all}
use histae_api.Billing.Subscriptions.Ordering.{Delivery, deliver, key, IsShown, subscription-Latest}
use histae_api.Billing.Fixtures.{db, projection}

abbrev cancellation : Delivery
cancellation = record { handled_at = 100; projection = projection 1 canceled 20 }

abbrev start : Delivery
start = record { handled_at = 101; projection = projection 1 active 10 }

subscription-Latest_example :
    (d' : Db) × (deliver_all deliver (cancellation ∷ start ∷ []) db ≡ ok d')
    × (q : Delivery) × Latest key (cancellation ∷ start ∷ []) q
    × IsShown 1 90 q d'
unfolding find_where exists_where
subscription-Latest_example =
    subscription-Latest 1 90 db cancellation (start ∷ []) refl refl refl refl
      ((refl, refl), ((refl, refl), tt))
