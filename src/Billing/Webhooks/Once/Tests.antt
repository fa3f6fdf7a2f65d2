-- ===== src/Billing/Webhooks/Once/Tests.antt =====
-- A subscription that starts, and the same event once more after another.
use histae_api.Prelude.{Option, none, some, [], ◌∷◌, ◌≡◌, refl, false, find_where, exists_where}
use histae_api.Billing.Models.{Db, ok, active}
use histae_api.Billing.Stripe.{StripeSubscription, Config, parse_subscription}
use histae_api.Billing.Subscriptions.{upsert_subscription, projected}
use histae_api.Billing.Customers.{resolve_billing_user}
use histae_api.Billing.Webhooks.{
  StripeEvent, Effect, subscription_event, unsupported, handle, process_event, metadata_of,
}
use histae_api.Billing.Webhooks.Once.{Delivered, handle_all, handle_once}
use histae_api.Billing.Fixtures.{db, projection}

abbrev config : Config
config = record {
  premium_product_id = 60;
  premium_monthly_price_id = 80;
  premium_annual_price_id = 81;
}

abbrev subscription : StripeSubscription
subscription = record {
  id = 90;
  status = some active;
  items =
      record {
        price = record { id = 80; product = some 60 };
        current_period_start = 0;
        current_period_end = 5;
      }
      ∷ [];
  metadata_user_id = some 1;
  customer = some 70;
  cancel_at_period_end = false;
  trial_start = none;
  trial_end = none;
  canceled_at = none;
  created = 0;
}

abbrev event : StripeEvent
event = record {
  id = 500;
  event_type = 1;
  object_id = some 90;
  livemode = false;
  api_version = none;
  created = 20;
  payload = subscription_event subscription false;
}

abbrev other : Delivered
other = record {
  handled_at = 101;
  fetched = none;
  event = record event { id = 501; payload = unsupported };
}

abbrev handled : Db × Option Effect
handled = (
  record db {
    subscriptions =
        projected 100 (record (projection 1 active 20000) { trial_starts_at = none }) ∷ [];
    webhooks = metadata_of event ∷ [];
  },
  some (record { user_id = 1; notification = none; subscription_status = some active }),
)

event_handled : handle 100 config none event db ≡ ok handled
unfolding handle process_event parse_subscription upsert_subscription resolve_billing_user
    find_where exists_where
event_handled = refl

others_handled : handle_all config (other ∷ []) handled.0 ≡ ok handled.0
unfolding handle_all handle
others_handled = refl

handle_once_example : handle 102 config none event handled.0 ≡ ok (handled.0, none)
handle_once_example =
    handle_once 100 config none event db handled (other ∷ []) handled.0 event_handled others_handled
      102 none
