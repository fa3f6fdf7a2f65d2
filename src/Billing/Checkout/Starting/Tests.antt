-- ===== src/Billing/Checkout/Starting/Tests.antt =====
-- The first checkout of an account.
use histae_api.Prelude.{
  some, [], ◌∷◌, ◌≡◌, refl, false, arith, find_where, exists_where, count_where, update_where,
}
use histae_api.Billing.Models.{Db, ok, monthly}
use histae_api.Billing.Subscriptions.{has_active_subscription}
use histae_api.Billing.Checkout.{
  Request, BeginResult, created, Context, begin_checkout, new_checkout,
}
use histae_api.Billing.Checkout.Live.{IsSound}
use histae_api.Billing.Checkout.Starting.{HasStarted, IsFree, begin_checkout_lem}
use histae_api.Billing.Fixtures.{db}

abbrev request : Request
request = record {
  user_id = 1;
  idempotency_key = 5;
  billing_period = monthly;
  attempt_id = 50;
  now = 1000;
  expires_at = 2000;
  stale_before = 900;
}

abbrev context : Context
context = record {
  attempt_id = 50;
  stripe_customer_id = some 70;
  trial_days = 14;
  trial_used = false;
}

abbrev answer : Db × BeginResult
answer = (record db { checkouts = new_checkout 1000 request ∷ [] }, created context)

db-IsSound : IsSound db.checkouts
unfolding count_where
db-IsSound = record { one_live = λ user. omega arith; unique_ids = λ id. omega arith }

first_checkout : begin_checkout 1000 request db ≡ ok answer
unfolding begin_checkout has_active_subscription find_where exists_where update_where
first_checkout = refl

begin_checkout_lem_example :
    IsSound answer.0.checkouts × HasStarted request answer × IsFree request db answer.1
begin_checkout_lem_example = begin_checkout_lem 1000 request db answer db-IsSound first_checkout
