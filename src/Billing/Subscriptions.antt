-- ===== src/Billing/Subscriptions.antt =====
-- `upsertSubscription` and `hasActiveSubscription` of src/billing/billing.repository.ts, and
-- `applySubscription` of src/billing/billing-reconciliation.repository.ts. A comparison with NULL
-- passes no test.
pub mod Counting
pub mod Ordering
pub mod Receipts
use histae_api.Prelude.{
  ℕ, Bool, true, false, not, ◌&&◌, ◌||◌, Option, none, some, List, ◌∷◌, ◌==◌, ltb, leb, ◌+◌, max,
  if◌then◌else◌, is_null, is_set, holds, at_or_before, coalesce, update_where, find_where,
  exists_where,
}
use histae_api.Billing.Models.{
  Subscription, SubscriptionStatus, canceled, Projection, Customer, Db, Failure, mapping_error,
  account_unavailable, unique_violation, foreign_key_violation, Result, ok, err, is_entitled,
  is_final, premium, is_premium, is_deleted, is_known, Account, is_live,
}

abbrev pub of_user : ℕ → Subscription → Bool
of_user user s = s.user_id == user

abbrev pub is_customer_of : ℕ → Customer → Bool
is_customer_of user c = c.user_id == user

abbrev pub later_of : Option ℕ → ℕ → ℕ
later_of none t = t
later_of (some s) t = max s t

abbrev pub is_after : Option ℕ → ℕ → Bool
is_after none t = false
is_after (some s) t = ltb t s

abbrev pub is_before : Option ℕ → ℕ → Bool
is_before none t = false
is_before (some s) t = ltb s t

-- `status NOT IN ('trialing', 'active', 'past_due')`, and the same for the final ones
abbrev pub not_entitled : Option SubscriptionStatus → Bool
not_entitled none = false
not_entitled (some s) = not (is_entitled s)

abbrev pub not_final : Option SubscriptionStatus → Bool
not_final none = false
not_final (some s) = not (is_final s)

abbrev pub entitled : Option SubscriptionStatus → Bool
entitled none = false
entitled (some s) = is_entitled s

-- The row of INSERT … VALUES.
abbrev pub projected : ℕ → Projection → Subscription
projected clock p = record {
  user_id = p.user_id;
  plan = premium;
  is_stripe = true;
  provider_subscription_id = some p.stripe_subscription_id;
  provider_price_id = some p.stripe_price_id;
  billing_period = some p.billing_period;
  status = some p.status;
  cancel_at_period_end = p.cancel_at_period_end;
  current_period_starts_at = some p.current_period_starts_at;
  current_period_ends_at = some p.current_period_ends_at;
  trial_ends_at = p.trial_ends_at;
  canceled_at = p.canceled_at;
  provider_event_created_at = some p.event_created_at;
  projection_version = 1;
  provider_snapshot_at = some p.event_created_at;
  updated_at = clock;
}

-- DO UPDATE SET
abbrev pub reprojected : ℕ → Projection → Subscription → Subscription
reprojected clock p s = record s {
  plan = premium;
  is_stripe = true;
  provider_subscription_id = some p.stripe_subscription_id;
  provider_price_id = some p.stripe_price_id;
  billing_period = some p.billing_period;
  status = some p.status;
  cancel_at_period_end = p.cancel_at_period_end;
  current_period_starts_at = some p.current_period_starts_at;
  current_period_ends_at = some p.current_period_ends_at;
  trial_ends_at = p.trial_ends_at;
  canceled_at = p.canceled_at;
  provider_event_created_at = some p.event_created_at;
  projection_version = s.projection_version + 1;
  provider_snapshot_at = some (later_of s.provider_snapshot_at p.event_created_at);
  updated_at = clock;
}

-- The WHERE of the upsert.
pub is_superseded : Projection → Subscription → Bool
is_superseded p s =
    (is_null s.provider_subscription_id
      || holds s.provider_subscription_id p.stripe_subscription_id
      || not_entitled s.status)
    && (is_null s.provider_event_created_at
        || is_before s.provider_event_created_at p.event_created_at
        || holds s.provider_event_created_at p.event_created_at
          && (not_final s.status || is_final p.status))
    && (is_null s.provider_snapshot_at || at_or_before s.provider_snapshot_at p.event_created_at)

-- The answer when no row was written: an old event of the stored subscription is passed over.
pub is_old_news : Projection → Subscription → Bool
is_old_news p s =
    holds s.provider_subscription_id p.stripe_subscription_id
    && is_set s.provider_event_created_at
    && not (is_before s.provider_event_created_at p.event_created_at)

-- UNIQUE (provider_subscription_id), against the rows of other accounts.
abbrev pub is_owned_elsewhere : Projection → List Subscription → Bool
is_owned_elsewhere p rows =
    exists_where
      (λ (s : Subscription).
        not (s.user_id == p.user_id) && holds s.provider_subscription_id p.stripe_subscription_id)
      rows

abbrev mark_trial_used : ℕ → Projection → ℕ → Customer → Customer
mark_trial_used clock p starts c = record c {
  trial_used_at = some (coalesce c.trial_used_at starts);
  updated_at = clock;
}

-- `if (input.trialStartsAt)`
abbrev pub after_projection : ℕ → Projection → Db → Db
after_projection clock p d = elim p.trial_starts_at [
  | none ↦ d
  | some starts ↦ record d {
    customers =
        update_where
          (λ (c : Customer). c.user_id == p.user_id && c.stripe_customer_id == p.stripe_customer_id)
          (mark_trial_used clock p starts) d.customers;
  }
]

-- The INSERT, by the row that the account has.
pub project : ℕ → Projection → Db → Option Subscription → Result Db
unfolding is_superseded is_old_news
project clock p d none =
    if is_owned_elsewhere p d.subscriptions
    then err unique_violation
    else if not (is_known d p.user_id)
    then err foreign_key_violation
    else ok (
        after_projection clock p (record d { subscriptions = projected clock p ∷ d.subscriptions }))
project clock p d (some s) =
    if is_superseded p s
    then (if is_owned_elsewhere p d.subscriptions
        then err unique_violation
        else ok (
            after_projection clock p (record d {
              subscriptions =
                  update_where (of_user p.user_id) (reprojected clock p) d.subscriptions;
            })))
    else if is_old_news p s
    then ok d
    else err mapping_error

-- `upsertSubscription`
unfoldable pub upsert_subscription : ℕ → Projection → Db → Result Db
unfolding project
upsert_subscription clock p d =
    if is_deleted d p.user_id
    then err account_unavailable
    else project clock p d (find_where (of_user p.user_id) d.subscriptions)

-- `hasActiveSubscription`
unfoldable pub has_active_subscription : Db → ℕ → ℕ → Bool
has_active_subscription d user now =
    exists_where
      (λ (s : Subscription).
        s.user_id == user
        && is_premium s.plan
        && ((not s.is_stripe
              && (is_null s.current_period_ends_at || is_after s.current_period_ends_at now))
            || (s.is_stripe
                && entitled s.status
                && (is_null s.current_period_ends_at || is_after s.current_period_ends_at now))))
      d.subscriptions
