-- ===== src/Billing/Reconciliation.antt =====
-- src/billing/billing-reconciliation.repository.ts (`recoverCustomerCreation` is in Billing/Customers)
-- and the decisions of src/billing/billing-reconciliation.service.ts. What Stripe answers is an
-- argument; a row that FOR UPDATE SKIP LOCKED passes over is one for which `locked` answers true.
pub mod Versions
use histae_api.Prelude.{
  ℕ, Bool, true, false, not, ◌&&◌, ◌||◌, Option, none, some, List, [], ◌∷◌, ◌==◌, ◌+◌, ◌-◌, ◌<◌,
  ltb, leb, max, if◌then◌else◌, is_null, is_set, holds, at_or_before, coalesce, update_where,
  select_where, find_where, exists_where, order_by, take, map, length,
}
use histae_api.Outbox.Models.{
  Event, NewEvent, EventType, billing_subscription_reconcile, billing_customer_reconcile, same_type,
  same_key, is_completed, is_discarded, is_dead_letter,
}
use histae_api.Billing.Models.{
  Account, is_live, Customer, Checkout, Subscription, SubscriptionStatus, incomplete, trialing,
  active, past_due, paused, canceled, Projection, Db, premium, unique_violation, Result, ok, err,
}
use histae_api.Billing.Stripe.{
  StripeSubscription, Item, Config, Parsed, parse_subscription, projection_of,
}
use histae_api.Billing.Subscriptions.{
  of_user, is_customer_of, is_owned_elsewhere, is_after, projected, reprojected,
}
use histae_api.Outbox.Scheduling.{schedule}
use histae_api.Billing.Customers.{has_id, reconcile_event, creation_grace}

-- `SubscriptionReconciliationContext`
pub record SubscriptionContext : Type 0 where
  pub user_id : ℕ
  pub stripe_customer_id : ℕ
  pub projection_version : Option ℕ

abbrev pub live_customer_of : Db → ℕ → Customer → Bool
live_customer_of d user c =
    c.user_id == user
    && is_null c.stripe_customer_deleted_at
    && exists_where (is_live c.user_id) d.accounts

abbrev pub version_of : Option Subscription → Option ℕ
version_of none = none
version_of (some s) = some s.projection_version

abbrev pub status_of : Option Subscription → Option SubscriptionStatus
status_of none = none
status_of (some s) = s.status

-- `subscriptionContext`
pub subscription_context : Db → ℕ → Option SubscriptionContext
subscription_context d user = elim (find_where (live_customer_of d user) d.customers) [
  | none ↦ none
  | some c ↦ some (record {
    user_id = c.user_id;
    stripe_customer_id = c.stripe_customer_id;
    projection_version = version_of (find_where (of_user c.user_id) d.subscriptions);
  })
]

-- `CustomerCreationReconciliationContext`
pub record CreationContext : Type 0 where
  pub attempt_id : ℕ
  pub user_id : ℕ
  pub started_at : ℕ
  pub created_customer_id : Option ℕ
  pub mapped_customer_id : Option ℕ
  pub customer_erased_at : Option ℕ

-- The mapping of an account that Stripe has not deleted.
pub mapped_customer : Db → ℕ → Option ℕ
mapped_customer d user =
    elim (find_where (λ (c : Customer). c.user_id == user && is_null c.stripe_customer_deleted_at)
      d.customers) [ none ↦ none | some c ↦ some c.stripe_customer_id ]

-- `customerCreationContext`
pub customer_creation_context : Db → ℕ → Option CreationContext
unfolding mapped_customer
customer_creation_context d attempt =
    elim (find_where
      (λ (c : Checkout).
        c.id == attempt
        && is_set c.customer_creation_started_at
        && exists_where (is_live c.user_id) d.accounts)
      d.checkouts) [
        | none ↦ none
        | some c ↦ some (record {
          attempt_id = c.id;
          user_id = c.user_id;
          started_at = coalesce c.customer_creation_started_at 0;
          created_customer_id = c.created_customer_id;
          mapped_customer_id = mapped_customer d c.user_id;
          customer_erased_at = c.customer_erased_at;
        })
      ]

-- `ReconciliationApplyResult`
pub data Applied : Type 0 where
  applied stale : Option SubscriptionStatus → Option SubscriptionStatus → Applied
  not_found conflict : Applied

-- The row of INSERT … VALUES, which has no event of Stripe, and DO UPDATE SET.
abbrev pub reconciled : ℕ → ℕ → Projection → Subscription
reconciled clock snapshot p = record (projected clock p) {
  provider_event_created_at = none;
  provider_snapshot_at = some snapshot;
}

abbrev pub rereconciled : ℕ → ℕ → Projection → Subscription → Subscription
rereconciled clock snapshot p s = record (reprojected clock p s) {
  provider_event_created_at = s.provider_event_created_at;
  provider_snapshot_at = some snapshot;
}

abbrev pub ended : ℕ → ℕ → Subscription → Subscription
ended clock snapshot s = record s {
  status = some canceled;
  cancel_at_period_end = false;
  canceled_at = some (coalesce s.canceled_at snapshot);
  projection_version = s.projection_version + 1;
  provider_snapshot_at = some snapshot;
  updated_at = clock;
}

abbrev trial_noted : ℕ → Option ℕ → List Customer → List Customer
trial_noted user none t = t
trial_noted user (some starts) t =
    update_where (is_customer_of user)
      (λ c. record c { trial_used_at = some (coalesce c.trial_used_at starts) }) t

-- The statements of `applySubscription` on `user_subscription`, by the row that the account has and
-- the projection; none when a unique constraint is violated.
pub apply_rows :
    ℕ
    → ℕ
    → ℕ
    → Option Projection
    → Option Subscription
    → List Subscription
    → Option (List Subscription)
apply_rows clock snapshot user (some p) none t =
    if is_owned_elsewhere (record p { user_id = user }) t
    then none
    else some (reconciled clock snapshot (record p { user_id = user }) ∷ t)
apply_rows clock snapshot user (some p) (some s) t =
    if is_owned_elsewhere (record p { user_id = user }) t
    then none
    else some (update_where (of_user user) (rereconciled clock snapshot p) t)
apply_rows clock snapshot user none none t = some t
apply_rows clock snapshot user none (some s) t =
    if s.is_stripe then some (update_where (of_user user) (ended clock snapshot) t) else some t

pub next_status : Option Projection → Option Subscription → Option SubscriptionStatus
next_status (some p) current = some p.status
next_status none none = none
next_status none (some s) = if s.is_stripe then some canceled else s.status

abbrev trial_of : Option Projection → Option ℕ
trial_of none = none
trial_of (some p) = p.trial_starts_at

abbrev checked : ℕ → ℕ → ℕ → Bool → Customer → Customer
checked clock snapshot next_due deleted c = record c {
  stripe_reconciled_at = some snapshot;
  stripe_reconciliation_due_at = next_due;
  stripe_customer_deleted_at =
      if deleted
      then some (coalesce c.stripe_customer_deleted_at snapshot)
      else c.stripe_customer_deleted_at;
  updated_at = clock;
}

-- What a call of `applySubscription` brings.
pub record Snapshot : Type 0 where
  pub context : SubscriptionContext
  pub projection : Option Projection
  pub snapshot_at : ℕ
  pub next_due_at : ℕ
  pub customer_deleted : Bool

abbrev pub same_version : Option ℕ → Option ℕ → Bool
same_version none none = true
same_version (some v) (some w) = v == w
same_version _ _ = false

abbrev snapshot_of : Option Subscription → Option ℕ
snapshot_of none = none
snapshot_of (some s) = s.provider_snapshot_at

-- The test on the row that the context was read from.
pub is_stale : Snapshot → Option Subscription → Bool
is_stale x current =
    not (same_version (version_of current) x.context.projection_version)
    || is_after (snapshot_of current) x.snapshot_at

pub apply_current : ℕ → Snapshot → Db → Option Subscription → Db × Applied
unfolding apply_rows next_status is_stale
apply_current clock x d current =
    let user = x.context.user_id in
    if is_stale x current
    then (d, stale (status_of current) (status_of current))
    else elim (apply_rows clock x.snapshot_at user x.projection current d.subscriptions) [
      | none ↦ (d, conflict)
      | some rows ↦ (
        record d {
          subscriptions = rows;
          customers =
              update_where (is_customer_of user)
                (checked clock x.snapshot_at x.next_due_at x.customer_deleted)
                (trial_noted user (trial_of x.projection) d.customers);
        },
        applied (status_of current) (next_status x.projection current),
      )
    ]

-- `applySubscription`; a violation of a unique constraint rolls back and is answered as a conflict.
pub apply_subscription : ℕ → Snapshot → Db → Db × Applied
unfolding apply_current
apply_subscription clock x d =
    elim (find_where (live_customer_of d x.context.user_id) d.customers) [
      | none ↦ (d, not_found)
      | some c ↦
          if not (c.stripe_customer_id == x.context.stripe_customer_id)
          then (d, not_found)
          else apply_current clock x d (find_where (of_user x.context.user_id) d.subscriptions)
    ]

-- The job is absent or over.
abbrev pub is_unqueued : EventType → ℕ → List Event → Bool
is_unqueued type id jobs = not (
    exists_where
      (λ (e : Event).
        same_key (record { event_type = type; aggregate_id = id }) e
        && not (is_completed e.status || is_discarded e.status))
      jobs)

-- `IS DISTINCT FROM`, of the mapping and a customer that is there
abbrev differs : Option ℕ → Option ℕ → Bool
differs mapping none = is_set mapping
differs mapping (some c) = not (holds mapping c)

-- A creation of a customer whose outcome must be found out.
pub is_due_creation : Db → ℕ → Checkout → Bool
unfolding mapped_customer
is_due_creation d now c =
    is_set c.customer_creation_started_at
    && is_null c.customer_erased_at
    && exists_where (is_live c.user_id) d.accounts
    && (is_null c.created_customer_id
          && leb (coalesce c.customer_creation_started_at 0 + creation_grace) now
        || is_set c.created_customer_id
          && differs (mapped_customer d c.user_id) c.created_customer_id)
    && is_unqueued billing_customer_reconcile c.id d.jobs

pub due_creations : (ℕ → Bool) → ℕ → ℕ → Db → List Checkout
unfolding is_due_creation
due_creations locked now limit d = take limit (
    select_where (λ (c : Checkout). not (locked c.id))
      (order_by
        (λ (a b : Checkout).
          let s = coalesce a.customer_creation_started_at 0 in
          let t = coalesce b.customer_creation_started_at 0 in ltb s t || s == t && leb a.id b.id)
        (select_where (is_due_creation d now) d.checkouts)))

pub is_due_customer : Db → ℕ → Customer → Bool
is_due_customer d now c =
    is_null c.stripe_customer_deleted_at
    && leb c.stripe_reconciliation_due_at now
    && exists_where (is_live c.user_id) d.accounts
    && is_unqueued billing_subscription_reconcile c.user_id d.jobs

pub due_customers : (ℕ → Bool) → ℕ → ℕ → Db → List Customer
unfolding is_due_customer
due_customers locked now limit d = take limit (
    select_where (λ (c : Customer). not (locked c.user_id))
      (order_by
        (λ (a b : Customer).
          let s = a.stripe_reconciliation_due_at in
          let t = b.stripe_reconciliation_due_at in ltb s t || s == t && leb a.user_id b.user_id)
        (select_where (is_due_customer d now) d.customers)))

-- INSERT … SELECT … FROM candidates: a job for each pair of an aggregate and an instant.
pub schedule_all : (ℕ → ℕ) → ℕ → EventType → List (ℕ × ℕ) → List Event → List Event
schedule_all fresh clock type [] jobs = jobs
schedule_all fresh clock type ((id, available_at) ∷ rest) jobs =
    schedule_all fresh clock type rest (
      schedule (fresh id) clock available_at (record { event_type = type; aggregate_id = id }) jobs)

abbrev creation_instant : ℕ → Checkout → ℕ
creation_instant clock c =
    if is_null c.created_customer_id
    then max clock (coalesce c.customer_creation_started_at clock + creation_grace)
    else clock

-- `scheduleDue`: the tables and the number of jobs. Each candidate gets one, since it has none that
-- is not over.
pub schedule_due : (ℕ → Bool) → (ℕ → Bool) → (ℕ → ℕ) → ℕ → ℕ → ℕ → Db → Db × ℕ
unfolding due_creations due_customers schedule_all
schedule_due locked_checkout locked_customer fresh clock now limit d =
    let creations = due_creations locked_checkout now limit d in
    let d1 = record d {
      jobs =
          schedule_all fresh clock billing_customer_reconcile
            (map (λ (c : Checkout). (c.id, creation_instant clock c)) creations) d.jobs;
    } in
    let remaining = limit - length creations in
    if remaining == 0
    then (d1, length creations)
    else let customers = due_customers locked_customer now remaining d1 in
      (
        record d1 {
          jobs =
              schedule_all fresh clock billing_subscription_reconcile
                (map (λ (c : Customer). (c.user_id, clock)) customers) d1.jobs;
        },
        length customers + length creations,
      )
