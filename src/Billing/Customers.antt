-- ===== src/Billing/Customers.antt =====
-- The customers of Stripe in src/billing/billing.repository.ts (`saveCustomer`,
-- `beginCustomerCreation`, `recordCreatedCustomer`, `customerCreationsForErasure`,
-- `markCreatedCustomerErased`, `resolveBillingUser`, `markCustomerDeleted`, `customerForUser`), and
-- `recoverCustomerCreation` of src/billing/billing-reconciliation.repository.ts. An instant that a
-- statement reads from the clock is the argument `clock`.
pub mod Counting
pub mod Receipts
use histae_api.Outbox.Scheduling.{schedule}
use histae_api.Prelude.{
  ℕ, Bool, true, false, not, ◌&&◌, ◌||◌, Option, none, some, List, ◌∷◌, ◌==◌, ◌+◌, leb,
  if◌then◌else◌, is_null, is_set, holds, at_or_before, coalesce, update_where, delete_where,
  select_where, find_where, exists_where, order_by, take,
}
use histae_api.Outbox.Models.{
  Event, NewEvent, EventType, billing_customer_reconcile, same_type, same_key, is_pending,
  is_completed, is_discarded,
}
use histae_api.Outbox.Store.{inserted, reset}
use histae_api.Billing.Models.{
  Account, is_live, Customer, Checkout, CheckoutStatus, creating, open_, failed, Subscription,
  canceled, Db, mapping_error, account_inactive, unique_violation, attempt_missing,
  customer_conflict, Result, ok, err, ◌>>=◌, ◌>>◌, throw_if, is_deleted, is_known,
}
use histae_api.Billing.Subscriptions.{of_user, is_customer_of, later_of}

abbrev pub is_stripe_customer : ℕ → Customer → Bool
is_stripe_customer customer c = c.stripe_customer_id == customer

abbrev pub has_id : ℕ → Checkout → Bool
has_id id c = c.id == id

-- `customerForUser`
pub customer_for_user : Db → ℕ → Option ℕ
customer_for_user d user =
    elim (find_where (λ (c : Customer). c.user_id == user && is_null c.stripe_customer_deleted_at)
      d.customers) [ none ↦ none | some c ↦ some c.stripe_customer_id ]

abbrev pub new_customer : ℕ → ℕ → ℕ → Customer
new_customer clock user customer = record {
  user_id = user;
  stripe_customer_id = customer;
  stripe_customer_deleted_at = none;
  trial_used_at = none;
  stripe_reconciliation_due_at = clock;
  stripe_reconciled_at = none;
  updated_at = clock;
}

-- UNIQUE (stripe_customer_id), against the rows of other accounts.
abbrev pub is_taken : ℕ → ℕ → List Customer → Bool
is_taken user customer rows =
    exists_where (λ (c : Customer). not (c.user_id == user) && c.stripe_customer_id == customer)
      rows

abbrev pub replaced : ℕ → ℕ → Customer → Customer
replaced clock customer c = record c {
  stripe_customer_id = customer;
  stripe_customer_deleted_at = none;
  stripe_reconciliation_due_at = clock;
  updated_at = clock;
}

-- The INSERT of `saveCustomer` and of `recoverCustomerCreation`, by the row that the account has. A
-- live customer of the account is never replaced by another.
pub put_customer : ℕ → ℕ → ℕ → Db → Option Customer → Result (Db × Bool)
put_customer clock user customer d none =
    if is_taken user customer d.customers
    then err unique_violation
    else ok (record d { customers = new_customer clock user customer ∷ d.customers }, true)
put_customer clock user customer d (some c) =
    if not (c.stripe_customer_id == customer || is_set c.stripe_customer_deleted_at)
    then ok (d, false)
    else if is_taken user customer d.customers
    then err unique_violation
    else ok (
      record d {
        customers = update_where (is_customer_of user) (replaced clock customer) d.customers;
      },
      true,
    )

-- The jobs that `saveCustomer` deletes.
abbrev pub is_obsolete : Db → ℕ → ℕ → Event → Bool
is_obsolete d user customer e =
    same_type e.event_type billing_customer_reconcile
    && exists_where
        (λ (c : Checkout).
          c.id == e.aggregate_id && c.user_id == user && holds c.created_customer_id customer)
        d.checkouts
    && (is_pending e.status || is_completed e.status || is_discarded e.status)

finish_save : ℕ → ℕ → Db × Bool → Db × Bool
finish_save user customer (d, false) = (d, false)
finish_save user customer (d, true) =
    (record d { jobs = delete_where (is_obsolete d user customer) d.jobs }, true)

-- `saveCustomer`
pub save_customer : ℕ → ℕ → ℕ → Db → Result (Db × Bool)
unfolding put_customer finish_save
save_customer clock user customer d =
    if not (exists_where (is_live user) d.accounts) then ok (d, false) else do
      saved ← put_customer clock user customer d (find_where (is_customer_of user) d.customers)
      ok (finish_save user customer saved)

abbrev pub reconcile_event : ℕ → NewEvent
reconcile_event attempt = record { event_type = billing_customer_reconcile; aggregate_id = attempt }

-- 23 hours
abbrev pub creation_grace : ℕ
creation_grace = 82800000

abbrev started : ℕ → Checkout → Checkout
started clock c = record c {
  customer_creation_started_at = some (coalesce c.customer_creation_started_at clock);
}

-- `beginCustomerCreation`
pub begin_customer_creation : ℕ → ℕ → ℕ → Db → Result (Db × Checkout)
unfolding schedule
begin_customer_creation fresh clock attempt d = elim (find_where (has_id attempt) d.checkouts) [
  | none ↦ err attempt_missing
  | some c ↦ ok (
    record d {
      checkouts = update_where (has_id attempt) (started clock) d.checkouts;
      jobs =
          schedule fresh clock (coalesce c.customer_creation_started_at clock + creation_grace)
            (reconcile_event c.id) d.jobs;
    },
    started clock c,
  )
]

-- `recordCreatedCustomer`
pub record_created_customer : ℕ → ℕ → ℕ → Db → Result Db
record_created_customer clock attempt customer d =
    let free = λ (c : Checkout).
      c.id == attempt && (is_null c.created_customer_id || holds c.created_customer_id customer) in
    if not (exists_where free d.checkouts)
    then err customer_conflict
    else ok (record d {
      checkouts =
          update_where free (λ c. record c { created_customer_id = some customer }) d.checkouts;
      jobs =
          update_where (λ (e : Event). same_key (reconcile_event attempt) e && is_pending e.status)
            (λ e. record e { available_at = clock }) d.jobs;
    })

-- `customerCreationsForErasure`
pub customer_creations_for_erasure : Db → ℕ → List Checkout
customer_creations_for_erasure d user = take 50 (
    order_by (λ a b. leb a.id b.id)
      (select_where
        (λ (c : Checkout).
          c.user_id == user
          && is_set c.customer_creation_started_at
          && is_null c.customer_erased_at)
        d.checkouts))

-- `markCreatedCustomerErased`
pub mark_created_customer_erased : ℕ → ℕ → Db → Db
mark_created_customer_erased clock attempt d = record d {
  checkouts =
      update_where (has_id attempt) (λ c. record c { customer_erased_at = some clock }) d.checkouts;
}

-- `requireActiveBillingAccount`
pub require_active_billing_account : Db → ℕ → Result (Unit {0})
require_active_billing_account d user = do
  throw_if (is_deleted d user) account_inactive
  throw_if (not (is_known d user)) mapping_error

-- The INSERT of `resolveBillingUser`, by the row that the account has; no row comes back when the
-- account has another customer.
map_customer : ℕ → ℕ → ℕ → Db → Option Customer → Result (Db × ℕ)
map_customer clock user customer d none =
    if is_taken user customer d.customers
    then err unique_violation
    else ok (record d { customers = new_customer clock user customer ∷ d.customers }, user)
map_customer clock user customer d (some c) =
    if c.stripe_customer_id == customer
    then ok (
      record d {
        customers =
            update_where (is_customer_of user) (λ c. record c { updated_at = clock }) d.customers;
      },
      user,
    )
    else err mapping_error

resolve_mapped : ℕ → Option ℕ → Db → Result (Db × Option ℕ)
unfolding require_active_billing_account
resolve_mapped mapped metadata_user d = do
  require_active_billing_account d mapped
  throw_if (is_set metadata_user && not (holds metadata_user mapped)) mapping_error
  ok (d, some mapped)

resolve_unmapped : ℕ → ℕ → Option ℕ → Db → Result (Db × Option ℕ)
unfolding require_active_billing_account map_customer
resolve_unmapped clock customer none d = ok (d, none)
resolve_unmapped clock customer (some user) d = do
  require_active_billing_account d user
  throw_if (not (exists_where (is_live user) d.accounts)) mapping_error
  saved ← map_customer clock user customer d (find_where (is_customer_of user) d.customers)
  ok (saved.0, some saved.1)

-- `resolveBillingUser`; the mapping that was read is still there when it is locked, as nothing runs
-- in between.
unfoldable pub resolve_billing_user : ℕ → ℕ → Option ℕ → Db → Result (Db × Option ℕ)
unfolding resolve_mapped resolve_unmapped
resolve_billing_user clock customer metadata_user d =
    elim (find_where (is_stripe_customer customer) d.customers) [
      | none ↦ resolve_unmapped clock customer metadata_user d
      | some c ↦ resolve_mapped c.user_id metadata_user d
    ]

abbrev pub canceled_at_event : ℕ → ℕ → Subscription → Subscription
canceled_at_event clock event s = record s {
  status = some canceled;
  cancel_at_period_end = false;
  canceled_at = some (coalesce s.canceled_at event);
  provider_event_created_at = some (later_of s.provider_event_created_at event);
  provider_snapshot_at = some (later_of s.provider_snapshot_at event);
  projection_version = s.projection_version + 1;
  updated_at = clock;
}

abbrev pub is_live_checkout : CheckoutStatus → Bool
is_live_checkout creating = true
is_live_checkout CheckoutStatus.open_ = true
is_live_checkout _ = false

abbrev pub after_deletion : ℕ → ℕ → ℕ → Db → Db
after_deletion clock event user d = record d {
  subscriptions =
      update_where
        (λ (s : Subscription).
          of_user user s
          && s.is_stripe
          && (is_null s.provider_snapshot_at || at_or_before s.provider_snapshot_at event))
        (canceled_at_event clock event) d.subscriptions;
  checkouts =
      update_where (λ (c : Checkout). c.user_id == user && is_live_checkout c.status)
        (λ c. record c { status = failed; checkout_url = none; updated_at = clock }) d.checkouts;
  customers =
      update_where (is_customer_of user)
        (λ c. record c { stripe_customer_deleted_at = some clock; updated_at = clock }) d.customers;
}

-- `markCustomerDeleted`
pub mark_customer_deleted : ℕ → ℕ → ℕ → Db → Result (Db × Option ℕ)
unfolding require_active_billing_account
mark_customer_deleted clock customer event d =
    elim (find_where (is_stripe_customer customer) d.customers) [
      | none ↦ ok (d, none)
      | some c ↦ do
        require_active_billing_account d c.user_id
        ok (after_deletion clock event c.user_id d, some c.user_id)
    ]

pub data Recovery : Type 0 where
  recovered cleared already_resolved not_found conflict : Recovery

finish_recovery : ℕ → ℕ → ℕ → Db × Bool → Db × Recovery
finish_recovery clock attempt customer (d, false) = (d, conflict)
finish_recovery clock attempt customer (d, true) = (
  record d {
    checkouts =
        update_where (has_id attempt)
          (λ c. record c {
            created_customer_id = some customer;
            status = failed;
            checkout_url = none;
            updated_at = clock;
          })
          d.checkouts;
  },
  recovered,
)

-- What the transaction of `recoverCustomerCreation` does when a customer is known.
recover_known : ℕ → ℕ → ℕ → ℕ → Db → Result (Db × Recovery)
unfolding put_customer finish_recovery
recover_known clock attempt user customer d = do
  saved ← put_customer clock user customer d (find_where (is_customer_of user) d.customers)
  ok (finish_recovery clock attempt customer saved)

pub clear_creation : ℕ → ℕ → Db → Db
clear_creation clock attempt d = record d {
  checkouts =
      update_where (has_id attempt)
        (λ c. record c {
          customer_creation_started_at = none;
          status = failed;
          checkout_url = none;
          updated_at = clock;
        })
        d.checkouts;
}

recover_checkout : ℕ → ℕ → Option ℕ → Checkout → Db → Result (Db × Recovery)
unfolding recover_known clear_creation
recover_checkout clock attempt found c d =
    if is_set c.customer_erased_at then ok (d, already_resolved) else elim c.created_customer_id [
      | none ↦ elim found [
        | none ↦ ok (clear_creation clock attempt d, cleared)
        | some customer ↦ recover_known clock attempt c.user_id customer d
      ]
      | some created ↦
          if is_set found && not (holds found created)
          then ok (d, conflict)
          else recover_known clock attempt c.user_id created d
    ]

-- A violation of a unique constraint rolls the transaction back and is answered as a conflict.
abbrev catch_conflict : Db → Result (Db × Recovery) → Result (Db × Recovery)
catch_conflict d (err unique_violation) = ok (d, conflict)
catch_conflict d r = r

-- `recoverCustomerCreation`
pub recover_customer_creation : ℕ → ℕ → Option ℕ → Db → Result (Db × Recovery)
unfolding recover_checkout
recover_customer_creation clock attempt found d =
    elim (find_where
      (λ (c : Checkout). c.id == attempt && exists_where (is_live c.user_id) d.accounts)
      d.checkouts) [
        | none ↦ ok (d, not_found)
        | some c ↦ catch_conflict d (recover_checkout clock attempt found c d)
      ]
