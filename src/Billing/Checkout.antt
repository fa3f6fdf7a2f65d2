-- ===== src/Billing/Checkout.antt =====
-- The checkout of src/billing/billing.repository.ts: `beginCheckout` with `checkoutContext`,
-- `markCheckoutOpen`, `markCheckoutFailed` and `markCheckoutFromWebhook`.
pub mod Live
pub mod Receipts
pub mod Starting
use histae_api.Prelude.{
  ℕ, Bool, true, false, not, ◌&&◌, ◌||◌, Option, none, some, List, ◌∷◌, ◌==◌, ltb, leb,
  if◌then◌else◌, is_null, is_set, holds, update_where, find_where, exists_where,
}
use histae_api.Billing.Models.{
  Account, is_live, BillingPeriod, same_period, Customer, Checkout, CheckoutStatus, creating, open_,
  completed, expired, failed, SessionView, Plan, is_premium, Db, unique_violation, plan_missing,
  Result, ok, err,
}
use histae_api.Billing.Subscriptions.{is_customer_of, has_active_subscription}
use histae_api.Billing.Customers.{has_id, is_live_checkout}

-- `CheckoutContext`
pub record Context : Type 0 where
  pub attempt_id : ℕ
  pub stripe_customer_id : Option ℕ
  pub trial_days : ℕ
  pub trial_used : Bool

-- `BeginCheckoutResult`
pub data BeginResult : Type 0 where
  created retry : Context → BeginResult
  replay : SessionView → BeginResult
  not_found already_subscribed in_progress customer_reconciliation_required : BeginResult
  idempotency_conflict idempotency_consumed : BeginResult

abbrev pub is_creating : CheckoutStatus → Bool
is_creating creating = true
is_creating _ = false

abbrev pub is_open : CheckoutStatus → Bool
is_open CheckoutStatus.open_ = true
is_open _ = false

abbrev is_over : CheckoutStatus → Bool
is_over completed = true
is_over expired = true
is_over _ = false

abbrev pub is_keyed : ℕ → ℕ → Checkout → Bool
is_keyed user key c = c.user_id == user && c.idempotency_key == key

-- `status IN ('creating', 'open')`
abbrev pub is_live_of : ℕ → Checkout → Bool
is_live_of user c = c.user_id == user && is_live_checkout c.status

-- The session that a retry of an open checkout is answered with.
pub replay_session : ℕ → Checkout → Option SessionView
replay_session now c =
    if is_open c.status && ltb now c.expires_at
    then elim c.stripe_session_id [
      | none ↦ none
      | some id ↦ elim c.checkout_url [
        | none ↦ none
        | some url ↦ some (record { session_id = id; url = url; expires_at = c.expires_at })
      ]
    ]
    else none

-- The early returns for an attempt with the same key.
pub previous_answer : BillingPeriod → ℕ → ℕ → Option Checkout → Option BeginResult
unfolding replay_session
previous_answer period now stale_before none = none
previous_answer period now stale_before (some c) =
    if not (same_period c.billing_period period)
    then some idempotency_conflict
    else elim (replay_session now c) [
      | some session ↦ some (replay session)
      | none ↦
          if is_over c.status
          then some idempotency_consumed
          else if is_creating c.status && ltb stale_before c.updated_at
          then some in_progress
          else none
    ]

abbrev pub lapsed : ℕ → Checkout → Checkout
lapsed clock c = record c { status = expired; checkout_url = none; updated_at = clock }

abbrev pub abandoned : ℕ → Checkout → Checkout
abandoned clock c = record c { status = failed; updated_at = clock }

-- The two UPDATEs that end the checkouts whose time is over.
pub end_stale : ℕ → ℕ → ℕ → ℕ → List Checkout → List Checkout
end_stale clock user now stale_before t =
    update_where (λ c. c.user_id == user && is_creating c.status && leb c.updated_at stale_before)
      (abandoned clock)
      (update_where (λ c. c.user_id == user && is_open c.status && leb c.expires_at now)
        (lapsed clock) t)

abbrev has_customer : Db → ℕ → Bool
has_customer d user =
    exists_where (λ (c : Customer). c.user_id == user && is_null c.stripe_customer_deleted_at)
      d.customers

-- An earlier attempt whose creation of a customer has no known outcome.
pub has_unresolved_customer : Db → ℕ → Option Checkout → Bool
has_unresolved_customer d user previous =
    exists_where
      (λ (c : Checkout).
        c.user_id == user
        && is_set c.customer_creation_started_at
        && is_null c.customer_erased_at
        && elim previous [ none ↦ true | some p ↦ not (c.id == p.id) ]
        && not (has_customer d c.user_id))
      d.checkouts

-- `checkoutContext`
pub checkout_context : Db → ℕ → ℕ → Option Context
checkout_context d user attempt =
    elim (find_where (λ (p : Plan). is_premium p.code && p.is_active) d.plans) [
      | none ↦ none
      | some plan ↦ elim (find_where (is_customer_of user) d.customers) [
        | none ↦ some (record {
          attempt_id = attempt;
          stripe_customer_id = none;
          trial_days = plan.trial_days;
          trial_used = false;
        })
        | some c ↦ some (record {
          attempt_id = attempt;
          stripe_customer_id =
              if is_null c.stripe_customer_deleted_at then some c.stripe_customer_id else none;
          trial_days = plan.trial_days;
          trial_used = is_set c.trial_used_at;
        })
      ]
    ]

-- What `beginCheckout` is called with.
pub record Request : Type 0 where
  pub user_id : ℕ
  pub idempotency_key : ℕ
  pub billing_period : BillingPeriod
  pub attempt_id : ℕ
  pub now : ℕ
  pub expires_at : ℕ
  pub stale_before : ℕ

abbrev pub restarted : ℕ → Request → Checkout → Checkout
restarted clock r c = record c {
  status = creating;
  stripe_session_id = none;
  checkout_url = none;
  expires_at = r.expires_at;
  updated_at = clock;
}

abbrev pub new_checkout : ℕ → Request → Checkout
new_checkout clock r = record {
  id = r.attempt_id;
  user_id = r.user_id;
  idempotency_key = r.idempotency_key;
  billing_period = r.billing_period;
  stripe_session_id = none;
  checkout_url = none;
  status = creating;
  expires_at = r.expires_at;
  updated_at = clock;
  customer_creation_started_at = none;
  created_customer_id = none;
  customer_erased_at = none;
}

-- The end of `beginCheckout`: the attempt with the key starts again, or a new one is inserted.
pub start_attempt : ℕ → Request → Db → Option Checkout → Result (Db × BeginResult)
unfolding checkout_context
start_attempt clock r d (some p) = elim (checkout_context d r.user_id p.id) [
  | none ↦ err plan_missing
  | some context ↦ ok (
    record d {
      checkouts =
          update_where (λ (c : Checkout). c.user_id == r.user_id && c.id == p.id)
            (restarted clock r) d.checkouts;
    },
    retry context,
  )
]
start_attempt clock r d none = elim (checkout_context d r.user_id r.attempt_id) [
  | none ↦ err plan_missing
  | some context ↦
      if exists_where (has_id r.attempt_id) d.checkouts
      then err unique_violation
      else ok (record d { checkouts = new_checkout clock r ∷ d.checkouts }, created context)
]

-- The guards of `beginCheckout` after the stale checkouts are ended.
pub guarded_attempt : ℕ → Request → Db → Option Checkout → Result (Db × BeginResult)
unfolding start_attempt has_unresolved_customer
guarded_attempt clock r d previous =
    if has_active_subscription d r.user_id r.now
    then ok (d, already_subscribed)
    else if exists_where (is_live_of r.user_id) d.checkouts
    then ok (d, in_progress)
    else if has_unresolved_customer d r.user_id previous
    then ok (d, customer_reconciliation_required)
    else start_attempt clock r d previous

-- `beginCheckout`
pub begin_checkout : ℕ → Request → Db → Result (Db × BeginResult)
unfolding previous_answer guarded_attempt end_stale
begin_checkout clock r d =
    let previous = find_where (is_keyed r.user_id r.idempotency_key) d.checkouts in
    if not (exists_where (is_live r.user_id) d.accounts)
    then ok (d, not_found)
    else elim (previous_answer r.billing_period r.now r.stale_before previous) [
      | some answer ↦ ok (d, answer)
      | none ↦
          guarded_attempt clock r
            (record d { checkouts = end_stale clock r.user_id r.now r.stale_before d.checkouts })
            previous
    ]

abbrev pub opened : ℕ → SessionView → Checkout → Checkout
opened clock s c = record c {
  stripe_session_id = some s.session_id;
  checkout_url = some s.url;
  status = CheckoutStatus.open_;
  expires_at = s.expires_at;
  updated_at = clock;
}

-- `markCheckoutOpen`; UNIQUE (stripe_session_id)
pub mark_checkout_open : ℕ → ℕ → SessionView → Db → Result (Db × Bool)
mark_checkout_open clock attempt s d =
    let ready = λ (c : Checkout). c.id == attempt && is_creating c.status in
    if not (exists_where ready d.checkouts)
    then ok (d, false)
    else if exists_where
        (λ (c : Checkout). not (c.id == attempt) && holds c.stripe_session_id s.session_id)
        d.checkouts
    then err unique_violation
    else ok (record d { checkouts = update_where ready (opened clock s) d.checkouts }, true)

-- `markCheckoutFailed`
pub mark_checkout_failed : ℕ → ℕ → Db → Db
mark_checkout_failed clock attempt d = record d {
  checkouts =
      update_where (λ (c : Checkout). c.id == attempt && is_creating c.status)
        (λ c. record c { status = failed; checkout_url = none; updated_at = clock }) d.checkouts;
}

-- The two statuses that a webhook gives a checkout.
pub data CheckoutEnd : Type 0 where
  end_completed end_expired : CheckoutEnd

abbrev pub end_status : CheckoutEnd → CheckoutStatus
end_status end_completed = completed
end_status end_expired = expired

-- `markCheckoutFromWebhook`
pub mark_checkout_from_webhook : ℕ → ℕ → CheckoutEnd → Db → Db × Option ℕ
mark_checkout_from_webhook clock session end d =
    let hit = λ (c : Checkout). holds c.stripe_session_id session && is_live_checkout c.status in
    (
      record d {
        checkouts =
            update_where hit
              (λ c. record c { status = end_status end; checkout_url = none; updated_at = clock })
              d.checkouts;
      },
      elim (find_where hit d.checkouts) [ none ↦ none | some c ↦ some c.user_id ],
    )
