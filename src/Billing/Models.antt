-- ===== src/Billing/Models.antt =====
-- src/billing/billing.models.ts, src/billing/billing.errors.ts, and the tables of the billing. The
-- identifiers of Stripe, URLs and currencies are numbers, compared for equality.
use histae_api.Prelude.{
  if◌then◌else◌, ℕ, Bool, true, false, Option, List, ◌==◌, ◌&&◌, exists_where, ◌≡◌, refl, subst,
  is_set, is_null,
}
use histae_api.Outbox.Models.{Event}

pub data BillingPeriod : Type 0 where
  monthly annual : BillingPeriod

abbrev pub same_period : BillingPeriod → BillingPeriod → Bool
same_period monthly monthly = true
same_period annual annual = true
same_period _ _ = false

pub data SubscriptionStatus : Type 0 where
  incomplete incomplete_expired trialing active past_due canceled unpaid paused : SubscriptionStatus

-- `IN ('trialing', 'active', 'past_due')`
abbrev pub is_entitled : SubscriptionStatus → Bool
is_entitled trialing = true
is_entitled active = true
is_entitled past_due = true
is_entitled _ = false

-- `IN ('canceled', 'unpaid', 'incomplete_expired')`
abbrev pub is_final : SubscriptionStatus → Bool
is_final canceled = true
is_final unpaid = true
is_final incomplete_expired = true
is_final _ = false

-- `subscription_plan.code`
pub data PlanCode : Type 0 where
  free premium : PlanCode
  other_plan : ℕ → PlanCode

abbrev pub is_premium : PlanCode → Bool
is_premium premium = true
is_premium _ = false

-- `user_subscription`; `provider` is NULL or 'stripe', so `is_stripe` tells it.
pub record Subscription : Type 0 where
  pub user_id : ℕ
  pub plan : PlanCode
  pub is_stripe : Bool
  pub provider_subscription_id : Option ℕ
  pub provider_price_id : Option ℕ
  pub billing_period : Option BillingPeriod
  pub status : Option SubscriptionStatus
  pub cancel_at_period_end : Bool
  pub current_period_starts_at : Option ℕ
  pub current_period_ends_at : Option ℕ
  pub trial_ends_at : Option ℕ
  pub canceled_at : Option ℕ
  pub provider_event_created_at : Option ℕ
  pub projection_version : ℕ
  pub provider_snapshot_at : Option ℕ
  pub updated_at : ℕ

-- `SubscriptionProjection`
pub record Projection : Type 0 where
  pub user_id : ℕ
  pub stripe_customer_id : ℕ
  pub stripe_subscription_id : ℕ
  pub stripe_price_id : ℕ
  pub billing_period : BillingPeriod
  pub status : SubscriptionStatus
  pub cancel_at_period_end : Bool
  pub current_period_starts_at : ℕ
  pub current_period_ends_at : ℕ
  pub trial_starts_at : Option ℕ
  pub trial_ends_at : Option ℕ
  pub canceled_at : Option ℕ
  pub event_created_at : ℕ

pub record Customer : Type 0 where
  pub user_id : ℕ
  pub stripe_customer_id : ℕ
  pub stripe_customer_deleted_at : Option ℕ
  pub trial_used_at : Option ℕ
  pub stripe_reconciliation_due_at : ℕ
  pub stripe_reconciled_at : Option ℕ
  pub updated_at : ℕ

pub data CheckoutStatus : Type 0 where
  creating open_ completed expired failed : CheckoutStatus

pub record Checkout : Type 0 where
  pub id : ℕ
  pub user_id : ℕ
  pub idempotency_key : ℕ
  pub billing_period : BillingPeriod
  pub stripe_session_id : Option ℕ
  pub checkout_url : Option ℕ
  pub status : CheckoutStatus
  pub expires_at : ℕ
  pub updated_at : ℕ
  pub customer_creation_started_at : Option ℕ
  pub created_customer_id : Option ℕ
  pub customer_erased_at : Option ℕ

-- `CheckoutSessionView`
pub record SessionView : Type 0 where
  pub session_id : ℕ
  pub url : ℕ
  pub expires_at : ℕ

pub data InvoiceStatus : Type 0 where
  draft open_ paid void uncollectible : InvoiceStatus

-- `IN ('paid', 'void', 'uncollectible')`
abbrev pub is_settled : InvoiceStatus → Bool
is_settled paid = true
is_settled void = true
is_settled uncollectible = true
is_settled _ = false

-- `InvoiceProjection`
pub record InvoiceProjection : Type 0 where
  pub stripe_invoice_id : ℕ
  pub stripe_customer_id : ℕ
  pub stripe_subscription_id : Option ℕ
  pub status : Option InvoiceStatus
  pub currency : ℕ
  pub amount_due : ℕ
  pub amount_paid : ℕ
  pub amount_remaining : ℕ
  pub period_starts_at : ℕ
  pub period_ends_at : ℕ
  pub paid_at : Option ℕ
  pub created_at : ℕ
  pub event_created_at : ℕ

-- `billing_invoice`
pub record Invoice : Type 0 where
  pub stripe_invoice_id : ℕ
  pub user_id : Option ℕ
  pub stripe_customer_id : ℕ
  pub stripe_subscription_id : Option ℕ
  pub status : Option InvoiceStatus
  pub currency : ℕ
  pub amount_due : ℕ
  pub amount_paid : ℕ
  pub amount_remaining : ℕ
  pub period_starts_at : ℕ
  pub period_ends_at : ℕ
  pub paid_at : Option ℕ
  pub created_at : ℕ
  pub provider_event_created_at : Option ℕ
  pub updated_at : ℕ

-- `WebhookMetadata`; the type and the version of the event are kept as numbers.
pub record WebhookMetadata : Type 0 where
  pub id : ℕ
  pub event_type : ℕ
  pub object_id : Option ℕ
  pub livemode : Bool
  pub api_version : Option ℕ
  pub created_at : ℕ

-- The columns that the billing reads of `user_account` and of `subscription_plan`.
pub record Account : Type 0 where
  pub user_id : ℕ
  pub deleted_at : Option ℕ

pub record Plan : Type 0 where
  pub code : PlanCode
  pub trial_days : ℕ
  pub is_active : Bool

pub data Notice : Type 0 where
  subscription_trial_ending : ℕ → ℕ → Notice
  billing_payment_failed : ℕ → Notice

-- A call of `enqueueNotification`: the account, the source event, and the notification.
pub record Intent : Type 0 where
  pub user_id : ℕ
  pub source_event_id : ℕ
  pub notice : Notice

pub record Db : Type 0 where
  pub accounts : List Account
  pub plans : List Plan
  pub subscriptions : List Subscription
  pub customers : List Customer
  pub checkouts : List Checkout
  pub invoices : List Invoice
  pub webhooks : List WebhookMetadata
  pub jobs : List Event
  pub intents : List Intent

-- What a transaction throws: the errors of the module, those of the database, and of the code.
pub data Failure : Type 0 where
  mapping_error account_inactive : Failure
  account_unavailable unique_violation foreign_key_violation : Failure
  plan_missing attempt_missing customer_conflict : Failure

pub data Result {ℓ} (T : Type ℓ) : Type ℓ where
  err : Failure → Result T
  ok : T → Result T

abbrev pub throw_if : Bool → Failure → Result (Unit {0})
throw_if test failure = if test then err failure else ok tt

module _ {ℓ κ} {S : Type ℓ} {T : Type κ} where
  infixl 5 ◌>>=◌
  abbrev pub ◌>>=◌ : Result S → (S → Result T) → Result T
  err failure >>= next = err failure
  ok value >>= next = next value

  -- What a transaction that ends well says of its steps.
  pub >>=-eq-ok :
      (first : Result S) (next : S → Result T) {end : T}
      → (first >>= next) ≡ ok end
      → (value : S) × (first ≡ ok value) × (next value ≡ ok end)
  >>=-eq-ok (err failure) next done = cc
  >>=-eq-ok (ok value) next done = (value, refl, done)

infixl 5 ◌>>◌
abbrev pub ◌>>◌ {κ} : {T : Type κ} → Result (Unit {0}) → Result T → Result T
step >> next = step >>= (λ _. next)

pub >>-eq-ok {κ} :
    {T : Type κ} (step : Result (Unit {0})) {next : Result T} {end : T}
    → (step >> next) ≡ ok end
    → next ≡ ok end
>>-eq-ok (err failure) done = cc
>>-eq-ok (ok _) done = done

-- What holds of the value of one side holds of the other's.
pub ok-subst {ℓ} : {A : Type ℓ} (P : A → Type 0) (a x : A) → ok a ≡ ok x → P a → P x
ok-subst P a x h p = subst P (cc) p

abbrev pub is_account : ℕ → Account → Bool
is_account user a = a.user_id == user

-- `deleted_at IS NULL`
abbrev pub is_live : ℕ → Account → Bool
is_live user a = a.user_id == user && is_null a.deleted_at

-- `fct_require_live_account`: an account that is there and deleted.
abbrev pub is_deleted : Db → ℕ → Bool
is_deleted d user =
    exists_where (λ (a : Account). a.user_id == user && is_set a.deleted_at) d.accounts

abbrev pub is_known : Db → ℕ → Bool
is_known d user = exists_where (is_account user) d.accounts
