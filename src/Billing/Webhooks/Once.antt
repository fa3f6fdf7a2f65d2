-- ===== src/Billing/Webhooks/Once.antt =====
-- Stripe delivers an event at least once; its effects happen once.
mod Tests
use histae_api.Prelude.{
  ℕ, Bool, true, false, not, Option, none, some, List, [], ◌∷◌, ◌≡◌, ◌∙◌, refl, sym, arith, ◌==◌,
  ◌*◌, ◌||◌, exists_where, Bool-cases, Option-cases, inl, inr, ==_self, if◌then◌else◌, find_where,
}
use histae_api.Billing.Models.{
  Db, WebhookMetadata, Projection, InvoiceProjection, Result, ok, err, >>-eq-ok, >>=-eq-ok,
  throw_if, mapping_error, Subscription, Customer, Invoice,
}
use histae_api.Billing.Stripe.{
  StripeSubscription, StripeInvoice, Config, Parsed, required, parse_subscription, parse_invoice,
  projection_of,
}
use histae_api.Billing.Subscriptions.{upsert_subscription}
use histae_api.Billing.Subscriptions.Receipts.{upsert_subscription-webhooks}
use histae_api.Billing.Invoices.{upsert_invoice}
use histae_api.Billing.Invoices.Receipts.{upsert_invoice-webhooks}
use histae_api.Billing.Customers.{resolve_billing_user, mark_customer_deleted}
use histae_api.Billing.Customers.Receipts.{resolve-webhooks, mark_customer_deleted-webhooks}
use histae_api.Billing.Checkout.{CheckoutEnd, mark_checkout_from_webhook}
use histae_api.Billing.Checkout.Receipts.{mark_checkout_from_webhook-webhooks}
use histae_api.Billing.Models.{
  account_inactive, account_unavailable, unique_violation, foreign_key_violation, plan_missing,
  attempt_missing, customer_conflict, ◌>>=◌,
}
use histae_api.Billing.Webhooks.{
  subscription_event, invoice_event, checkout_event, customer_deleted, unsupported, metadata_of,
  StripeEvent, Effect, Payload, process_event, process_webhook, handle, is_webhook, is_supported,
  resolve_user, process_subscription, process_invoice, process_checkout, process_deletion, settle,
  intents_of,
}

module _ (clock : ℕ) (d : Db) where
  resolve_user-webhooks :
      (p : Parsed) (r : Db × ℕ) → resolve_user clock p d ≡ ok r → r.0.webhooks ≡ d.webhooks
  unfolding resolve_user
  resolve_user-webhooks p r h =
      let (resolved, e, h1) =
        >>=-eq-ok (resolve_billing_user clock p.stripe_customer_id p.metadata_user_id d) _ h in
      let (user, e2, h2) = >>=-eq-ok (required resolved.1) _ h1 in
      ground
        (arith, h2, resolve-webhooks clock p.stripe_customer_id p.metadata_user_id d resolved e)

  process_subscription-webhooks :
      (config : Config) (created : ℕ) (s : StripeSubscription) (ending : Bool)
      (r : Db × Option Effect)
      → process_subscription clock config created s ending d ≡ ok r
      → r.0.webhooks ≡ d.webhooks
  unfolding process_subscription
  process_subscription-webhooks config created s ending r h =
      let (parsed, e, h1) = >>=-eq-ok (parse_subscription config s) _ h in
      let (resolved, e1, h2) = >>=-eq-ok (resolve_user clock parsed d) _ h1 in
      let p = projection_of parsed resolved.1 created in
      let (d', e2, h3) = >>=-eq-ok (upsert_subscription clock p resolved.0) _ h2 in
      ground (
        arith,
        h3,
        resolve_user-webhooks parsed resolved e1,
        upsert_subscription-webhooks clock p resolved.0 d' e2,
      )

  process_invoice-webhooks :
      (created : ℕ) (i : StripeInvoice) (failing : Bool) (parsed : Parsed) (r : Db × Option Effect)
      → process_invoice clock created i failing parsed d ≡ ok r
      → r.0.webhooks ≡ d.webhooks
  unfolding process_invoice
  process_invoice-webhooks created i failing parsed r h =
      let (customer, e, h1) = >>=-eq-ok (required i.customer) _ h in
      let h2 = >>-eq-ok (throw_if (not (parsed.stripe_customer_id == customer)) mapping_error) h1 in
      let (resolved, e1, h3) = >>=-eq-ok (resolve_user clock parsed d) _ h2 in
      let p = projection_of parsed resolved.1 created in
      let (d1, e2, h4) = >>=-eq-ok (upsert_subscription clock p resolved.0) _ h3 in
      let (invoice, e3, h5) = >>=-eq-ok (parse_invoice i created) _ h4 in
      let (d2, e4, h6) = >>=-eq-ok (upsert_invoice clock resolved.1 invoice d1) _ h5 in
      ground (
        arith,
        h6,
        resolve_user-webhooks parsed resolved e1,
        upsert_subscription-webhooks clock p resolved.0 d1 e2,
        upsert_invoice-webhooks clock resolved.1 invoice d1 d2 e4,
      )

  process_checkout-webhooks :
      (session : ℕ) (end : CheckoutEnd) (r : Db × Option Effect)
      → process_checkout clock session end d ≡ ok r
      → r.0.webhooks ≡ d.webhooks
  unfolding process_checkout
  process_checkout-webhooks session end r h =
      ground (arith, mark_checkout_from_webhook-webhooks clock session end d)

  process_deletion-webhooks :
      (created : ℕ) (object : Option ℕ) (r : Db × Option Effect)
      → process_deletion clock created object d ≡ ok r
      → r.0.webhooks ≡ d.webhooks
  unfolding process_deletion
  process_deletion-webhooks created object r h =
      let (customer, e, h1) = >>=-eq-ok (required object) _ h in
      let (done, e1, h2) = >>=-eq-ok (mark_customer_deleted clock customer created d) _ h1 in
      ground (arith, h2, mark_customer_deleted-webhooks clock customer created d done e1)

process_event-webhooks :
    (clock : ℕ) (config : Config) (fetched : Option Parsed) (e : StripeEvent) (p : Payload) (d : Db)
    (r : Db × Option Effect)
    → process_event clock config fetched (record e { payload = p }) d ≡ ok r
    → r.0.webhooks ≡ d.webhooks
unfolding process_event
process_event-webhooks clock config fetched e (subscription_event s ending) d r h =
    process_subscription-webhooks clock d config (e.created * 1000) s ending r h
process_event-webhooks clock config none e (invoice_event i failing) d r h = ground arith
process_event-webhooks clock config (some parsed) e (invoice_event i failing) d r h =
    process_invoice-webhooks clock d (e.created * 1000) i failing parsed r h
process_event-webhooks clock config fetched e (checkout_event session end) d r h =
    process_checkout-webhooks clock d session end r h
process_event-webhooks clock config fetched e (customer_deleted object) d r h =
    process_deletion-webhooks clock d (e.created * 1000) object r h
process_event-webhooks clock config fetched e unsupported d r h = ground arith

intents_of-webhooks :
    (event : ℕ) (effect : Option Effect) (d : Db)
    → (intents_of event effect d).webhooks ≡ d.webhooks
intents_of-webhooks event none d = refl
intents_of-webhooks event (some effect) d = elim (Option-cases effect.notification) [
  | inl n ↦ rw n refl
  | inr (notice, n) ↦ rw n refl
]

settle-webhooks :
    (event : ℕ) (d : Db) (x : Result (Db × Option Effect)) (r : Db × Option Effect)
    → ((done : Db × Option Effect) → x ≡ ok done → done.0.webhooks ≡ d.webhooks)
    → settle event d x ≡ ok r
    → r.0.webhooks ≡ d.webhooks
settle-webhooks event d (ok (d', effect)) r keep h =
    ground (arith, keep (d', effect) refl, intents_of-webhooks event effect d')
settle-webhooks event d (err account_inactive) r keep h = ground arith
settle-webhooks event d (err mapping_error) r keep h = cc
settle-webhooks event d (err account_unavailable) r keep h = cc
settle-webhooks event d (err unique_violation) r keep h = cc
settle-webhooks event d (err foreign_key_violation) r keep h = cc
settle-webhooks event d (err plan_missing) r keep h = cc
settle-webhooks event d (err attempt_missing) r keep h = cc
settle-webhooks event d (err customer_conflict) r keep h = cc

-- The receipts after an event that is handled for the first time.
handle-webhooks :
    (clock : ℕ) (config : Config) (fetched : Option Parsed) (e : StripeEvent) (d : Db)
    (r : Db × Option Effect)
    → is_supported e.payload ≡ true
    → exists_where (is_webhook e.id) d.webhooks ≡ false
    → handle clock config fetched e d ≡ ok r
    → r.0.webhooks ≡ metadata_of e ∷ d.webhooks
unfolding handle process_webhook
handle-webhooks clock config fetched e d r supported new h =
    let received = record d { webhooks = metadata_of e ∷ d.webhooks } in
    let work = settle e.id received (process_event clock config fetched e received) in
    let h1 : ((work >>= λ (s : Db × Option Effect). ok (s.0, false, s.1))
          >>= λ (done : Db × Bool × Option Effect). ok (done.0, done.2))
        ≡ ok r =
      rw (supported, new) at h in
    let (done, h2, h3) =
      >>=-eq-ok (work >>= λ (s : Db × Option Effect). ok (s.0, false, s.1)) _ h1 in
    let (s, h4, h5) = >>=-eq-ok work _ h2 in
    let kept =
      settle-webhooks e.id received (process_event clock config fetched e received) s
        (λ x eq. process_event-webhooks clock config fetched e e.payload received x eq) h4 in
    ground (arith, kept, h3, h5)

handle-keeps :
    (clock id : ℕ) (config : Config) (fetched : Option Parsed) (e : StripeEvent) (d : Db)
    (r : Db × Option Effect)
    → handle clock config fetched e d ≡ ok r
    → exists_where (is_webhook id) d.webhooks ≡ true
    → exists_where (is_webhook id) r.0.webhooks ≡ true
unfolding handle exists_where
handle-keeps clock id config fetched e d r h seen = elim (Bool-cases (is_supported e.payload)) [
  | inl supported ↦ elim (Bool-cases (exists_where (is_webhook e.id) d.webhooks)) [
    | inl old ↦ ground (arith, supported, old)
    | inr new ↦ rw (handle-webhooks clock config fetched e d r supported new h) (ground arith)
  ]
  | inr other ↦ ground (arith, other)
]

-- An event with the answer that Stripe gave for its invoice, and the instant it is handled at.
pub record Delivered : Type 0 where
  pub handled_at : ℕ
  pub fetched : Option Parsed
  pub event : StripeEvent

pub handle_all : Config → List Delivered → Db → Result Db
handle_all config [] d = ok d
handle_all config (x ∷ xs) d = do
  r ← handle x.handled_at config x.fetched x.event d
  handle_all config xs r.0

handle_all-keeps :
    (id : ℕ) (config : Config) (xs : List Delivered) (d d' : Db)
    → handle_all config xs d ≡ ok d'
    → exists_where (is_webhook id) d.webhooks ≡ true
    → exists_where (is_webhook id) d'.webhooks ≡ true
unfolding handle_all
handle_all-keeps id config [] d d' h seen = ground (arith, seen)
handle_all-keeps id config (x ∷ xs) d d' h seen =
    let (r, h1, h2) = >>=-eq-ok (handle x.handled_at config x.fetched x.event d) _ h in
    handle_all-keeps id config xs r.0 d' h2
      (handle-keeps x.handled_at id config x.fetched x.event d r h1 seen)

handled-receipt :
    (clock : ℕ) (config : Config) (fetched : Option Parsed) (e : StripeEvent) (d : Db)
    (r : Db × Option Effect)
    → is_supported e.payload ≡ true
    → handle clock config fetched e d ≡ ok r
    → exists_where (is_webhook e.id) r.0.webhooks ≡ true
unfolding handle exists_where
handled-receipt clock config fetched e d r supported h =
    elim (Bool-cases (exists_where (is_webhook e.id) d.webhooks)) [
      | inl old ↦ ground (arith, supported, old)
      | inr new ↦
          rw (handle-webhooks clock config fetched e d r supported new h) (rw (==_self e.id) refl)
    ]

-- The effects of an event happen once. After it has been handled without a failure, and whatever
-- events are handled after it, handling it again writes nothing and tells the clients nothing.
pub handle_once :
    (clock : ℕ) (config : Config) (fetched : Option Parsed) (e : StripeEvent) (d : Db)
    (r : Db × Option Effect) (xs : List Delivered) (d' : Db)
    → handle clock config fetched e d ≡ ok r
    → handle_all config xs r.0 ≡ ok d'
    → (later : ℕ) (fetched' : Option Parsed) → handle later config fetched' e d' ≡ ok (d', none)
unfolding handle
handle_once clock config fetched e d r xs d' first rest later fetched' =
    elim (Bool-cases (is_supported e.payload)) [
      | inl supported ↦
          let seen =
            handle_all-keeps e.id config xs r.0 d' rest
              (handled-receipt clock config fetched e d r supported first) in
          rw (supported, seen) refl
      | inr other ↦ rw other refl
    ]
