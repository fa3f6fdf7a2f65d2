-- ===== src/Billing/Checkout/Starting.antt =====
-- `beginCheckout`, guarded.
mod Tests
use histae_api.Prelude.{
  ℕ, Bool, true, false, not, Option, none, some, List, ◌∷◌, ◌≡◌, refl, sym, arith, ◌==◌, ◌&&◌, ltb,
  exists_where, find_where, count_where, update_where, Bool-cases, Option-cases, inl, inr, In,
  exists_where_of_In, In-update_where, find_where-some, leb, if◌then◌else◌, In-update_where_moved,
}
use histae_api.Billing.Models.{
  Db, Checkout, Result, ok, err, is_live, creating, CheckoutStatus, ok-subst,
}
use histae_api.Billing.Subscriptions.{has_active_subscription}
use histae_api.Billing.Customers.{has_id}
use histae_api.Billing.Checkout.{
  begin_checkout, guarded_attempt, start_attempt, previous_answer, replay_session, Request,
  BeginResult, created, retry, replay, in_progress, Context, checkout_context,
  has_unresolved_customer, is_live_of, is_keyed, new_checkout, restarted, end_stale, is_creating,
  is_open, lapsed, abandoned,
}
use histae_api.Billing.Checkout.Live.{
  IsSound, end_stale-IsSound, restarted-IsSound, new_checkout-IsSound,
}

abbrev context_of : BeginResult → Option Context
context_of (created c) = some c
context_of (retry c) = some c
context_of _ = none

-- The attempt that was started stands in the table.
abbrev is_started : Request → ℕ → Checkout → Bool
is_started r id c = c.id == id && is_keyed r.user_id r.idempotency_key c && is_creating c.status

-- What the tables hold after an answer that starts an attempt.
abbrev HasStarted : Request → Db × BeginResult → Type 0
HasStarted r x =
    (c : Context)
    → context_of x.1 ≡ some c
    → exists_where (is_started r c.attempt_id) x.0.checkouts ≡ true

-- No premium subscription that runs at the instant of a request which starts an attempt.
abbrev IsFree : Request → Db → BeginResult → Type 0
IsFree r d answer =
    (c : Context) → context_of answer ≡ some c → has_active_subscription d r.user_id r.now ≡ false

context-attempt :
    (d : Db) (user attempt : ℕ) (c : Context)
    → checkout_context d user attempt ≡ some c
    → c.attempt_id ≡ attempt
unfolding checkout_context
context-attempt d user attempt c h = ground arith

module _ (clock : ℕ) (r : Request) (d : Db) (x : Db × BeginResult)
    (none_live : exists_where (is_live_of r.user_id) d.checkouts ≡ false)
    (s : IsSound d.checkouts) where
  new_attempt : start_attempt clock r d none ≡ ok x → IsSound x.0.checkouts × HasStarted r x
  unfolding start_attempt exists_where
  new_attempt h = elim (Option-cases (checkout_context d r.user_id r.attempt_id)) [
    | inl e ↦ absurd (ground (arith, e))
    | inr (c, e) ↦ elim (Bool-cases (exists_where (has_id r.attempt_id) d.checkouts)) [
      | inl taken ↦ absurd (ground (arith, e, taken))
      | inr fresh ↦
          ok-subst (λ y. IsSound y.0.checkouts × HasStarted r y)
            (record d { checkouts = new_checkout clock r ∷ d.checkouts }, created c) x
            (rw (e, fresh, start_attempt) at h)
            (
              new_checkout-IsSound clock r d.checkouts none_live fresh s,
              λ k same. ground (arith, same, context-attempt d r.user_id r.attempt_id c e),
            )
    ]
  ]

  same_attempt :
      (p q : Checkout)
      → In q d.checkouts
      → is_keyed r.user_id r.idempotency_key q ≡ true
      → q.id ≡ p.id
      → start_attempt clock r d (some p) ≡ ok x
      → IsSound x.0.checkouts × HasStarted r x
  unfolding start_attempt
  same_attempt p q here keyed same h =
      let hit = λ (c : Checkout). c.user_id == r.user_id && c.id == p.id in
      elim (Option-cases (checkout_context d r.user_id p.id)) [
        | inl e ↦ absurd (ground (arith, e))
        | inr (c, e) ↦
            ok-subst (λ y. IsSound y.0.checkouts × HasStarted r y)
              (record d { checkouts = update_where hit (restarted clock r) d.checkouts }, retry c) x
              (rw (e, start_attempt) at h)
              (
                restarted-IsSound clock p.id r d.checkouts none_live s,
                λ k told.
                    exists_where_of_In (restarted clock r q) (is_started r k.attempt_id)
                      (update_where hit (restarted clock r) d.checkouts)
                      (In-update_where q hit (restarted clock r) d.checkouts here
                        (ground (arith, same, keyed)))
                      (ground (arith, told, same, keyed, context-attempt d r.user_id p.id c e)),
              )
      ]

  started_attempt :
      (o : Option Checkout)
      → ((p : Checkout)
          → o ≡ some p
          → (q : Checkout) × In q d.checkouts
            × (is_keyed r.user_id r.idempotency_key q ≡ true)
            × (q.id ≡ p.id))
      → start_attempt clock r d o ≡ ok x
      → IsSound x.0.checkouts × HasStarted r x
  started_attempt none moved h = new_attempt h
  started_attempt (some p) moved h =
      let (q, here, keyed, same) = moved p refl in same_attempt p q here keyed same h

-- The attempt with the key, after the stale checkouts are ended.
moved_attempt :
    (clock : ℕ) (r : Request) (t : List Checkout) (p : Checkout)
    → find_where (is_keyed r.user_id r.idempotency_key) t ≡ some p
    → (q : Checkout) × In q (end_stale clock r.user_id r.now r.stale_before t)
      × (is_keyed r.user_id r.idempotency_key q ≡ true)
      × (q.id ≡ p.id)
unfolding end_stale
moved_attempt clock r t p found =
    let user = r.user_id in
    let (here, keyed) = find_where-some (is_keyed user r.idempotency_key) t p found in
    let due = λ (c : Checkout). c.user_id == user && is_open c.status && leb c.expires_at r.now in
    let silent = λ (c : Checkout).
      c.user_id == user && is_creating c.status && leb c.updated_at r.stale_before in
    let p1 = if due p then lapsed clock p else p in
    let p2 = if silent p1 then abandoned clock p1 else p1 in
    (
      p2,
      In-update_where_moved p1 silent (abandoned clock) (update_where due (lapsed clock) t)
          (In-update_where_moved p due (lapsed clock) t here),
      ground (arith, keyed),
      ground arith,
    )

module _ (clock : ℕ) (r : Request) (d : Db) (x : Db × BeginResult) (s : IsSound d.checkouts) where
  guarded :
      (o : Option Checkout)
      → ((p : Checkout)
          → o ≡ some p
          → (q : Checkout) × In q d.checkouts
            × (is_keyed r.user_id r.idempotency_key q ≡ true)
            × (q.id ≡ p.id))
      → guarded_attempt clock r d o ≡ ok x
      → IsSound x.0.checkouts × HasStarted r x × IsFree r d x.1
  unfolding guarded_attempt
  guarded o moved h = elim (Bool-cases (has_active_subscription d r.user_id r.now)) [
    | inl e ↦
        ok-subst (λ y. IsSound y.0.checkouts × HasStarted r y × IsFree r d y.1) _ x
          (rw (e, guarded_attempt) at h) (s, λ c k. cc, λ c k. cc)
    | inr free ↦ elim (Bool-cases (exists_where (is_live_of r.user_id) d.checkouts)) [
      | inl e ↦
          ok-subst (λ y. IsSound y.0.checkouts × HasStarted r y × IsFree r d y.1) _ x
            (rw (free, e, guarded_attempt) at h) (s, λ c k. cc, λ c k. cc)
      | inr none_live ↦ elim (Bool-cases (has_unresolved_customer d r.user_id o)) [
        | inl e ↦
            ok-subst (λ y. IsSound y.0.checkouts × HasStarted r y × IsFree r d y.1) _ x
              (rw (free, none_live, e, guarded_attempt) at h) (s, λ c k. cc, λ c k. cc)
        | inr clear ↦
            let start : start_attempt clock r d o ≡ ok x =
              rw (free, none_live, clear, guarded_attempt) at h in
            let (sound, started) = started_attempt clock r d x none_live s o moved start in
            (sound, started, λ c k. free)
      ]
    ]
  ]

previous_answer-starts :
    (r : Request) (o : Option Checkout) (answer : BeginResult)
    → previous_answer r.billing_period r.now r.stale_before o ≡ some answer
    → context_of answer ≡ none
unfolding previous_answer
previous_answer-starts r none answer h = cc
previous_answer-starts r (some p) answer h = ground arith

-- Starting a checkout keeps the table sound: no account gets two checkouts that are being created or
-- open, and no two checkouts one identifier. When the answer is to go on, as a new attempt or as a
-- retry, the attempt that it names stands in the table, being created, under the key of the request,
-- and the account had no premium subscription running at that instant.
pub begin_checkout_lem :
    (clock : ℕ) (r : Request) (d : Db) (x : Db × BeginResult)
    → IsSound d.checkouts
    → begin_checkout clock r d ≡ ok x
    → IsSound x.0.checkouts × HasStarted r x × IsFree r d x.1
unfolding begin_checkout has_active_subscription
begin_checkout_lem clock r d x s h =
    let previous = find_where (is_keyed r.user_id r.idempotency_key) d.checkouts in
    let ended = record d {
      checkouts = end_stale clock r.user_id r.now r.stale_before d.checkouts;
    } in
    elim (Bool-cases (exists_where (is_live r.user_id) d.accounts)) [
      | inr gone ↦
          ok-subst (λ y. IsSound y.0.checkouts × HasStarted r y × IsFree r d y.1) _ x (rw gone at h)
            (s, λ c k. cc, λ c k. cc)
      | inl live ↦
          elim (Option-cases (previous_answer r.billing_period r.now r.stale_before previous)) [
            | inr (answer, e) ↦
                ok-subst (λ y. IsSound y.0.checkouts × HasStarted r y × IsFree r d y.1) _ x
                  (rw (live, e) at h)
                  (
                    s,
                    λ c k. cc (previous_answer-starts r previous answer e),
                    λ c k. cc (previous_answer-starts r previous answer e),
                  )
            | inl e ↦
                let guard : guarded_attempt clock r ended previous ≡ ok x = rw (live, e) at h in
                guarded clock r ended x
                  (end_stale-IsSound clock r.user_id r.now r.stale_before d.checkouts s) previous
                  (λ p found. moved_attempt clock r d.checkouts p found) guard
          ]
    ]
