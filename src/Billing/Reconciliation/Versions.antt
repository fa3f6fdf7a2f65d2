-- ===== src/Billing/Reconciliation/Versions.antt =====
-- A reconciliation reads the version of a subscription, asks Stripe, and writes only if the version is
-- still the same.
mod Tests
use histae_api.Prelude.{
  ℕ, Bool, true, false, not, Option, none, some, List, [], ◌∷◌, ◌≡◌, ◌∙◌, refl, sym, ap, arith,
  ◌==◌, ◌≤◌, ◌<◌, ◌+◌, find_where, update_where, Bool-cases, Option-cases, inl, inr, coalesce,
  some-subst, find_where-some,
}
use histae_api.Billing.Models.{
  Db, Subscription, Projection, Result, ok, err, Customer, SubscriptionStatus,
}
use histae_api.Billing.Subscriptions.{of_user, upsert_subscription}
use histae_api.Billing.Subscriptions.Counting.{upsert_subscription-Follows}
use histae_api.Billing.Customers.{mark_customer_deleted}
use histae_api.Billing.Customers.Counting.{mark_customer_deleted-Follows}
use histae_api.Billing.Versions.{
  row_of, writes, Follows, Follows-trans, update_row-Follows, insert-Follows,
}
use histae_api.Billing.Reconciliation.{
  Snapshot, SubscriptionContext, subscription_context, apply_subscription, apply_current,
  apply_rows, Applied, applied, version_of, is_stale, same_version, reconciled, rereconciled, ended,
  live_customer_of, is_owned_elsewhere,
}

-- The commands that write subscriptions; one that fails is rolled back.
pub data Command : Type 0 where
  webhook : ℕ → Projection → Command
  customer_deletion : ℕ → ℕ → ℕ → Command
  reconciliation : ℕ → Snapshot → Command

abbrev committed : Db → Result Db → Db
committed d (ok d') = d'
committed d (err e) = d

abbrev committed_first : Db → Result (Db × Option ℕ) → Db
committed_first d (ok r) = r.0
committed_first d (err e) = d

pub run_command : Command → Db → Db
run_command (webhook clock p) d = committed d (upsert_subscription clock p d)
run_command (customer_deletion clock customer event) d =
    committed_first d (mark_customer_deleted clock customer event d)
run_command (reconciliation clock x) d = (apply_subscription clock x d).0

pub run_commands : List Command → Db → Db
unfolding run_command
run_commands [] d = d
run_commands (c ∷ cs) d = run_commands cs (run_command c d)

module _ (clock user : ℕ) (x : Snapshot) (t : List Subscription) where
  rows-Follows :
      (p : Option Projection) (o : Option Subscription) (t' : List Subscription)
      → row_of x.context.user_id t ≡ o
      → is_stale x o ≡ false
      → apply_rows clock x.snapshot_at x.context.user_id p o t ≡ some t'
      → Follows (row_of user t) (row_of user t')
  unfolding apply_rows is_stale
  rows-Follows (some p) none t' row fresh h =
      let mine = record p { user_id = x.context.user_id } in
      elim (Bool-cases (is_owned_elsewhere mine t)) [
        | inl e ↦ absurd (ground (arith, e))
        | inr e ↦
            some-subst (λ y. Follows (row_of user t) (row_of user y))
              (reconciled clock x.snapshot_at mine ∷ t) t' (rw (e, apply_rows) at h)
              (insert-Follows user (reconciled clock x.snapshot_at mine) t row)
      ]
  rows-Follows (some p) (some s) t' row fresh h =
      let mine = record p { user_id = x.context.user_id } in
      elim (Bool-cases (is_owned_elsewhere mine t)) [
        | inl e ↦ absurd (ground (arith, e))
        | inr e ↦
            some-subst (λ y. Follows (row_of user t) (row_of user y))
              (update_where (of_user x.context.user_id) (rereconciled clock x.snapshot_at p) t) t'
              (rw (e, apply_rows) at h)
              (update_row-Follows user x.context.user_id (rereconciled clock x.snapshot_at p) t s
                row (λ r. refl) (omega arith, ground arith))
      ]
  rows-Follows none none t' row fresh h = inl (ground arith)
  rows-Follows none (some s) t' row fresh h = elim (Bool-cases s.is_stripe) [
    | inl e ↦
        some-subst (λ y. Follows (row_of user t) (row_of user y))
          (update_where (of_user x.context.user_id) (ended clock x.snapshot_at) t) t'
          (rw (e, apply_rows) at h)
          (update_row-Follows user x.context.user_id (ended clock x.snapshot_at) t s row (λ r. refl)
            (omega arith, ground arith))
    | inr e ↦ inl (ground (arith, e))
  ]

apply_current-Follows :
    (clock user : ℕ) (x : Snapshot) (d : Db) (o : Option Subscription)
    → row_of x.context.user_id d.subscriptions ≡ o
    → Follows
        (row_of user d.subscriptions)
        (row_of user (apply_current clock x d o).0.subscriptions)
unfolding apply_current
apply_current-Follows clock user x d o row = elim (Bool-cases (is_stale x o)) [
  | inl e ↦ rw e (inl refl)
  | inr e ↦
      elim (Option-cases
        (apply_rows clock x.snapshot_at x.context.user_id x.projection o d.subscriptions)) [
          | inl n ↦ rw (e, n) (inl refl)
          | inr (t, n) ↦
              rw (e, n) (rows-Follows clock user x d.subscriptions x.projection o t row e n)
        ]
]

apply_subscription-Follows :
    (clock user : ℕ) (x : Snapshot) (d : Db)
    → Follows
        (row_of user d.subscriptions)
        (row_of user (apply_subscription clock x d).0.subscriptions)
unfolding apply_subscription
apply_subscription-Follows clock user x d =
    elim (Option-cases (find_where (live_customer_of d x.context.user_id) d.customers)) [
      | inl e ↦ rw (e, apply_subscription) (inl refl)
      | inr (c, e) ↦ elim (Bool-cases (c.stripe_customer_id == x.context.stripe_customer_id)) [
        | inr other ↦ rw (e, other, apply_subscription) (inl refl)
        | inl same ↦
            rw (e, same, apply_subscription)
              (apply_current-Follows clock user x d (row_of x.context.user_id d.subscriptions) refl)
      ]
    ]

-- An answer that the snapshot was applied is given on the version that was read.
applied_fresh :
    (clock : ℕ) (x : Snapshot) (d d' : Db) (before after : Option SubscriptionStatus)
    → apply_subscription clock x d ≡ (d', applied before after)
    → is_stale x (row_of x.context.user_id d.subscriptions) ≡ false
unfolding apply_subscription apply_current
applied_fresh clock x d d' before after h = ground arith

webhook-Follows :
    (user : ℕ) (d : Db) (r : Result Db)
    → ((d' : Db) → r ≡ ok d' → Follows (row_of user d.subscriptions) (row_of user d'.subscriptions))
    → Follows (row_of user d.subscriptions) (row_of user (committed d r).subscriptions)
webhook-Follows user d (ok d') follows = follows d' refl
webhook-Follows user d (err e) follows = inl refl

deletion-Follows :
    (user : ℕ) (d : Db) (r : Result (Db × Option ℕ))
    → ((x : Db × Option ℕ)
        → r ≡ ok x
        → Follows (row_of user d.subscriptions) (row_of user x.0.subscriptions))
    → Follows (row_of user d.subscriptions) (row_of user (committed_first d r).subscriptions)
deletion-Follows user d (ok x) follows = follows x refl
deletion-Follows user d (err e) follows = inl refl

run_command-Follows :
    (user : ℕ) (c : Command) (d : Db)
    → Follows (row_of user d.subscriptions) (row_of user (run_command c d).subscriptions)
unfolding run_command
run_command-Follows user (webhook clock p) d =
    webhook-Follows user d (upsert_subscription clock p d)
      (λ d' h. upsert_subscription-Follows clock user p d d' h)
run_command-Follows user (customer_deletion clock customer event) d =
    deletion-Follows user d (mark_customer_deleted clock customer event d)
      (λ r h. mark_customer_deleted-Follows clock customer event user d r h)
run_command-Follows user (reconciliation clock x) d = apply_subscription-Follows clock user x d

-- Whatever webhooks, deletions of customers and reconciliations run, the row of an account stays as
-- it is, or it is written: then its version is greater, and what it shows is not older.
pub run_commands-Follows :
    (user : ℕ) (cs : List Command) (d : Db)
    → Follows (row_of user d.subscriptions) (row_of user (run_commands cs d).subscriptions)
unfolding run_commands
run_commands-Follows user [] d = inl refl
run_commands-Follows user (c ∷ cs) d =
    Follows-trans (row_of user d.subscriptions) (row_of user (run_command c d).subscriptions)
      (row_of user (run_commands cs (run_command c d)).subscriptions) (run_command-Follows user c d)
      (run_commands-Follows user cs (run_command c d))

unchanged :
    (o o' : Option Subscription)
    → Follows o o'
    → same_version (version_of o') (version_of o) ≡ true
    → o' ≡ o
unchanged o o' (inl e) h = e
unchanged none none (inr w) h = refl
unchanged none (some s) (inr w) h = cc
unchanged (some s) none (inr w) h = cc
unchanged (some s) (some s') (inr w) h = absurd (ground arith)

-- A reconciliation never overwrites what it has not seen. It reads the context of an account, then
-- webhooks, deletions of customers and other reconciliations may run while Stripe is asked; if the
-- snapshot is applied in the end, the subscription of the account was untouched since the reading.
pub applied_unchanged :
    (user : ℕ) (d : Db) (x : Snapshot) (cs : List Command) (clock : ℕ) (d' : Db)
    (before after : Option SubscriptionStatus)
    → subscription_context d user ≡ some x.context
    → apply_subscription clock x (run_commands cs d) ≡ (d', applied before after)
    → row_of user (run_commands cs d).subscriptions ≡ row_of user d.subscriptions
unfolding subscription_context is_stale
applied_unchanged user d x cs clock d' before after read done =
    elim (Option-cases (find_where (live_customer_of d user) d.customers)) [
      | inl e ↦ absurd (ground (arith, e))
      | inr (c, e) ↦
          let mine : c.user_id ≡ user =
            let (here, hit) = find_where-some (live_customer_of d user) d.customers c e in
            ground arith in
          let context : some (record {
            user_id = c.user_id;
            stripe_customer_id = c.stripe_customer_id;
            projection_version = version_of (row_of c.user_id d.subscriptions);
          })
              ≡ some x.context =
            rw (e, subscription_context) at read in
          let owner : x.context.user_id ≡ user = ground arith in
          let version : x.context.projection_version ≡ version_of (row_of user d.subscriptions) =
            rw (← mine) (ground arith) in
          let fresh = applied_fresh clock x (run_commands cs d) d' before after done in
          let fresh' : is_stale x (row_of user (run_commands cs d).subscriptions) ≡ false =
            rw (← owner) fresh in
          unchanged (row_of user d.subscriptions) (row_of user (run_commands cs d).subscriptions)
            (run_commands-Follows user cs d) (rw (← version) (ground (arith, fresh')))
    ]
