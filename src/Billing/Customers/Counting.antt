-- ===== src/Billing/Customers/Counting.antt =====
-- The deletion of a customer counts its write to the subscription.
use histae_api.Prelude.{
  ℕ, Option, none, some, ◌≡◌, refl, arith, find_where, Option-cases, inl, inr, ◌&&◌, ◌||◌, is_null,
  at_or_before,
}
use histae_api.Billing.Models.{Db, Subscription, ok, ok-subst, >>-eq-ok}
use histae_api.Billing.Subscriptions.{of_user}
use histae_api.Billing.Customers.{
  mark_customer_deleted, after_deletion, is_stripe_customer, canceled_at_event,
  require_active_billing_account,
}
use histae_api.Billing.Versions.{row_of, Follows, update-Follows}

after_deletion-Follows :
    (clock event owner user : ℕ) (d : Db)
    → Follows
        (row_of user d.subscriptions)
        (row_of user (after_deletion clock event owner d).subscriptions)
after_deletion-Follows clock event owner user d =
    update-Follows user
      (λ (s : Subscription).
        of_user owner s
        && s.is_stripe
        && (is_null s.provider_snapshot_at || at_or_before s.provider_snapshot_at event))
      (canceled_at_event clock event) d.subscriptions (λ s. refl)
      (λ s row hit. (omega arith, ground arith))

pub mark_customer_deleted-Follows :
    (clock customer event user : ℕ) (d : Db) (r : Db × Option ℕ)
    → mark_customer_deleted clock customer event d ≡ ok r
    → Follows (row_of user d.subscriptions) (row_of user r.0.subscriptions)
unfolding mark_customer_deleted
mark_customer_deleted-Follows clock customer event user d r h =
    elim (Option-cases (find_where (is_stripe_customer customer) d.customers)) [
      | inl e ↦
          ok-subst (λ x. Follows (row_of user d.subscriptions) (row_of user x.0.subscriptions))
            (d, none) r (rw (e, mark_customer_deleted) at h) (inl refl)
      | inr (c, e) ↦
          ok-subst (λ x. Follows (row_of user d.subscriptions) (row_of user x.0.subscriptions))
            (after_deletion clock event c.user_id d, some c.user_id) r
            (>>-eq-ok (require_active_billing_account d c.user_id)
              (rw (e, mark_customer_deleted) at h))
            (after_deletion-Follows clock event c.user_id user d)
    ]
