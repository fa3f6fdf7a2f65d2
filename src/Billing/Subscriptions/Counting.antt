-- ===== src/Billing/Subscriptions/Counting.antt =====
-- A webhook of a subscription counts its write.
use histae_api.Prelude.{
  ℕ, true, Option, none, some, ◌∷◌, ◌≡◌, refl, arith, ◌≤◌, ◌<◌, update_where, Bool-cases, inl, inr,
  coalesce,
}
use histae_api.Billing.Models.{Db, Subscription, Projection, ok, ok-subst, is_known, is_deleted}
use histae_api.Billing.Subscriptions.{
  of_user, upsert_subscription, project, projected, reprojected, is_superseded, after_projection,
  is_owned_elsewhere, is_old_news,
}
use histae_api.Billing.Subscriptions.Ordering.{after_projection_lem}
use histae_api.Billing.Versions.{row_of, Follows, update_row-Follows, insert-Follows}

reprojected-counts :
    (clock : ℕ) (p : Projection) (s : Subscription)
    → is_superseded p s ≡ true
    → (s.projection_version < (reprojected clock p s).projection_version)
      × (coalesce s.provider_snapshot_at 0
          ≤ coalesce (reprojected clock p s).provider_snapshot_at 0)
unfolding is_superseded
reprojected-counts clock p s h = (omega arith, ground arith)

project-Follows :
    (clock user : ℕ) (p : Projection) (d d' : Db) (o : Option Subscription)
    → row_of p.user_id d.subscriptions ≡ o
    → project clock p d o ≡ ok d'
    → Follows (row_of user d.subscriptions) (row_of user d'.subscriptions)
unfolding project
project-Follows clock user p d d' none row h =
    let t = projected clock p ∷ d.subscriptions in
    elim (Bool-cases (is_owned_elsewhere p d.subscriptions)) [
      | inl e ↦ absurd (ground (arith, e))
      | inr e ↦ elim (Bool-cases (is_known d p.user_id)) [
        | inr k ↦ absurd (ground (arith, e, k))
        | inl k ↦
            ok-subst (λ x. Follows (row_of user d.subscriptions) (row_of user x.subscriptions))
              (after_projection clock p (record d { subscriptions = t })) d'
              (rw (e, k, project) at h)
              (rw (after_projection_lem clock p (record d { subscriptions = t })).1
                (insert-Follows user (projected clock p) d.subscriptions row))
      ]
    ]
project-Follows clock user p d d' (some s) row h = elim (Bool-cases (is_superseded p s)) [
  | inr e ↦ elim (Bool-cases (is_old_news p s)) [
    | inl old ↦
        ok-subst (λ x. Follows (row_of user d.subscriptions) (row_of user x.subscriptions)) d d'
          (rw (e, old, project) at h) (inl refl)
    | inr other ↦ absurd (ground (arith, e, other))
  ]
  | inl newer ↦ elim (Bool-cases (is_owned_elsewhere p d.subscriptions)) [
    | inl e ↦ absurd (ground (arith, newer, e))
    | inr e ↦
        let t = update_where (of_user p.user_id) (reprojected clock p) d.subscriptions in
        ok-subst (λ x. Follows (row_of user d.subscriptions) (row_of user x.subscriptions))
          (after_projection clock p (record d { subscriptions = t })) d'
          (rw (newer, e, project) at h)
          (rw (after_projection_lem clock p (record d { subscriptions = t })).1 (
            update_row-Follows user p.user_id (reprojected clock p) d.subscriptions s row
              (λ r. refl) (reprojected-counts clock p s newer)))
  ]
]

pub upsert_subscription-Follows :
    (clock user : ℕ) (p : Projection) (d d' : Db)
    → upsert_subscription clock p d ≡ ok d'
    → Follows (row_of user d.subscriptions) (row_of user d'.subscriptions)
unfolding upsert_subscription
upsert_subscription-Follows clock user p d d' h = elim (Bool-cases (is_deleted d p.user_id)) [
  | inl gone ↦ absurd (ground (arith, gone))
  | inr live ↦
      project-Follows clock user p d d' (row_of p.user_id d.subscriptions) refl
        (rw (live, upsert_subscription) at h)
]
