-- ===== src/Billing/Subscriptions/Ordering.antt =====
-- The webhooks of one subscription, in whatever order Stripe delivers them.
mod Tests
use histae_api.Prelude.{
  ℕ, Bool, true, false, Option, none, some, List, [], ◌∷◌, ◌≡◌, refl, arith, All, ◌==◌, ◌&&◌, not,
  find_where, update_where, exists_where, find_where_rewritten, exists_where-update_where_kept, ◌∙◌,
  Option-cases, Bool-cases, inl, inr, ==_self, ap, sym, if◌then◌else◌, max, is_null, holds,
  at_or_before,
}
use histae_api.Billing.Models.{
  Subscription, Projection, Db, Result, ok, is_known, is_deleted, is_final,
}
use histae_api.Billing.Latest.{
  is_up_to, Latest, deliver_all, deliver_all-Latest, Latest-newer, Latest-older,
}
use histae_api.Billing.Subscriptions.{
  of_user, projected, reprojected, is_superseded, is_old_news, is_owned_elsewhere, after_projection,
  project, upsert_subscription,
}

-- One webhook: the instant at which it is handled, and what it tells of the subscription.
pub record Delivery : Type 0 where
  pub handled_at : ℕ
  pub projection : Projection

abbrev pub deliver : Delivery → Db → Result Db
deliver x d = upsert_subscription x.handled_at x.projection d

-- The instant of the event, and its rank at that instant: a final status ranks higher.
abbrev pub key : Delivery → ℕ × ℕ
key x = (x.projection.event_created_at, if is_final x.projection.status then 1 else 0)

-- The row holds what the projection says, as of the instant of its event.
abbrev pub Holds : Projection → Subscription → Type 0
Holds p s =
    (record (reprojected s.updated_at p s) {
      projection_version = s.projection_version;
      provider_snapshot_at = s.provider_snapshot_at;
    }
      ≡ s)
    × (s.provider_snapshot_at ≡ some p.event_created_at)

-- The account is there, no other has the subscription, and its row shows the delivery.
abbrev pub IsShown : ℕ → ℕ → Delivery → Db → Type 0
IsShown user id x d =
    (is_deleted d user ≡ false)
    × (exists_where
          (λ (s : Subscription). not (s.user_id == user) && holds s.provider_subscription_id id)
          d.subscriptions
        ≡ false)
    × (x.projection.stripe_subscription_id ≡ id)
    × ((s : Subscription) × (find_where (of_user user) d.subscriptions ≡ some s)
        × Holds x.projection s)

abbrev pub IsAbout : ℕ → ℕ → Delivery → Type 0
IsAbout user id x = (x.projection.user_id ≡ user) × (x.projection.stripe_subscription_id ≡ id)

module _ (q x : Delivery) (s : Subscription)
    (owned : s.provider_subscription_id ≡ some x.projection.stripe_subscription_id)
    (event : s.provider_event_created_at ≡ some q.projection.event_created_at)
    (snapshot : s.provider_snapshot_at ≡ some q.projection.event_created_at)
    (status : s.status ≡ some q.projection.status) where
  superseded_key : is_superseded x.projection s ≡ true → is_up_to (key q) (key x) ≡ true
  unfolding is_superseded
  superseded_key newer = ground arith

  kept_key : is_superseded x.projection s ≡ false → is_up_to (key x) (key q) ≡ true
  unfolding is_superseded
  kept_key older = ground arith

  kept_old : is_superseded x.projection s ≡ false → is_old_news x.projection s ≡ true
  unfolding is_superseded is_old_news
  kept_old older = ground arith

  snapshot_after :
      is_superseded x.projection s ≡ true
      → (reprojected x.handled_at x.projection s).provider_snapshot_at
        ≡ some x.projection.event_created_at
  unfolding is_superseded
  snapshot_after newer = ground arith

pub after_projection_lem :
    (clock : ℕ) (p : Projection) (d : Db)
    → ((after_projection clock p d).accounts ≡ d.accounts)
      × ((after_projection clock p d).subscriptions ≡ d.subscriptions)
after_projection_lem clock p d = elim (Option-cases p.trial_starts_at) [
  | inl e ↦ rw e (refl, refl)
  | inr (t, e) ↦ rw e (refl, refl)
]

-- A table with the accounts of one and the subscriptions of another shows what they show.
abbrev RowShown : ℕ → ℕ → Delivery → List Subscription → Type 0
RowShown user id x rows =
    (exists_where
        (λ (s : Subscription). not (s.user_id == user) && holds s.provider_subscription_id id) rows
      ≡ false)
    × (x.projection.stripe_subscription_id ≡ id)
    × ((s : Subscription) × (find_where (of_user user) rows ≡ some s) × Holds x.projection s)

IsShown-after :
    (user id : ℕ) (x : Delivery) (d : Db)
    → is_deleted d user ≡ false
    → RowShown user id x d.subscriptions
    → IsShown user id x (after_projection x.handled_at x.projection d)
IsShown-after user id x d live shown =
    let (accounts, rows) = after_projection_lem x.handled_at x.projection d in
    rw (accounts, rows) (live, shown.0, shown.1, shown.2)

deliver-IsShown :
    (user id : ℕ) (q x : Delivery) (d : Db)
    → IsAbout user id x
    → IsShown user id q d
    → (d' : Db) × (deliver x d ≡ ok d')
      × (r : Delivery) × Latest key (q ∷ x ∷ []) r
      × IsShown user id r d'
unfolding upsert_subscription project
deliver-IsShown user id q x d (mine, same) (live, single, whose, (s, found, (holds_q, snap))) =
    let owned : s.provider_subscription_id ≡ some x.projection.stripe_subscription_id =
      sym (ap (λ r. r.provider_subscription_id) holds_q) ∙ ap some (whose ∙ sym same) in
    let event : s.provider_event_created_at ≡ some q.projection.event_created_at =
      sym (ap (λ r. r.provider_event_created_at) holds_q) in
    let status : s.status ≡ some q.projection.status = sym (ap (λ r. r.status) holds_q) in
    elim (Bool-cases (is_superseded x.projection s)) [
      | inl newer ↦
          let t =
            update_where (of_user user) (reprojected x.handled_at x.projection) d.subscriptions in
          let s' = reprojected x.handled_at x.projection s in
          (
            after_projection x.handled_at x.projection (record d { subscriptions = t }),
            rw (mine, live, found, newer, same, single) refl,
            x,
            Latest-newer key q x (superseded_key q x s owned event snap status newer),
            IsShown-after user id x (record d { subscriptions = t }) live
                (
                  exists_where-update_where_kept
                      (λ (r : Subscription).
                        not (r.user_id == user) && holds r.provider_subscription_id id)
                      (of_user user) (reprojected x.handled_at x.projection) d.subscriptions
                      (λ r e. rw e refl) single,
                  same,
                  (
                    s',
                    find_where_rewritten (of_user user) (reprojected x.handled_at x.projection)
                        d.subscriptions s (λ r. refl) found,
                    (refl, snapshot_after q x s owned event snap status newer),
                  ),
                ),
          )
      | inr older ↦ (
        d,
        rw (mine, live, found, older, kept_old q x s owned event snap status older) refl,
        q,
        Latest-older key q x (kept_key q x s owned event snap status older),
        (live, single, whose, (s, found, (holds_q, snap))),
      )
    ]

abbrev first_db : Delivery → Db → Db
first_db x d =
    after_projection x.handled_at x.projection
      (record d { subscriptions = projected x.handled_at x.projection ∷ d.subscriptions })

first_delivery :
    (user id : ℕ) (d : Db) (x : Delivery)
    → is_known d user ≡ true
    → is_deleted d user ≡ false
    → find_where (of_user user) d.subscriptions ≡ none
    → exists_where
        (λ (s : Subscription). not (s.user_id == user) && holds s.provider_subscription_id id)
        d.subscriptions
      ≡ false
    → IsAbout user id x
    → deliver x d ≡ ok (first_db x d)
unfolding upsert_subscription project
first_delivery user id d x known live fresh single (mine, same) =
    rw (mine, live, fresh, same, single, known) refl

-- The webhooks of one subscription may come in any order. However many of them are handled, all
-- succeed, and afterwards the row of the account holds what the latest of them says: no other has a
-- later instant, and none at the same instant a final status unless this one has. The account must
-- be there and not deleted, without a row before, and no other account own the subscription.
pub subscription-Latest :
    (user id : ℕ) (d : Db) (x : Delivery) (xs : List Delivery)
    → is_known d user ≡ true
    → is_deleted d user ≡ false
    → find_where (of_user user) d.subscriptions ≡ none
    → exists_where
        (λ (s : Subscription). not (s.user_id == user) && holds s.provider_subscription_id id)
        d.subscriptions
      ≡ false
    → All (IsAbout user id) (x ∷ xs)
    → (d' : Db) × (deliver_all deliver (x ∷ xs) d ≡ ok d')
      × (q : Delivery) × Latest key (x ∷ xs) q
      × IsShown user id q d'
unfolding deliver_all find_where exists_where
subscription-Latest user id d x xs known live fresh single about =
    let row = projected x.handled_at x.projection in
    let (mine, same) = about.0 in
    let d1 = record d { subscriptions = row ∷ d.subscriptions } in
    let first = first_delivery user id d x known live fresh single about.0 in
    let shown : IsShown user id x (first_db x d) =
      IsShown-after user id x d1 live
        (rw (mine, ==_self user) single, same, (row, rw (mine, ==_self user) refl, (refl, refl))) in
    let (d2, e2, r, latest, shown2) =
      deliver_all-Latest key deliver (IsAbout user id) (IsShown user id) (deliver-IsShown user id) x
        xs (first_db x d) about.1 shown in
    (d2, rw first e2, r, latest, shown2)
