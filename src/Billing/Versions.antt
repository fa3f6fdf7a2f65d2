-- ===== src/Billing/Versions.antt =====
-- `projection_version` counts the writes to the subscription of an account, and
-- `provider_snapshot_at` is the instant of what its row shows.
use histae_api.Prelude.{
  ℕ, Bool, true, Option, none, some, List, ◌≡◌, ◌∙◌, refl, arith, ◌≤◌, ◌<◌, ◌+◌, find_where,
  update_where, find_where-update_where, Bool-cases, Option-cases, inl, inr, coalesce, ◌⊎◌, ==_iff,
  find_where-some, sym, subst, ◌∷◌, ◌==◌,
}
use histae_api.Billing.Models.{Subscription}
use histae_api.Billing.Subscriptions.{of_user}

abbrev pub row_of : ℕ → List Subscription → Option Subscription
row_of user t = find_where (of_user user) t

-- How often the row was written, and the instant of what it shows.
abbrev pub writes : Option Subscription → ℕ
writes none = 0
writes (some s) = s.projection_version + 1

abbrev pub instant : Option Subscription → ℕ
instant none = 0
instant (some s) = coalesce s.provider_snapshot_at 0

-- A row is left as it was, or written, and then counted and not older.
abbrev pub Follows : Option Subscription → Option Subscription → Type 0
Follows o o' = (o' ≡ o) ⊎ ((writes o < writes o') × (instant o ≤ instant o'))

pub Follows-trans : (a b c : Option Subscription) → Follows a b → Follows b c → Follows a c
Follows-trans a b c (inl e) (inl e') = inl (e' ∙ e)
Follows-trans a b c (inl e) (inr h) = inr (rw (← e) h)
Follows-trans a b c (inr h) (inl e') = inr (rw e' h)
Follows-trans a b c (inr h) (inr h') = inr (omega arith, omega arith)

-- An UPDATE that counts the row that the account has, if it writes it.
pub update-Follows :
    (user : ℕ) (q : Subscription → Bool) (f : Subscription → Subscription) (t : List Subscription)
    → ((s : Subscription) → (f s).user_id ≡ s.user_id)
    → ((s : Subscription)
        → row_of user t ≡ some s
        → q s ≡ true
        → (s.projection_version < (f s).projection_version)
          × (coalesce s.provider_snapshot_at 0 ≤ coalesce (f s).provider_snapshot_at 0))
    → Follows (row_of user t) (row_of user (update_where q f t))
update-Follows user q f t keep counts =
    rw (find_where-update_where (of_user user) q f t (λ s. rw (keep s) refl))
      (elim (Option-cases (row_of user t)) [
        | inl e ↦ rw e (inl refl)
        | inr (s, e) ↦ elim (Bool-cases (q s)) [
          | inl hit ↦
              let (version, later) = counts s e hit in rw (e, hit) (inr (omega arith, later))
          | inr miss ↦ rw (e, miss) (inl refl)
        ]
      ])

-- The UPDATE of the row of one account, which counts it.
pub update_row-Follows :
    (user owner : ℕ) (f : Subscription → Subscription) (t : List Subscription) (s : Subscription)
    → row_of owner t ≡ some s
    → ((r : Subscription) → (f r).user_id ≡ r.user_id)
    → (s.projection_version < (f s).projection_version)
      × (coalesce s.provider_snapshot_at 0 ≤ coalesce (f s).provider_snapshot_at 0)
    → Follows (row_of user t) (row_of user (update_where (of_user owner) f t))
update_row-Follows user owner f t s found keep counts =
    update-Follows user (of_user owner) f t keep (λ r row hit.
      let mine : r.user_id ≡ user =
        (==_iff r.user_id user).0 ((find_where-some (of_user user) t r row).1) in
      let same : user ≡ owner = sym mine ∙ (==_iff r.user_id owner).0 hit in
      let again : row_of user t ≡ some s = rw same found in
      let e : s ≡ r = cc in
      subst
        (λ x.
          (x.projection_version < (f x).projection_version)
          × (coalesce x.provider_snapshot_at 0 ≤ coalesce (f x).provider_snapshot_at 0))
        e counts)

pub insert-Follows :
    (user : ℕ) (s : Subscription) (t : List Subscription)
    → row_of s.user_id t ≡ none
    → Follows (row_of user t) (row_of user (s ∷ t))
unfolding find_where
insert-Follows user s t fresh = elim (Bool-cases (s.user_id == user)) [
  | inl mine ↦
      let none_yet : row_of user t ≡ none = rw (sym ((==_iff s.user_id user).0 mine)) fresh in
      rw (mine, none_yet) (inr (omega arith, omega arith))
  | inr other ↦ rw other (inl refl)
]
