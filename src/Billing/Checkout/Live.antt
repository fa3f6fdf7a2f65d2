-- ===== src/Billing/Checkout/Live.antt =====
-- An account has at most one checkout that is being created or open, and identifiers are unique: the
-- index idx_billing_checkout_one_live_per_user and the primary key of the table.
use histae_api.Prelude.{
  ℕ, Bool, true, false, List, ◌∷◌, ◌≡◌, refl, sym, arith, ◌≤◌, ◌==◌, ◌&&◌, update_where,
  count_where, exists_where, count_where-update_where_le, count_where-update_where_add,
  count_where_none, count_where_mono, Bool-cases, inl, inr, ==_iff, leb,
}
use histae_api.Billing.Models.{Checkout}
use histae_api.Billing.Customers.{has_id}
use histae_api.Billing.Checkout.{
  is_live_of, Request, restarted, new_checkout, end_stale, lapsed, abandoned, is_creating, is_open,
}

pub record IsSound (t : List Checkout) : Type 0 where
  pub one_live : (user : ℕ) → count_where (is_live_of user) t ≤ 1
  pub unique_ids : (id : ℕ) → count_where (has_id id) t ≤ 1

-- A statement that makes no checkout live.
pub quiet-IsSound :
    (q : Checkout → Bool) (f : Checkout → Checkout) (t : List Checkout)
    → ((c : Checkout) → (f c).id ≡ c.id)
    → ((user : ℕ) (c : Checkout)
        → q c ≡ true
        → is_live_of user (f c) ≡ true
        → is_live_of user c ≡ true)
    → IsSound t
    → IsSound (update_where q f t)
quiet-IsSound q f t ids live s = record {
  one_live = λ user.
      omega
        (arith, count_where-update_where_le (is_live_of user) q f t (live user), s.one_live user);
  unique_ids = λ id. omega (
    arith,
    count_where-update_where_le (has_id id) q f t (λ c h e. rw (← ids c) e),
    s.unique_ids id,
  );
}

-- The attempt that starts again, when the account has no live checkout.
pub restarted-IsSound :
    (clock id : ℕ) (r : Request) (t : List Checkout)
    → exists_where (is_live_of r.user_id) t ≡ false
    → IsSound t
    → IsSound (
        update_where (λ (c : Checkout). c.user_id == r.user_id && c.id == id) (restarted clock r) t)
restarted-IsSound clock id r t none_live s =
    let q = λ (c : Checkout). c.user_id == r.user_id && c.id == id in
    let few : count_where q t ≤ 1 =
      omega (arith, count_where_mono q (has_id id) t (λ c h. ground arith), s.unique_ids id) in
    record {
      one_live = λ user. elim (Bool-cases (user == r.user_id)) [
        | inl mine ↦
            let zero_live : count_where (is_live_of user) t ≡ 0 =
              rw ((==_iff user r.user_id).0 mine)
                (count_where_none (is_live_of r.user_id) t none_live) in
            omega (
              arith,
              zero_live,
              few,
              count_where-update_where_add (is_live_of user) q (restarted clock r) t,
            )
        | inr other ↦ omega (
          arith,
          s.one_live user,
          count_where-update_where_le (is_live_of user) q (restarted clock r) t
              (λ c h e. ground (arith, other)),
        )
      ];
      unique_ids = λ x. omega (
        arith,
        s.unique_ids x,
        count_where-update_where_le (has_id x) q (restarted clock r) t (λ c h e. e),
      );
    }

pub new_checkout-IsSound :
    (clock : ℕ) (r : Request) (t : List Checkout)
    → exists_where (is_live_of r.user_id) t ≡ false
    → exists_where (has_id r.attempt_id) t ≡ false
    → IsSound t
    → IsSound (new_checkout clock r ∷ t)
unfolding count_where
new_checkout-IsSound clock r t none_live fresh s =
    let no_live = count_where_none (is_live_of r.user_id) t none_live in
    let no_id = count_where_none (has_id r.attempt_id) t fresh in
    record {
      one_live = λ user. elim (Bool-cases (r.user_id == user)) [
        | inl mine ↦
            let none_yet : count_where (is_live_of user) t ≡ 0 =
              rw (sym ((==_iff r.user_id user).0 mine)) no_live in
            rw (mine, none_yet) (omega arith)
        | inr other ↦ rw other (omega (arith, s.one_live user))
      ];
      unique_ids = λ x. elim (Bool-cases (r.attempt_id == x)) [
        | inl mine ↦
            let none_yet : count_where (has_id x) t ≡ 0 =
              rw (sym ((==_iff r.attempt_id x).0 mine)) no_id in
            rw (mine, none_yet) (omega arith)
        | inr other ↦ rw other (omega (arith, s.unique_ids x))
      ];
    }

pub end_stale-IsSound :
    (clock user now stale_before : ℕ) (t : List Checkout)
    → IsSound t
    → IsSound (end_stale clock user now stale_before t)
unfolding end_stale
end_stale-IsSound clock user now stale_before t s =
    quiet-IsSound (λ c. c.user_id == user && is_creating c.status && leb c.updated_at stale_before)
      (abandoned clock)
      (update_where (λ c. c.user_id == user && is_open c.status && leb c.expires_at now)
        (lapsed clock) t)
      (λ c. refl) (λ u c h e. ground arith)
      (quiet-IsSound (λ c. c.user_id == user && is_open c.status && leb c.expires_at now)
        (lapsed clock) t (λ c. refl) (λ u c h e. ground arith) s)
