-- ===== src/Outbox/Worker/Concurrent/Rows.antt =====
-- Statements on the rows of different jobs commute, and so do the counts of their outcomes.
use histae_api.Prelude.{
  ℕ, ◌+◌, ◌≡◌, ◌≢◌, refl, sym, ap, arith, true, false, inl, inr, Bool-cases, List, [], ◌∷◌,
  update_where, select_where, length, Bool, count_where,
}
use histae_api.Outbox.Models.{Event, RetryResult}
use histae_api.Outbox.Store.{is_owned}
use histae_api.Outbox.Worker.{Tally, count_retry}
use histae_api.Outbox.Worker.Settlement.{owned-id}

-- Rows of one job are out of the reach of the statements of another.
other_row :
    (id other worker : ℕ) (y z : Event)
    → id ≢ other
    → is_owned other worker y ≡ true
    → z.id ≡ y.id
    → is_owned id worker z ≡ false
unfolding is_owned
other_row id other worker y z apart h same = ground (arith, owned-id other worker y h)

module _ (id other worker : ℕ) (apart : id ≢ other) (f g : Event → Event)
    (keeps : (y : Event) → (f y).id ≡ y.id) (keeps' : (y : Event) → (g y).id ≡ y.id) where
  pub select_where-other :
      (t : List Event)
      → select_where (is_owned id worker) (update_where (is_owned other worker) f t)
        ≡ select_where (is_owned id worker) t
  unfolding select_where update_where
  select_where-other [] = refl
  select_where-other (y ∷ t) = elim (Bool-cases (is_owned other worker y)) [
    | inr e ↦ rw e (ground (arith, select_where-other t))
    | inl e ↦
        let before = other_row id other worker y y apart e refl in
        let after = other_row id other worker y (f y) apart e (keeps y) in
        rw e (rw (before, after) (select_where-other t))
  ]

  pub update_where-other :
      (t : List Event)
      → update_where (is_owned id worker) g (update_where (is_owned other worker) f t)
        ≡ update_where (is_owned other worker) f (update_where (is_owned id worker) g t)
  unfolding update_where
  update_where-other [] = refl
  update_where-other (y ∷ t) = elim (Bool-cases (is_owned other worker y)) [
    | inl e ↦
        let before = other_row id other worker y y apart e refl in
        let after = other_row id other worker y (f y) apart e (keeps y) in
        rw (e, before) (rw (e, after) (ap (λ l. f y ∷ l) (update_where-other t)))
    | inr e ↦ elim (Bool-cases (is_owned id worker y)) [
      | inr e' ↦ rw (e, e') (rw e (ap (λ l. y ∷ l) (update_where-other t)))
      | inl e' ↦
          let after = other_row other id worker y (g y) (λ h. apart (sym h)) e' (keeps' y) in
          rw (e, e') (rw after (ap (λ l. g y ∷ l) (update_where-other t)))
    ]
  ]

-- What a statement adds to the counters.
pub data Kind : Type 0 where
  nothing one_completed one_deferred one_retried one_dead : Kind

unfoldable pub count : Kind → Tally → Tally
count nothing r = r
count one_completed r = record r { completed = r.completed + 1 }
count one_deferred r = record r { deferred = r.deferred + 1 }
count one_retried r = record r { retried = r.retried + 1 }
count one_dead r = record r { dead_lettered = r.dead_lettered + 1 }

unfoldable pub kind_of_retry : RetryResult → Kind
kind_of_retry RetryResult.pending = one_retried
kind_of_retry RetryResult.dead_letter = one_dead
kind_of_retry RetryResult.not_owned = nothing

-- `count_where` counts the rows that SELECT gives, and an update that writes what stands there is none.
pub count_where-eq-length :
    (p : Event → Bool) (t : List Event) → count_where p t ≡ length (select_where p t)
unfolding count_where select_where
count_where-eq-length p [] = refl
count_where-eq-length p (y ∷ t) = ground (arith, count_where-eq-length p t)

pub update_where-same : (p : Event → Bool) (t : List Event) → update_where p (λ y. y) t ≡ t
unfolding update_where
update_where-same p [] = refl
update_where-same p (y ∷ t) = ground (arith, update_where-same p t)

pub retry_count : (k : RetryResult) (r : Tally) → count_retry k r ≡ count (kind_of_retry k) r
unfolding count_retry count kind_of_retry
retry_count RetryResult.pending r = refl
retry_count RetryResult.dead_letter r = refl
retry_count RetryResult.not_owned r = refl

pub count_comm : (j k : Kind) (r : Tally) → count j (count k r) ≡ count k (count j r)
unfolding count
count_comm j k r = ground arith
