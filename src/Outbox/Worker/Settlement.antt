-- ===== src/Outbox/Worker/Settlement.antt =====
-- What one call of `process` does to the row of its job.
use histae_api.Prelude.{
  Bool, Bool-cases, none, inr, ◌⊎◌, ◌≢◌, exists_where_witness, ℕ, ◌+◌, ◌≡◌, ◌∙◌, refl, ap, arith,
  true, false, inl, List, [], ◌∷◌, some, In, In-unique, In-select_where, In-select_where_of,
  Distinct, same_id, Distinct-update_where, update_where, select_where, exists_where, count_where,
  update_where_none, update_where-update_where, count_where_pos, count_where_mono, count_where_none,
  count_where_id, count_where-update_where, In-update_where, find_where, fun_ext, if◌then◌else◌,
  leb, ◌==◌, map,
}
use histae_api.Outbox.Models.{Event, Status}
use histae_api.Outbox.Store.{
  renew_claim, reschedule, complete, is_owned, finished, rescheduled, retry_result,
}
use histae_api.Outbox.Worker.{
  Outcome, completed, failed, Failure, Instants, Tally, give_back, settle, process, HandlerError,
  outbox_failure, retry_delay_millis, max_attempts, count_retry,
}

abbrev pub renewed : ℕ → Event → Event
renewed clock e = record e { locked_at = some clock }

owned_congr :
    (id worker clock : ℕ) (e : Event) → is_owned id worker (renewed clock e) ≡ is_owned id worker e
unfolding is_owned
owned_congr id worker clock e = refl

pub owned-id : (id worker : ℕ) (e : Event) → is_owned id worker e ≡ true → (e.id == id) ≡ true
unfolding is_owned
owned-id id worker e h = ground arith

-- The owner's row is the only one that its statements touch.
owned_once :
    (id worker : ℕ) (x : Event) (t : List Event)
    → Distinct (same_id (λ e. e.id)) t
    → In x t
    → is_owned id worker x ≡ true
    → count_where (is_owned id worker) t ≡ 1
owned_once id worker x t d m h = omega (
  arith,
  count_where_pos x (is_owned id worker) t m h,
  count_where_mono (is_owned id worker) (λ e. e.id == id) t (owned-id id worker),
  count_where_id (λ e. e.id) id t d,
)

module _ (id worker clock : ℕ) (t : List Event) where
  abbrev held : List Event
  held = update_where (is_owned id worker) (renewed clock) t

  renew_lost :
      exists_where (is_owned id worker) t ≡ false → renew_claim t clock id worker ≡ (t, false)
  unfolding renew_claim
  renew_lost h = ground (
    arith,
    count_where_none (is_owned id worker) t h,
    update_where_none (is_owned id worker) (renewed clock) t h,
  )

  renew_kept :
      (x : Event)
      → Distinct (same_id (λ e. e.id)) t
      → In x t
      → is_owned id worker x ≡ true
      → renew_claim t clock id worker ≡ (held, true)
  unfolding renew_claim
  renew_kept x d m h = ground (arith, owned_once id worker x t d m h)

  held-count : count_where (is_owned id worker) held ≡ count_where (is_owned id worker) t
  held-count =
      count_where-update_where (is_owned id worker) (is_owned id worker) (renewed clock) t
        (owned_congr id worker clock)

  held-update :
      (f : Event → Event)
      → ((e : Event) → f (renewed clock e) ≡ f e)
      → update_where (is_owned id worker) f held ≡ update_where (is_owned id worker) f t
  held-update f same =
      update_where-update_where (is_owned id worker) (renewed clock) f t
        (owned_congr id worker clock)
      ∙ ap (λ g. update_where (is_owned id worker) g t) (fun_ext same)

first_of_same :
    (f : Event → Event) (x : Event) (l : List Event)
    → In x l
    → ((y : Event) → In y l → y ≡ x)
    → find_where (λ _. true) (map f l) ≡ some (f x)
unfolding find_where
first_of_same f x [] m same = absurd m
first_of_same f x (y ∷ ys) m same = ap (λ z. some (f z)) (same y (inl refl))

-- The row that RETURNING gives back to the owner.
returned_row :
    (id worker clock : ℕ) (t : List Event) (x : Event) (f : Event → Event)
    → Distinct (same_id (λ e. e.id)) t
    → In x t
    → is_owned id worker x ≡ true
    → find_where (λ _. true) (map f (select_where (is_owned id worker) (held id worker clock t)))
      ≡ some (f (renewed clock x))
returned_row id worker clock t x f d m h =
    let d' =
      Distinct-update_where (same_id (λ e. e.id)) (is_owned id worker) (renewed clock) t
        (λ a b. refl) (λ a b. refl) d in
    let m' = In-update_where x (is_owned id worker) (renewed clock) t m h in
    let h' = owned_congr id worker clock x ∙ h in
    first_of_same f (renewed clock x) _
      (In-select_where_of (renewed clock x) (is_owned id worker) _ m' h')
      (λ y n.
        let (n', o) = In-select_where y (is_owned id worker) _ n in
        In-unique (λ e. e.id) y (renewed clock x) _ d' n' m'
          (ground (arith, owned-id id worker y o, owned-id id worker x h)))

not_owned :
    (id worker : ℕ) (y : Event)
    → (y.id ≡ id → (y.status ≢ Status.processing) ⊎ (y.locked_by ≢ some worker))
    → is_owned id worker y ≡ false
unfolding is_owned
not_owned id worker y lost = ground (arith, lost)

nothing_owned :
    (id worker : ℕ) (t : List Event)
    → ((y : Event)
        → In y t
        → y.id ≡ id
        → (y.status ≢ Status.processing) ⊎ (y.locked_by ≢ some worker))
    → exists_where (is_owned id worker) t ≡ false
nothing_owned id worker t lost = elim (Bool-cases (exists_where (is_owned id worker) t)) [
  | inr h ↦ h
  | inl h ↦
      let (y, m, hit) = exists_where_witness (is_owned id worker) t h in
      absurd (ground (arith, not_owned id worker y (lost y m)))
]

update_where_congr :
    (p q : Event → Bool) (f : Event → Event) (t : List Event)
    → ((y : Event) → In y t → p y ≡ q y)
    → update_where p f t ≡ update_where q f t
unfolding update_where
update_where_congr p q f [] same = refl
update_where_congr p q f (y ∷ ys) same =
    ground (arith, same y (inl refl), update_where_congr p q f ys (λ z m. same z (inr m)))

-- In a table without two rows of one id, the worker that owns a job writes to the row of its id.
owned_by_id :
    (id worker : ℕ) (x : Event) (t : List Event)
    → Distinct (same_id (λ e. e.id)) t
    → In x t
    → is_owned id worker x ≡ true
    → (y : Event) → In y t
    → is_owned id worker y ≡ (y.id == id)
owned_by_id id worker x t d m h y n = elim (Bool-cases (y.id == id)) [
  | inl e ↦
      let same = In-unique (λ e. e.id) y x t d n m (ground (arith, owned-id id worker x h)) in
      rw e (ap (is_owned id worker) same ∙ h)
  | inr e ↦ ground (arith, owned-id id worker y)
]

module _ (dispatch : List Event → Event → ℕ → List Event × Outcome) (worker : ℕ) where
  -- When the row of the job is no longer in hand, or is in the hand of another worker, or is gone, the
  -- worker neither dispatches the job nor writes anything nor counts it.
  pub process_lost :
      (t : List Event) (e : Event) (at : Instants) (r : Tally)
      → ((y : Event)
          → In y t
          → y.id ≡ e.id
          → (y.status ≢ Status.processing) ⊎ (y.locked_by ≢ some worker))
      → process dispatch worker t e at r ≡ (t, r)
  unfolding process
  process_lost t e at r lost =
      rw (renew_lost e.id worker at.renewed t (nothing_owned e.id worker t lost))

  module _ (t : List Event) (e x : Event) (at : Instants) (r : Tally)
      (d : Distinct (same_id (λ e. e.id)) t) (here : In x t)
      (owned : is_owned e.id worker x ≡ true) where
    process_owned :
        (o : Outcome)
        → dispatch (held e.id worker at.renewed t) e worker ≡ (held e.id worker at.renewed t, o)
        → process dispatch worker t e at r
          ≡ settle dispatch worker o (held e.id worker at.renewed t) e at r
    unfolding process
    process_owned o says = rw (renew_kept e.id worker at.renewed t x d here owned, says)

    -- When the handler succeeds without touching the table, the row of the job becomes completed,
    -- with its date and without lock, error or date of death, the other rows stay as they were, and
    -- one completion is counted.
    pub process_completed :
        dispatch (held e.id worker at.renewed t) e worker
          ≡ (held e.id worker at.renewed t, completed)
        → process dispatch worker t e at r ≡ (
          update_where
              (λ y. y.id == e.id)
              (λ y. record y {
                status = Status.completed;
                processed_at = some at.processed;
                locked_at = none;
                locked_by = none;
                last_error_code = none;
                dead_lettered_at = none;
              })
              t,
          record r { completed = r.completed + 1 },
        )
    unfolding settle complete finished
    process_completed says =
        process_owned completed says
        ∙ rw
            (
              held-update e.id worker at.renewed t (finished at.processed) (λ y. refl),
              held-count e.id worker at.renewed t,
              owned_once e.id worker x t d here owned,
              update_where_congr (is_owned e.id worker) (λ y. y.id == e.id) (finished at.processed)
                  t (owned_by_id e.id worker x t d here owned),
            )
            refl

    -- What the failure writes: the waiting time grows with the attempts at the claim, and a
    -- permanent failure leaves no further attempt.
    abbrev after_failure : Failure → Event → Event
    after_failure f =
        rescheduled at.given_back (at.failed + retry_delay_millis e.attempts) f.code
          (if f.permanent then 1 else max_attempts)

    abbrev pub counted : Failure → Tally
    counted f =
        if leb (if f.permanent then 1 else max_attempts) x.attempts
        then record r { dead_lettered = r.dead_lettered + 1 }
        else record r { retried = r.retried + 1 }

    counted_lem :
        (f : Failure)
        → count_retry (retry_result (some (after_failure f (renewed at.renewed x)))) r ≡ counted f
    unfolding count_retry retry_result rescheduled
    counted_lem f = ground arith

    -- When the handler fails without touching the table, the row goes back to the queue, or to the
    -- dead letters if its attempts are spent, and is counted as such.
    pub process_failed :
        (error : HandlerError)
        → dispatch (held e.id worker at.renewed t) e worker
          ≡ (held e.id worker at.renewed t, failed error)
        → process dispatch worker t e at r ≡ (
          update_where (is_owned e.id worker) (after_failure (outbox_failure error)) t,
          counted (outbox_failure error),
        )
    unfolding settle give_back reschedule
    process_failed error says =
        process_owned (failed error) says
        ∙ rw
            (
              held-update e.id worker at.renewed t (after_failure (outbox_failure error))
                  (λ y. unfold rescheduled in refl),
              returned_row e.id worker at.renewed t x (after_failure (outbox_failure error)) d here
                  owned,
            )
            (ap
              (λ z.
                (update_where (is_owned e.id worker) (after_failure (outbox_failure error)) t, z))
              (counted_lem (outbox_failure error)))
