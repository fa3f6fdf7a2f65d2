-- ===== src/Outbox/Worker/Groups.antt =====
-- The group loop of `runOnce`, and its counters.
use histae_api.Prelude.{
  ℕ, zero, suc, ◌+◌, ◌-◌, ◌≤◌, ◌≡◌, refl, sym, ap, arith, Bool, Bool-cases, Option-cases, inl, inr,
  List, [], ◌∷◌, ◌++◌, ◌∙◌, length, take, drop, take-append-drop, length-drop, some,
}
use histae_api.Outbox.Models.{Event, RetryResult}
use histae_api.Outbox.Store.{renew_claim, claim_batch}
use histae_api.Outbox.Worker.{
  Outcome, completed, deferred, failed, Failure, Instants, Tally, WorkerState, count_retry,
  give_back, settle, process, process_group, process_groups, handler_concurrency, run_once,
  purge_step, start_tally, outbox_lock_timeout_millis, batch_size, outbox_failure,
}

-- The jobs that a run has an outcome for.
abbrev pub handled : Tally → ℕ
handled r = r.completed + r.deferred + r.retried + r.dead_lettered

count_retry_lem :
    (x : RetryResult) (r : Tally)
    → (handled (count_retry x r) ≤ handled r + 1) × ((count_retry x r).claimed ≡ r.claimed)
unfolding count_retry
count_retry_lem x r = ground arith

module _ (dispatch : List Event → Event → ℕ → List Event × Outcome) (worker : ℕ) where
  give_back_lem :
      (t : List Event) (e : Event) (at : Instants) (f : Failure) (r : Tally)
      → let r' = (give_back dispatch worker t e at f r).1 in
        (handled r' ≤ handled r + 1) × (r'.claimed ≡ r.claimed)
  unfolding give_back
  give_back_lem t e at f r = count_retry_lem _ r

  settle_lem :
      (o : Outcome) (t : List Event) (e : Event) (at : Instants) (r : Tally)
      → let r' = (settle dispatch worker o t e at r).1 in
        (handled r' ≤ handled r + 1) × (r'.claimed ≡ r.claimed)
  unfolding settle
  settle_lem deferred t e at r = ground arith
  settle_lem completed t e at r = ground arith
  settle_lem (failed error) t e at r = give_back_lem t e at (outbox_failure error) r

  process_lem :
      (t : List Event) (e : Event) (at : Instants) (r : Tally)
      → let r' = (process dispatch worker t e at r).1 in
        (handled r' ≤ handled r + 1) × (r'.claimed ≡ r.claimed)
  unfolding process
  process_lem t e at r = elim (Bool-cases (renew_claim t at.renewed e.id worker).1) [
    | inl owned ↦ rw owned (settle_lem _ _ e at r)
    | inr lost ↦ rw lost (ground arith)
  ]

  process_group_lem :
      (at : Event → Instants) (es t : List Event) (r : Tally)
      → let r' = (process_group dispatch worker at es t r).1 in
        (handled r' ≤ handled r + length es) × (r'.claimed ≡ r.claimed)
  unfolding process_group
  process_group_lem at [] t r = ground arith
  process_group_lem at (e ∷ es) t r = ground (
    arith,
    process_lem t e (at e) r,
    process_group_lem at es (process dispatch worker t e (at e) r).0
        (process dispatch worker t e (at e) r).1,
  )

  process_group-append :
      (at : Event → Instants) (xs ys t : List Event) (r : Tally)
      → process_group dispatch worker at (xs ++ ys) t r ≡ (
          let (t', r') = process_group dispatch worker at xs t r in
          process_group dispatch worker at ys t' r')
  unfolding process_group
  process_group-append at [] ys t r = refl
  process_group-append at (x ∷ xs) ys t r =
      process_group-append at xs ys (process dispatch worker t x (at x) r).0
        (process dispatch worker t x (at x) r).1

  -- The loop over groups of five handles every claimed job once, in the order of the claim: fuel
  -- as long as the list is enough.
  pub process_groups_lem :
      (at : Event → Instants) (fuel : ℕ) (es t : List Event) (r : Tally)
      → length es ≤ fuel
      → process_groups dispatch worker at fuel es t r ≡ process_group dispatch worker at es t r
  unfolding process_groups
  process_groups_lem at zero [] t r h = unfold process_group in refl
  process_groups_lem at zero (e ∷ es) t r h = absurd (omega arith)
  process_groups_lem at (suc fuel) [] t r h = unfold process_group in refl
  process_groups_lem at (suc fuel) (e ∷ es) t r h =
      let now = take handler_concurrency (e ∷ es) in
      let later = drop handler_concurrency (e ∷ es) in
      let (t', r') = process_group dispatch worker at now t r in
      process_groups_lem at fuel later t' r'
        (omega (arith, length-drop handler_concurrency (e ∷ es)))
      ∙ sym (process_group-append at now later t r)
      ∙ ap (λ l. process_group dispatch worker at l t r)
          (take-append-drop handler_concurrency (e ∷ es))

  purge_step_lem :
      (s : WorkerState) (now : ℕ) (t : List Event) (r : Tally)
      → let r' = (purge_step dispatch worker s now t r).2 in
        (handled r' ≡ handled r) × (r'.claimed ≡ r.claimed)
  unfolding purge_step
  purge_step_lem s now t r = ground arith

  -- A run never reports more outcomes than jobs that it claimed: the counters count each job at
  -- most once. The rest are jobs whose ownership was lost meanwhile.
  pub run_once-handled :
      (locked : ℕ → Bool) (at : Event → Instants) (now : ℕ) (s s' : WorkerState) (t t' : List Event)
      (r : Tally)
      → run_once dispatch worker locked at now s t ≡ some (t', s', r)
      → handled r ≤ r.claimed
  unfolding run_once start_tally
  run_once-handled locked at now s s' t t' r h =
      elim (Option-cases
        (claim_batch t locked worker now (now - outbox_lock_timeout_millis) batch_size)) [
          | inl e ↦ absurd (ground arith)
          | inr ((t₁, events), e) ↦
              let start = start_tally events in
              let g = process_groups dispatch worker at (length events) events t₁ start in
              let step : some (purge_step dispatch worker s now g.0 g.1) ≡ some (t', s', r) =
                rw (e, run_once) at h in
              ground (
                arith,
                step,
                purge_step_lem s now g.0 g.1,
                process_group_lem at events t₁ start,
                process_groups_lem at (length events) events t₁ start (omega arith),
              )
        ]
