-- ===== src/Outbox/Worker/Tests.antt =====
-- Runs of the worker on small tables.
use histae_api.Outbox.Worker.Concurrent.Order.{interleave-eq-process_group}
use histae_api.Outbox.Worker.Concurrent.{Phase, HasEnded, start, interleave}
use histae_api.Outbox.Fixtures.{job, held_job, done_job, unlocked}
use histae_api.Outbox.Worker.Purging.{is_stale, purge_loop_lem}
use histae_api.Outbox.Worker.Settlement.{process_lost, process_completed, process_failed}
use histae_api.Outbox.Worker.{
  Instants, Tally, Outcome, failed, push_delivery, process, process_group, process_groups,
  WorkerState, run_once, purge_loop, retry_delay_millis, outbox_failure, HandlerError, settle,
}
use histae_api.Prelude.{
  ◌∷◌, [], ◌≡◌, inl, some, false, refl, arith, List, ℕ, update_where, exists_where, In, length, ◌+◌,
  ◌≤◌, select_where, one_of, order_by, count_where, ◌⊎◌, ◌≢◌, inr, ◌++◌,
}
use histae_api.Outbox.Models.{Event, Status}
use histae_api.Outbox.Store.{is_owned, finished, rescheduled, claim_batch, renew_claim, complete}

abbrev instants : Instants
instants = record { renewed = 150; processed = 200; failed = 210; given_back = 220 }

abbrev zeros : Tally
zeros = record {
  claimed = 1;
  completed = 0;
  deferred = 0;
  retried = 0;
  dead_lettered = 0;
  purged = 0;
  purge_batches = 0;
  work_remaining = false;
}

abbrev succeeds : List Event → Event → ℕ → List Event × Outcome
succeeds t e w = (t, Outcome.completed)

abbrev fails : List Event → Event → ℕ → List Event × Outcome
fails t e w = (t, failed push_delivery)

process_completed_example :
    process succeeds 7 (held_job 1 ∷ []) (held_job 1) instants zeros
    ≡ (done_job 1 ∷ [], record zeros { completed = 1 })
unfolding exists_where is_owned update_where finished
process_completed_example =
    process_completed succeeds 7 (held_job 1 ∷ []) (held_job 1) (held_job 1) instants zeros
      (refl, tt) (inl refl) refl refl

process_failed_example : process fails 7 (held_job 1 ∷ []) (held_job 1) instants zeros ≡ (
  record (job 1) {
    attempts = 1;
    available_at = 1210;
    last_error_code = some "push_delivery_unavailable";
  }
      ∷ [],
  record zeros { retried = 1 },
)
unfolding exists_where is_owned update_where outbox_failure rescheduled retry_delay_millis
process_failed_example =
    process_failed fails 7 (held_job 1 ∷ []) (held_job 1) (held_job 1) instants zeros (refl, tt)
      (inl refl) refl push_delivery refl

abbrev service : WorkerState
service = record {
  last_completed_purge_at = some 0;
  purge_batch_size = 1000;
  purge_max_batches = 10;
}

abbrev one_done : Tally
one_done = record zeros { completed = 1 }

run_once_one :
    run_once succeeds 7 unlocked (λ _. instants) 100 service (job 1 ∷ [])
    ≡ some (done_job 1 ∷ [], service, one_done)
unfolding run_once claim_batch exists_where select_where update_where one_of order_by process_groups
    process_group process renew_claim count_where complete
run_once_one = refl

purge_loop_lem_example :
    let (t', p) = purge_loop (done_job 1 ∷ job 2 ∷ []) 250 10 3 in
    (length t' + p.purged ≡ 2)
    × (p.batches ≤ 3)
    × ((e : Event) → In e (done_job 1 ∷ job 2 ∷ []) → is_stale 250 e ≡ false → In e t')
unfolding exists_where
purge_loop_lem_example = purge_loop_lem (done_job 1 ∷ job 2 ∷ []) 250 10 3 (refl, (refl, tt))

-- Another worker holds the job.
not_mine :
    (y : Event)
    → In y (held_job 1 ∷ [])
    → y.id ≡ 1
    → (y.status ≢ Status.processing) ⊎ (y.locked_by ≢ some 8)
not_mine y (inl e) same = inr (λ h. absurd (ground (arith, e)))
not_mine y (inr m) same = absurd m

process_lost_example :
    process succeeds 8 (held_job 1 ∷ []) (held_job 1) instants zeros ≡ (held_job 1 ∷ [], zeros)
process_lost_example =
    process_lost succeeds 8 (held_job 1 ∷ []) (held_job 1) instants zeros not_mine

-- Nine failed pushes, and then a tenth.
abbrev nine : List HandlerError
nine =
    push_delivery ∷ push_delivery ∷ push_delivery ∷ push_delivery ∷ push_delivery ∷ push_delivery
    ∷ push_delivery ∷ push_delivery ∷ push_delivery ∷ []

-- Two jobs in hand, whose calls take turns.
abbrev pair : List Event
pair = held_job 1 ∷ held_job 2 ∷ []

abbrev taking_turns : List ℕ
taking_turns = 0 ∷ 1 ∷ 1 ∷ 0 ∷ 1 ∷ 0 ∷ []

interleave-eq-process_group_example :
    (HasEnded (interleave succeeds 7 (λ _. instants) taking_turns (start pair) (pair, zeros)).0
      → (interleave succeeds 7 (λ _. instants) taking_turns (start pair) (pair, zeros)).1
        ≡ process_group succeeds 7 (λ _. instants) pair pair zeros)
    × ((more : List ℕ) × HasEnded
          (interleave succeeds 7
            (λ _. instants)
            (taking_turns ++ more)
            (start pair)
            (pair, zeros)).0)
interleave-eq-process_group_example =
    interleave-eq-process_group succeeds 7 (λ _. instants) (λ _. Outcome.completed) (λ t e. refl)
      taking_turns pair pair zeros ((ground arith, tt), (tt, tt))

turns_taken : interleave succeeds 7 (λ _. instants) taking_turns (start pair) (pair, zeros) ≡ (
  (held_job 1, Phase.ended) ∷ (held_job 2, Phase.ended) ∷ [],
  (done_job 1 ∷ done_job 2 ∷ [], record zeros { completed = 2 }),
)
unfolding interleave renew_claim complete update_where count_where settle
turns_taken = refl
