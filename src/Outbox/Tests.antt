-- ===== src/Outbox/Tests.antt =====
-- Runs of the outbox on small tables.
use histae_api.Outbox.Store.Poison.{spent, claim_batch-eq-none_iff}
use histae_api.Outbox.Fixtures.{photo, job, held_job, done_job, unlocked}
use histae_api.Outbox.Upkeep.Answers.{
  resolve_dead_letter_lem, answered, after_retry, after_discard, noted, IsDroppable,
}
use histae_api.Outbox.Store.Claims.{claim_batch_disjoint, picked}
use histae_api.Outbox.Store.Constraints.{IsStorable}
use histae_api.Prelude.{
  ◌∷◌, [], ◌≡◌, inl, inr, none, some, false, refl, arith, List, Bool, ℕ, All, update_where,
  exists_where, select_where, one_of, order_by, ◌↔◌, Distinct, same_id, ◌≢◌, true, find_where, ◌==◌,
}
use histae_api.Outbox.Models.{
  Event, Status, not_dead_letter, discard_not_allowed, updated, retry, Action, NewEvent,
  billing_customer_reconcile, discard, Operator, Role,
}
use histae_api.Outbox.Store.{claim_batch, complete, enqueue}
use histae_api.Outbox.History.{Db, Op, enqueues, claims, completes, schedules, perform, run}
use histae_api.Outbox.History.Soundness.{IsSound, run-IsSound}
use histae_api.Outbox.History.Lifecycle.{Evolves, Moves, perform-Evolves, final_jobs_stay}

abbrev empty : Db
empty = record { events = []; journal = [] }

empty-IsSound : IsSound empty
empty-IsSound = record { rows = tt; keys = record { ids = tt; columns = tt } }

abbrev day : List Op
day = enqueues 1 0 (photo 1) ∷ claims unlocked 7 100 50 50 ∷ completes 1 7 200 ∷ []

day-run : (run empty day).events ≡ done_job 1 ∷ []
unfolding run perform complete update_where claim_batch exists_where select_where enqueue one_of
    order_by
day-run = refl

run-IsSound_example : IsSound (run empty day)
unfolding exists_where
run-IsSound_example = run-IsSound day empty (refl, (tt, (tt, tt))) empty-IsSound

abbrev full : Db
full = record { events = job 1 ∷ done_job 2 ∷ []; journal = [] }

job_1-IsStorable : IsStorable (job 1)
job_1-IsStorable = ground arith

done_job_2-IsStorable : IsStorable (done_job 2)
done_job_2-IsStorable = ground arith

full-IsSound : IsSound full
unfolding exists_where
full-IsSound = record {
  rows = (job_1-IsStorable, (done_job_2-IsStorable, tt));
  keys = record { ids = (refl, (refl, tt)); columns = (refl, (refl, tt)) };
}

-- The reconciliation of a customer that is done is scheduled again.
abbrev customer : NewEvent
customer = record { event_type = billing_customer_reconcile; aggregate_id = 2 }

abbrev settled : Event
settled = record (done_job 2) { event_type = billing_customer_reconcile }

abbrev quiet : Db
quiet = record { events = job 1 ∷ settled ∷ []; journal = [] }

quiet-IsSound : IsSound quiet
unfolding exists_where
quiet-IsSound = record {
  rows = (job_1-IsStorable, (ground arith, tt));
  keys = record { ids = (refl, (refl, tt)); columns = (refl, (refl, tt)) };
}

perform-Evolves_example :
    All
      (Evolves (Moves (schedules 3 100 200 customer)) quiet.events)
      (perform quiet (schedules 3 100 200 customer)).events
unfolding exists_where
perform-Evolves_example = perform-Evolves quiet (schedules 3 100 200 customer) refl quiet-IsSound

final_jobs_stay_example : done_job 2 ≡ done_job 2
unfolding perform claim_batch exists_where select_where update_where one_of order_by
final_jobs_stay_example =
    final_jobs_stay full (claims unlocked 7 100 50 50) (done_job 2) (done_job 2) refl tt
      full-IsSound (inr (inl refl)) (inl refl) (inr (inl refl)) refl

-- Two workers claim one job each.
abbrev two : List Event
two = job 1 ∷ job 2 ∷ []

abbrev claimed_first : List Event
claimed_first = held_job 1 ∷ job 2 ∷ []

abbrev second : Event
second = record (held_job 2) { locked_at = some 150; locked_by = some 8 }

two-Distinct : Distinct (same_id (λ (r : Event). r.id)) two
unfolding exists_where
two-Distinct = (refl, (refl, tt))

claim_first : claim_batch two unlocked 7 100 50 1 ≡ some (claimed_first, held_job 1 ∷ [])
unfolding claim_batch exists_where select_where update_where one_of order_by
claim_first = refl

claim_second :
    claim_batch claimed_first unlocked 8 150 60 50 ≡ some (held_job 1 ∷ second ∷ [], second ∷ [])
unfolding claim_batch exists_where select_where update_where one_of order_by
claim_second = refl

claim_batch_disjoint_example : (held_job 1).id ≢ second.id
claim_batch_disjoint_example =
    claim_batch_disjoint two claimed_first (held_job 1 ∷ second ∷ []) (held_job 1 ∷ [])
      (second ∷ []) unlocked unlocked 7 8 100 150 50 60 1 50 two-Distinct claim_first claim_second
      (omega arith) (held_job 1) second (inl refl) (inl refl)

-- A job that 100 workers have claimed and abandoned, before a fresh one.
abbrev worn : List Event
worn = record (held_job 1) { attempts = 100; locked_at = some 10 } ∷ job 2 ∷ []

claim_batch-eq-none_iff_example :
    (claim_batch worn unlocked 7 100 50 50 ≡ none)
    ↔ (exists_where (spent unlocked 7 100 50 50 worn) (picked unlocked 7 100 50 50 worn) ≡ true)
unfolding exists_where
claim_batch-eq-none_iff_example =
    claim_batch-eq-none_iff unlocked 7 100 50 50 worn (refl, (refl, tt))

abbrev operator : Operator
operator = record { user_id = 3; role = Role.admin }

abbrev reason : List ℕ
reason = 102 ∷ 105 ∷ 120 ∷ []

abbrev photos_gone : ℕ → Bool
photos_gone _ = false

abbrev dead : Event
dead = record (job 1) {
  status = Status.dead_letter;
  attempts = 10;
  dead_lettered_at = some 300;
  last_error_code = some "handler_failed";
}

dead_found : find_where (λ r. r.id == 1) (dead ∷ []) ≡ some dead
unfolding find_where
dead_found = refl

resolve_dead_letter_lem_example :
    ((a : Action)
      → dead.status ≢ Status.dead_letter
      → answered photos_gone (dead ∷ []) [] 400 1 operator reason dead dead_found a
        ≡ (dead ∷ [], [], not_dead_letter))
    × (dead.status ≡ Status.dead_letter
        → ((answered photos_gone (dead ∷ []) [] 400 1 operator reason dead dead_found retry ≡ (
          after_retry photos_gone (dead ∷ []) [] 400 1 operator reason dead dead_found,
          noted photos_gone (dead ∷ []) [] 400 1 operator reason dead dead_found retry ∷ [],
          updated,
        ))
            × (IsDroppable photos_gone dead
                → answered photos_gone (dead ∷ []) [] 400 1 operator reason dead dead_found discard
                  ≡ (
                    after_discard photos_gone (dead ∷ []) [] 400 1 operator reason dead dead_found,
                    noted photos_gone (dead ∷ []) [] 400 1 operator reason dead dead_found discard
                        ∷ [],
                    updated,
                  ))
            × (¬ IsDroppable photos_gone dead
                → answered photos_gone (dead ∷ []) [] 400 1 operator reason dead dead_found discard
                  ≡ (dead ∷ [], [], discard_not_allowed))))
resolve_dead_letter_lem_example =
    resolve_dead_letter_lem photos_gone (dead ∷ []) [] 400 1 operator reason dead dead_found
