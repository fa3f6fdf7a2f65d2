-- ===== src/Outbox/History/Soundness.antt =====
-- What holds of the table of jobs after any history of statements.
use histae_api.Prelude.{
  ℕ, Bool, List, [], ◌∷◌, All, All-delete_where, delete_where, inl, inr, Option-cases,
}
use histae_api.Outbox.Models.{Event}
use histae_api.Outbox.Store.Constraints.{
  IsStorable, enqueue-IsStorable, requeue-IsStorable, renew_claim-IsStorable, complete-IsStorable,
  reschedule-IsStorable,
}
use histae_api.Outbox.Store.{claim_batch}
use histae_api.Outbox.Store.Claims.{claim_batch-IsStorable}
use histae_api.Outbox.Upkeep.Constraints.{
  purge_completed-IsStorable, resolve_dead_letter-IsStorable,
}
use histae_api.Outbox.Scheduling.{schedule-IsStorable, hasten-IsStorable, unschedule, erase_jobs}
use histae_api.Outbox.Deferral.{defer-IsStorable, checkpoint-IsStorable}
use histae_api.Outbox.History.{
  Db, Op, enqueues, requeues, claims, renews, completes, reschedules, purges, resolves, defers,
  checkpoints, perform, Allowed, events_of, run, AllowedRun, schedules, hastens, unschedules,
  erases,
}
use histae_api.Outbox.History.Keys.{Keys, perform-Keys}

-- The constraints of the table on the columns of the model: CHECK on each row, PRIMARY KEY and UNIQUE.
pub record IsSound (d : Db) : Type 0 where
  pub rows : All IsStorable d.events
  pub keys : Keys d.events

claim-IsStorable :
    (t : List Event) (locked : ℕ → _) (worker now stale limit : ℕ)
    → Keys t
    → All IsStorable t
    → All IsStorable (events_of t (claim_batch t locked worker now stale limit))
claim-IsStorable t locked worker now stale limit k s =
    elim (Option-cases (claim_batch t locked worker now stale limit)) [
      | inl e ↦ rw e s
      | inr ((t', rows), e) ↦
          rw e (
            claim_batch-IsStorable locked worker now stale limit t {t' = t'} {rows = rows} k.ids e
              s)
    ]

delete-IsStorable :
    (p : Event → Bool) (t : List Event) → All IsStorable t → All IsStorable (delete_where p t)
delete-IsStorable p t h = All-delete_where IsStorable p t h

perform-IsStorable :
    (d : Db) (op : Op) → Allowed d op → IsSound d → All IsStorable (perform d op).events
unfolding perform unschedule erase_jobs
perform-IsStorable d (enqueues fresh now n) ok h = enqueue-IsStorable d.events fresh now n h.rows
perform-IsStorable d (requeues fresh now n) ok h = requeue-IsStorable d.events fresh now n h.rows
perform-IsStorable d (claims locked worker now stale limit) ok h =
    claim-IsStorable d.events locked worker now stale limit h.keys h.rows
perform-IsStorable d (renews clock id worker) ok h =
    renew_claim-IsStorable d.events clock id worker h.rows
perform-IsStorable d (completes id worker at) ok h =
    complete-IsStorable d.events id worker at h.rows
perform-IsStorable d (reschedules clock id worker at code most) ok h =
    reschedule-IsStorable d.events clock id worker at code most ok h.rows
perform-IsStorable d (purges before limit) ok h =
    purge_completed-IsStorable d.events before limit h.rows
perform-IsStorable d (resolves photo_exists clock id o reason action) ok h =
    resolve_dead_letter-IsStorable photo_exists d.events d.journal clock id o reason action
      h.keys.ids ok h.rows
perform-IsStorable d (schedules fresh clock available_at n) ok h =
    schedule-IsStorable fresh clock available_at n d.events h.rows
perform-IsStorable d (hastens clock n) ok h = hasten-IsStorable clock n d.events h.rows
perform-IsStorable d (unschedules checkouts) ok h = delete-IsStorable _ d.events h.rows
perform-IsStorable d (erases type aggregates) ok h = delete-IsStorable _ d.events h.rows
perform-IsStorable d (defers clock id worker) ok h =
    defer-IsStorable d.events clock id worker h.rows
perform-IsStorable d (checkpoints clock id worker) ok h =
    checkpoint-IsStorable d.events clock id worker h.rows

pub perform-IsSound : (d : Db) (op : Op) → Allowed d op → IsSound d → IsSound (perform d op)
perform-IsSound d op ok h = record {
  rows = perform-IsStorable d op ok h;
  keys = perform-Keys d op ok h.keys;
}

-- Any history of allowed statements, from any sound table, keeps the constraints of the table on the
-- columns of the model: a job in hand has an owner and a lock, a completed job, a dead letter and a
-- discarded job have their dates, a discarded job alone has a reason and it fits, the code of an
-- error is an identifier of 64 characters at most, no id and no pair of type and aggregate occurs
-- twice, and no job passes 100 attempts. Allowed are fresh ids, reasons that fit, and codes of
-- errors that are such identifiers.
pub run-IsSound : (ops : List Op) (d : Db) → AllowedRun d ops → IsSound d → IsSound (run d ops)
unfolding run
run-IsSound [] d ok h = h
run-IsSound (op ∷ ops) d ok h = run-IsSound ops (perform d op) ok.1 (perform-IsSound d op ok.0 h)
