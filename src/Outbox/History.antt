-- ===== src/Outbox/History.antt =====
-- The statements that the program sends to `outbox_event`, as one transition system: those of src/outbox,
-- of the billing and of the erasure, by any number of API processes and workers, one after the
-- other. An INSERT of several rows is one operation for each row, and the other modules' INSERTs
-- with ON CONFLICT DO NOTHING, or of a fresh aggregate, are `enqueues`. No statement
-- deletes a row of `user_account`, so ON DELETE SET NULL on `resolved_by` never acts.
pub mod Keys
pub mod Soundness
pub mod Lifecycle
use histae_api.Prelude.{
  String, ℕ, ◌≡◌, Bool, true, false, List, [], ◌∷◌, Option, none, some, exists_where, ◌==◌,
}
use histae_api.Outbox.Models.{Event, EventType, NewEvent, Operator, Action, OperatorAction}
use histae_api.Outbox.Store.{enqueue, requeue, claim_batch, renew_claim, complete, reschedule}
use histae_api.Outbox.Upkeep.{purge_completed, resolve_dead_letter}
use histae_api.Outbox.Upkeep.Constraints.{IsReason}
use histae_api.Outbox.WellFormed.{is_error_code}
use histae_api.Outbox.Scheduling.{schedule, hasten, unschedule, erase_jobs}
use histae_api.Outbox.Deferral.{defer, checkpoint}

pub data Op : Type 0 where
  enqueues requeues : (fresh now : ℕ) → NewEvent → Op
  claims : (ℕ → Bool) → (worker now stale limit : ℕ) → Op
  renews : (clock id worker : ℕ) → Op
  completes : (id worker at : ℕ) → Op
  reschedules : (clock id worker at : ℕ) → String → ℕ → Op
  purges : (before limit : ℕ) → Op
  resolves : (ℕ → Bool) → (clock id : ℕ) → Operator → List ℕ → Action → Op
  defers checkpoints : (clock id worker : ℕ) → Op
  schedules : (fresh clock available_at : ℕ) → NewEvent → Op
  hastens : (clock : ℕ) → NewEvent → Op
  unschedules : (checkouts : List ℕ) → Op
  erases : EventType → (aggregates : List ℕ) → Op

pub record Db : Type 0 where
  pub events : List Event
  pub journal : List OperatorAction

-- A statement that fails changes nothing.
abbrev events_of : List Event → Option (List Event × List Event) → List Event
events_of t none = t
events_of t (some (t', rows)) = t'

unfoldable pub perform : Db → Op → Db
perform d (enqueues fresh now n) = record d { events = (enqueue d.events fresh now n).0 }
perform d (requeues fresh now n) = record d { events = requeue d.events fresh now n }
perform d (claims locked worker now stale limit) = record d {
  events = events_of d.events (claim_batch d.events locked worker now stale limit);
}
perform d (renews clock id worker) = record d { events = (renew_claim d.events clock id worker).0 }
perform d (completes id worker at) = record d { events = (complete d.events id worker at).0 }
perform d (reschedules clock id worker at code most) = record d {
  events = (reschedule d.events clock id worker at code most).0;
}
perform d (purges before limit) = record d { events = (purge_completed d.events before limit).0 }
perform d (resolves photo_exists clock id o reason action) =
    let a = resolve_dead_letter photo_exists d.events d.journal clock id o reason action in
    record { events = a.0; journal = a.1 }
perform d (defers clock id worker) = record d { events = defer d.events clock id worker }
perform d (checkpoints clock id worker) = record d { events = checkpoint d.events clock id worker }
perform d (schedules fresh clock available_at n) = record d {
  events = schedule fresh clock available_at n d.events;
}
perform d (hastens clock n) = record d { events = hasten clock n d.events }
perform d (unschedules checkouts) = record d { events = unschedule checkouts d.events }
perform d (erases type aggregates) = record d { events = erase_jobs type aggregates d.events }

-- What the callers see to: `randomUUID()` gives an id that no row has, an operator's reason has
-- been validated, and the codes of the failures are identifiers.
abbrev pub Allowed : Db → Op → Type 0
Allowed d (enqueues fresh now n) = exists_where (λ e. e.id == fresh) d.events ≡ false
Allowed d (requeues fresh now n) = exists_where (λ e. e.id == fresh) d.events ≡ false
Allowed d (resolves photo_exists clock id o reason action) = IsReason reason
Allowed d (schedules fresh clock available_at n) =
    exists_where (λ e. e.id == fresh) d.events ≡ false
Allowed d (reschedules clock id worker at code most) = is_error_code code ≡ true
Allowed d _ = Unit

unfoldable pub run : Db → List Op → Db
unfolding perform
run d [] = d
run d (op ∷ ops) = run (perform d op) ops

abbrev pub AllowedRun : Db → List Op → Type 0
AllowedRun d [] = Unit
AllowedRun d (op ∷ ops) = Allowed d op × AllowedRun (perform d op) ops
