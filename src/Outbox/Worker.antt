-- ===== src/Outbox/Worker.antt =====
-- src/outbox/outbox-worker.service.ts. The instants that `process` reads are an argument, and so is
-- the dispatcher, which may write to the table itself and ends in one of three ways.
pub mod Retries
pub mod Settlement
pub mod Groups
pub mod Purging
pub mod Concurrent
mod Tests
use histae_api.Prelude.{
  ℕ, zero, suc, String, ◌+◌, ◌-◌, ◌*◌, ◌^◌, Bool, true, false, ◌||◌, List, [], ◌∷◌, Option, none,
  some, ltb, leb, if◌then◌else◌, length, take, drop, min, ◌==◌,
}
use histae_api.Outbox.Models.{Event, RetryResult}
use histae_api.Outbox.Store.{claim_batch, renew_claim, complete, reschedule}
use histae_api.Outbox.Upkeep.{purge_completed}

abbrev completed_retention_millis : ℕ
completed_retention_millis = 7 * 24 * 60 * 60 * 1000

abbrev completed_purge_interval_millis : ℕ
completed_purge_interval_millis = 60 * 60 * 1000

abbrev batch_size : ℕ
batch_size = 50

abbrev handler_concurrency : ℕ
handler_concurrency = 5

abbrev pub max_attempts : ℕ
max_attempts = 10

abbrev max_retry_delay_millis : ℕ
max_retry_delay_millis = 60000

-- src/outbox/outbox.constants.ts
abbrev outbox_lock_timeout_millis : ℕ
outbox_lock_timeout_millis = 5 * 60 * 1000

-- `Math.max(0, attempts - 1)`
failures_before : ℕ → ℕ
failures_before zero = 0
failures_before (suc n) = n

pub retry_delay_millis : ℕ → ℕ
unfolding failures_before
retry_delay_millis attempts = min (1000 * 2 ^ failures_before attempts) max_retry_delay_millis

-- What a handler may throw.
pub data HandlerError : Type 0 where
  billing_reconciliation : (code : String) (permanent : Bool) → HandlerError
  erasure_step : (code : String) → HandlerError
  push_delivery object_storage_unavailable other : HandlerError

pub record Failure : Type 0 where
  pub code : String
  pub permanent : Bool

pub outbox_failure : HandlerError → Failure
outbox_failure (billing_reconciliation code permanent) = record {
  code = code;
  permanent = permanent;
}
outbox_failure (erasure_step code) = record { code = code; permanent = false }
outbox_failure push_delivery = record { code = "push_delivery_unavailable"; permanent = false }
outbox_failure object_storage_unavailable = record {
  code = "object_storage_unavailable";
  permanent = false;
}
outbox_failure other = record { code = "handler_failed"; permanent = false }

pub data Outcome : Type 0 where
  completed deferred : Outcome
  failed : HandlerError → Outcome

-- `OutboxWorkerResult`
pub record Tally : Type 0 where
  pub claimed : ℕ
  pub completed : ℕ
  pub deferred : ℕ
  pub retried : ℕ
  pub dead_lettered : ℕ
  pub purged : ℕ
  pub purge_batches : ℕ
  pub work_remaining : Bool

-- The clocks read by one call of `process`: that of the renewal, `new Date()` at the completion,
-- `Date.now()` at the failure, and that of the statement which gives the job back.
pub record Instants : Type 0 where
  pub renewed : ℕ
  pub processed : ℕ
  pub failed : ℕ
  pub given_back : ℕ

pub count_retry : RetryResult → Tally → Tally
count_retry RetryResult.pending r = record r { retried = r.retried + 1 }
count_retry RetryResult.dead_letter r = record r { dead_lettered = r.dead_lettered + 1 }
count_retry RetryResult.not_owned r = r

module _ (dispatch : List Event → Event → ℕ → List Event × Outcome) (worker : ℕ) where
  -- The `catch` of `process`.
  pub give_back : List Event → Event → Instants → Failure → Tally → List Event × Tally
  unfolding count_retry retry_delay_millis
  give_back t event at failure r =
      let (t', retry) =
        reschedule t at.given_back event.id worker (at.failed + retry_delay_millis event.attempts)
          failure.code (if failure.permanent then 1 else max_attempts) in
      (t', count_retry retry r)

  -- The end of the `try` of `process`.
  pub settle : Outcome → List Event → Event → Instants → Tally → List Event × Tally
  unfolding give_back outbox_failure
  settle deferred t event at r = (t, record r { deferred = r.deferred + 1 })
  settle completed t event at r =
      let (t', done) = complete t event.id worker at.processed in
      (t', if done then record r { completed = r.completed + 1 } else r)
  settle (failed error) t event at r = give_back t event at (outbox_failure error) r

  pub process : List Event → Event → Instants → Tally → List Event × Tally
  unfolding settle
  process t event at r =
      let (t', owned) = renew_claim t at.renewed event.id worker in
      if owned
      then (let (t'', outcome) = dispatch t' event worker in settle outcome t'' event at r)
      else (t', r)

  -- One group of `Promise.all`, with its calls one after the other; Worker/Concurrent has them side
  -- by side.
  pub process_group : (Event → Instants) → List Event → List Event → Tally → List Event × Tally
  process_group at [] t r = (t, r)
  process_group at (e ∷ es) t r = let (t', r') = process t e (at e) r in process_group at es t' r'

  -- The loop over the groups of `runOnce`, on fuel; the length of the list is enough.
  pub process_groups : (Event → Instants) → ℕ → List Event → List Event → Tally → List Event × Tally
  process_groups at zero es t r = (t, r)
  process_groups at (suc fuel) [] t r = (t, r)
  process_groups at (suc fuel) (e ∷ es) t r =
      let (t', r') = process_group at (take handler_concurrency (e ∷ es)) t r in
      process_groups at fuel (drop handler_concurrency (e ∷ es)) t' r'

pub record Purge : Type 0 where
  pub purged : ℕ
  pub batches : ℕ
  pub work_remaining : Bool

-- The loop of `purgeCompleted`; `rounds` is maxBatches - batches.
purge_from : ℕ → List Event → ℕ → ℕ → ℕ → ℕ → ℕ → List Event × Purge
purge_from zero t before size purged batches last =
    (t, record { purged = purged; batches = batches; work_remaining = leb size last })
purge_from (suc rounds) t before size purged batches last =
    let (t', n) = purge_completed t before size in
    let rest = purge_from rounds t' before size (purged + n) (batches + 1) n in
    if ltb n size
    then (t', record { purged = purged + n; batches = batches + 1; work_remaining = false })
    else rest

pub purge_loop : List Event → ℕ → ℕ → ℕ → List Event × Purge
unfolding purge_from
purge_loop t before size max_batches = purge_from max_batches t before size 0 0 0

-- The fields of the service that its runs read and write.
pub record WorkerState : Type 0 where
  pub last_completed_purge_at : Option ℕ
  pub purge_batch_size : ℕ
  pub purge_max_batches : ℕ

purge_due : WorkerState → ℕ → Bool
purge_due s now = elim s.last_completed_purge_at [
  | none ↦ true
  | some last ↦ leb completed_purge_interval_millis (now - last)
]

start_tally : List Event → Tally
start_tally events = record {
  claimed = length events;
  completed = 0;
  deferred = 0;
  retried = 0;
  dead_lettered = 0;
  purged = 0;
  purge_batches = 0;
  work_remaining = length events == batch_size;
}

module _ (dispatch : List Event → Event → ℕ → List Event × Outcome) (worker : ℕ) where
  purge_step : WorkerState → ℕ → List Event → Tally → List Event × WorkerState × Tally
  unfolding purge_due
  purge_step s now t r =
      let (t', p) =
        purge_loop t (now - completed_retention_millis) s.purge_batch_size s.purge_max_batches in
      if purge_due s now
      then (
        t',
        record s { last_completed_purge_at = some now },
        record r {
          purged = p.purged;
          purge_batches = p.batches;
          work_remaining = r.work_remaining || p.work_remaining;
        },
      )
      else (t, s, r)

  -- `runOnce`; `none` is the failure of the claim, which `poll` catches.
  pub run_once :
      (ℕ → Bool)
      → (Event → Instants)
      → ℕ
      → WorkerState
      → List Event
      → Option (List Event × WorkerState × Tally)
  unfolding purge_step start_tally
  run_once locked at now s t =
      elim (claim_batch t locked worker now (now - outbox_lock_timeout_millis) batch_size) [
        | none ↦ none
        | some (t', events) ↦
            let (t'', r) =
              process_groups dispatch worker at (length events) events t' (start_tally events) in
            some (purge_step s now t'' r)
      ]
