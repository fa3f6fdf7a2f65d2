-- ===== src/Outbox/Store.antt =====
-- src/outbox/outbox.repository.ts: each method as a function of the table. A statement that reads
-- `clock_timestamp()` takes the instant as `clock`, and `randomUUID()` is the argument `fresh`.
pub mod Constraints
pub mod Claims
pub mod Poison
use histae_api.Prelude.{
  ℕ, String, ◌+◌, Bool, true, false, not, ◌&&◌, ◌||◌, List, ◌∷◌, map, Option, none, some, ltb, leb,
  ◌==◌, if◌then◌else◌, holds, at_or_before, take, update_where, select_where, find_where,
  exists_where, count_where, order_by, one_of,
}
use histae_api.Outbox.Models.{
  Status, Event, NewEvent, RetryResult, is_pending, is_processing, is_dead_letter, same_key,
}

-- The row that INSERT makes: the given columns and the defaults of the table.
unfoldable pub inserted : ℕ → ℕ → NewEvent → Event
inserted fresh now n = record {
  id = fresh;
  event_type = n.event_type;
  aggregate_id = n.aggregate_id;
  status = Status.pending;
  attempts = 0;
  available_at = now;
  locked_at = none;
  locked_by = none;
  last_error_code = none;
  created_at = now;
  processed_at = none;
  dead_lettered_at = none;
  resolved_at = none;
  resolved_by = none;
  resolution_reason = none;
}

-- `enqueue`: ON CONFLICT DO NOTHING. The result says whether a row was inserted.
unfoldable pub enqueue : List Event → ℕ → ℕ → NewEvent → List Event × Bool
unfolding inserted
enqueue t fresh now n =
    if exists_where (same_key n) t then (t, false) else (inserted fresh now n ∷ t, true)

-- The columns that `requeue` and the retry of a dead letter write.
unfoldable pub reset : ℕ → Event → Event
reset clock e = record e {
  status = Status.pending;
  attempts = 0;
  available_at = clock;
  locked_at = none;
  locked_by = none;
  last_error_code = none;
  processed_at = none;
  dead_lettered_at = none;
  resolved_at = none;
  resolved_by = none;
  resolution_reason = none;
}

-- `requeue`: ON CONFLICT DO UPDATE.
unfoldable pub requeue : List Event → ℕ → ℕ → NewEvent → List Event
unfolding inserted reset
requeue t fresh now n =
    if exists_where (same_key n) t
    then update_where (same_key n) (reset now) t
    else inserted fresh now n ∷ t

-- The WHERE clause of `claimBatch`: due, or held by a worker that has been silent too long.
unfoldable pub is_claimable : ℕ → ℕ → Event → Bool
is_claimable now stale_before e =
    is_pending e.status && leb e.available_at now
    || is_processing e.status && at_or_before e.locked_at stale_before

-- ORDER BY available_at, created_at, id
pub claim_order : Event → Event → Bool
claim_order a b =
    ltb a.available_at b.available_at
    || a.available_at == b.available_at
      && (ltb a.created_at b.created_at || a.created_at == b.created_at && leb a.id b.id)

-- The candidates of `claimBatch`. FOR UPDATE SKIP LOCKED passes over the rows that another
-- transaction holds: `locked` tells which.
unfoldable pub candidates : (ℕ → Bool) → ℕ → ℕ → ℕ → List Event → List Event
unfolding is_claimable claim_order
candidates locked now stale_before limit t = take limit (
    order_by claim_order
      (select_where (λ e. is_claimable now stale_before e && not (locked e.id)) t))

unfoldable pub claimed : ℕ → ℕ → Event → Event
claimed worker now e = record e {
  status = Status.processing;
  attempts = e.attempts + 1;
  locked_at = some now;
  locked_by = some worker;
}

-- The constraint outbox_event_attempts_check.
abbrev attempts_check : Event → Bool
attempts_check e = leb e.attempts 100

-- `claimBatch`: the new table and the rows of RETURNING, in the order of the table. A row past
-- the constraint makes the whole statement fail: `none`, and the table stays as it was.
unfoldable pub claim_batch :
    List Event → (ℕ → Bool) → ℕ → ℕ → ℕ → ℕ → Option (List Event × List Event)
unfolding candidates claimed
claim_batch t locked worker now stale_before limit =
    let chosen = map (λ e. e.id) (candidates locked now stale_before limit t) in
    let t' = update_where (λ e. one_of chosen e.id) (claimed worker now) t in
    let rows = select_where (λ e. one_of chosen e.id) t' in
    if exists_where (λ e. not (attempts_check e)) rows then none else some (t', rows)

-- `WHERE id = $1 AND status = 'processing' AND locked_by = $2`
unfoldable pub is_owned : ℕ → ℕ → Event → Bool
is_owned event_id worker e = e.id == event_id && is_processing e.status && holds e.locked_by worker

-- `rowCount === 1`
abbrev one_row : ℕ → Bool
one_row n = n == 1

unfoldable pub renew_claim : List Event → ℕ → ℕ → ℕ → List Event × Bool
unfolding is_owned
renew_claim t clock event_id worker = (
  update_where (is_owned event_id worker) (λ e. record e { locked_at = some clock }) t,
  one_row (count_where (is_owned event_id worker) t),
)

unfoldable pub finished : ℕ → Event → Event
finished processed_at e = record e {
  status = Status.completed;
  processed_at = some processed_at;
  locked_at = none;
  locked_by = none;
  last_error_code = none;
  dead_lettered_at = none;
}

unfoldable pub complete : List Event → ℕ → ℕ → ℕ → List Event × Bool
unfolding is_owned finished
complete t event_id worker processed_at = (
  update_where (is_owned event_id worker) (finished processed_at) t,
  one_row (count_where (is_owned event_id worker) t),
)

unfoldable pub rescheduled : ℕ → ℕ → String → ℕ → Event → Event
rescheduled clock available_at error_code max_attempts e = record e {
  status = (if leb max_attempts e.attempts then Status.dead_letter else Status.pending);
  available_at = available_at;
  locked_at = none;
  locked_by = none;
  last_error_code = some error_code;
  dead_lettered_at = (if leb max_attempts e.attempts then some clock else none);
}

-- `result.rows[0]?.status`, read as the method reads it.
unfoldable pub retry_result : Option Event → RetryResult
retry_result none = RetryResult.not_owned
retry_result (some e) =
    if is_pending e.status
    then RetryResult.pending
    else if is_dead_letter e.status
    then RetryResult.dead_letter
    else RetryResult.not_owned

unfoldable pub reschedule : List Event → ℕ → ℕ → ℕ → ℕ → String → ℕ → List Event × RetryResult
unfolding is_owned rescheduled retry_result
reschedule t clock event_id worker available_at error_code max_attempts =
    let rows = select_where (is_owned event_id worker) t in
    let write = rescheduled clock available_at error_code max_attempts in
    (
      update_where (is_owned event_id worker) write t,
      retry_result (find_where (λ _. true) (map write rows)),
    )
