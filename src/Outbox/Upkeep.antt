-- ===== src/Outbox/Upkeep.antt =====
-- src/outbox/outbox.repository.ts: the purge of finished jobs, the two answers of an operator to a
-- dead letter, the list of dead letters, and the counters of the status page.
pub mod Constraints
pub mod Answers
pub mod Snapshot
use histae_api.Prelude.{
  ℕ, Bool, true, false, not, ◌&&◌, ◌||◌, List, [], ◌∷◌, ◌++◌, map, Option, none, some, ltb, leb,
  ◌==◌, if◌then◌else◌, at_or_before, coalesce, take, update_where, delete_where, select_where,
  find_where, count_where, order_by, one_of, min,
}
use histae_api.Outbox.Models.{
  EventType, photo_delete, notification_push, account_erase, billing_subscription_reconcile,
  billing_customer_reconcile, Status, Event, Operator, OperatorResult, updated, not_found,
  not_dead_letter, discard_not_allowed, Action, retry, discard, OperatorAction, is_pending,
  is_processing, is_completed, is_dead_letter, is_discarded, same_type,
}
use histae_api.Outbox.Store.{reset}

-- An instant and an id, compared as SQL compares rows.
abbrev pub Key : Type 0
Key = ℕ × ℕ

key_lt : Key → Key → Bool
key_lt (a, i) (b, j) = ltb a b || a == b && ltb i j

pub key_le : Key → Key → Bool
key_le (a, i) (b, j) = ltb a b || a == b && leb i j

-- The two branches of UNION ALL: the rows that pass `status` with the column at or before `before`.
unfoldable pub cleanup_keys : (Status → Bool) → (Event → Option ℕ) → ℕ → ℕ → List Event → List Key
unfolding key_le
cleanup_keys status column before limit t = take limit (
    order_by key_le (
      map (λ e. (coalesce (column e) 0, e.id))
        (select_where (λ e. status e.status && at_or_before (column e) before) t)))

unfoldable pub purge_ids : ℕ → ℕ → List Event → List ℕ
unfolding cleanup_keys
purge_ids before limit t =
    map (λ k. k.1)
      (take limit (
        order_by key_le (
          cleanup_keys is_completed (λ e. e.processed_at) before limit t
          ++ cleanup_keys is_discarded (λ e. e.resolved_at) before limit t)))

-- `purgeCompleted`: the rows that stay and the number of those deleted.
unfoldable pub purge_completed : List Event → ℕ → ℕ → List Event × ℕ
unfolding purge_ids
purge_completed t before limit =
    let ids = purge_ids before limit t in
    (delete_where (λ e. one_of ids e.id) t, count_where (λ e. one_of ids e.id) t)

unfoldable pub abandoned : ℕ → Operator → List ℕ → Event → Event
abandoned clock operator reason e = record e {
  status = Status.discarded;
  locked_at = none;
  locked_by = none;
  processed_at = none;
  resolved_at = some clock;
  resolved_by = some operator.user_id;
  resolution_reason = some reason;
}

-- Which jobs may be dropped: a push notification, and the deletion of a photo whose row is gone.
pub may_discard : (ℕ → Bool) → Event → Bool
may_discard photo_exists e =
    same_type e.event_type notification_push
    || same_type e.event_type photo_delete && not (photo_exists e.aggregate_id)

is_retry : Action → Bool
is_retry retry = true
is_retry discard = false

-- The writes of `resolveDeadLetter`, once its guards have passed.
unfoldable pub resolution : Action → ℕ → Operator → List ℕ → Event → Event
unfolding reset abandoned
resolution retry clock operator reason e = reset clock e
resolution discard clock operator reason e = abandoned clock operator reason e

-- `resolveDeadLetter`, one transaction: the events, the journal of operators and the answer.
-- `photo_exists` is the answer of `SELECT 1 FROM user_photo WHERE id = $1`.
pub resolve_dead_letter :
    (ℕ → Bool)
    → List Event
    → List OperatorAction
    → ℕ
    → ℕ
    → Operator
    → List ℕ
    → Action
    → List Event × List OperatorAction × OperatorResult
unfolding may_discard is_retry resolution
resolve_dead_letter photo_exists t journal clock event_id operator reason action =
    elim (find_where (λ e. e.id == event_id) t) [
      | none ↦ (t, journal, not_found)
      | some e ↦
          if not (is_dead_letter e.status)
          then (t, journal, not_dead_letter)
          else if not (is_retry action) && not (may_discard photo_exists e)
          then (t, journal, discard_not_allowed)
          else (
            update_where (λ r. r.id == event_id) (resolution action clock operator reason) t,
            record {
              outbox_event_id = e.id;
              operator = operator;
              event_type = e.event_type;
              action = action;
              reason = reason;
            }
                ∷ journal,
            updated,
          )
    ]

-- `(dead_lettered_at, id) < ($2, $3)`, or no cursor.
before_cursor : Option Key → Key → Bool
unfolding key_lt
before_cursor none k = true
before_cursor (some c) k = key_lt k c

-- `listDeadLetters`, newest first.
list_dead_letters : List Event → ℕ → Option Key → List Event
unfolding before_cursor key_le
list_dead_letters t limit cursor = take limit (
    order_by
      (λ a b. key_le (coalesce b.dead_lettered_at 0, b.id) (coalesce a.dead_lettered_at 0, a.id))
      (select_where
        (λ e. is_dead_letter e.status && before_cursor cursor (coalesce e.dead_lettered_at 0, e.id))
        t))

-- `min(column)`: NULL over no row.
least : List ℕ → Option ℕ
least [] = none
least (n ∷ ns) = some (elim (least ns) [ none ↦ n | some m ↦ min n m ])

-- `event_type LIKE 'billing.%'`
is_billing : EventType → Bool
is_billing billing_subscription_reconcile = true
is_billing billing_customer_reconcile = true
is_billing _ = false

-- `min(available_at) FILTER (WHERE … AND status = 'pending')`
oldest_pending : (Event → Bool) → List Event → Option ℕ
unfolding least
oldest_pending filter t =
    least (map (λ e. e.available_at) (select_where (λ e. filter e && is_pending e.status) t))

-- `count(*) FILTER (WHERE … AND status = …)`
abbrev count_of : (Event → Bool) → (Status → Bool) → List Event → ℕ
count_of filter status t = count_where (λ e. filter e && status e.status) t

pub record PushStatus : Type 0 where
  pub pending : ℕ
  pub processing : ℕ
  pub completed : ℕ
  pub dead_letter : ℕ
  pub discarded : ℕ
  pub oldest_pending_at : Option ℕ

pub record BillingStatus : Type 0 where
  pub pending : ℕ
  pub processing : ℕ
  pub completed : ℕ
  pub dead_letter : ℕ
  pub oldest_pending_at : Option ℕ

pub record StatusSnapshot : Type 0 where
  pub pending : ℕ
  pub processing : ℕ
  pub dead_letter : ℕ
  pub discarded : ℕ
  pub oldest_pending_at : Option ℕ
  pub notification_push : PushStatus
  pub billing_reconciliation : BillingStatus

abbrev is_push : Event → Bool
is_push e = same_type e.event_type EventType.notification_push

pub status_snapshot : List Event → StatusSnapshot
unfolding oldest_pending is_billing
status_snapshot t = record {
  pending = count_where (λ e. is_pending e.status) t;
  processing = count_where (λ e. is_processing e.status) t;
  dead_letter = count_where (λ e. is_dead_letter e.status) t;
  discarded = count_where (λ e. is_discarded e.status) t;
  oldest_pending_at = oldest_pending (λ e. true) t;
  notification_push = record {
    pending = count_of is_push is_pending t;
    processing = count_of is_push is_processing t;
    completed = count_of is_push is_completed t;
    dead_letter = count_of is_push is_dead_letter t;
    discarded = count_of is_push is_discarded t;
    oldest_pending_at = oldest_pending is_push t;
  };
  billing_reconciliation = record {
    pending = count_of (λ e. is_billing e.event_type) is_pending t;
    processing = count_of (λ e. is_billing e.event_type) is_processing t;
    completed = count_of (λ e. is_billing e.event_type) is_completed t;
    dead_letter = count_of (λ e. is_billing e.event_type) is_dead_letter t;
    oldest_pending_at = oldest_pending (λ e. is_billing e.event_type) t;
  };
}
