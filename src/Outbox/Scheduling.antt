-- ===== src/Outbox/Scheduling.antt =====
-- The statements on `outbox_event` outside src/outbox: the billing schedules its reconciliations, hastens
-- them and takes them back (src/billing/billing.repository.ts,
-- src/billing/billing-reconciliation.repository.ts), and an erasure deletes the jobs of its account
-- (src/privacy/erasure.repository.ts).
use histae_api.Prelude.{
  ℕ, ◌&&◌, ◌||◌, Bool, List, ◌∷◌, All, arith, All-update_where, exists_where, update_where,
  delete_where, one_of, if◌then◌else◌,
}
use histae_api.Outbox.Models.{
  Event, EventType, NewEvent, billing_customer_reconcile, same_type, same_key, is_pending,
  is_completed, is_discarded,
}
use histae_api.Outbox.Store.{inserted, reset}
use histae_api.Outbox.Store.Constraints.{IsStorable, reset-IsStorable}

-- A job that the billing may schedule again.
abbrev pub is_over : NewEvent → Event → Bool
is_over n e = same_key n e && (is_completed e.status || is_discarded e.status)

-- INSERT INTO outbox_event … ON CONFLICT DO UPDATE … WHERE status IN ('completed', 'discarded')
unfoldable pub schedule : ℕ → ℕ → ℕ → NewEvent → List Event → List Event
unfolding inserted reset
schedule fresh clock available_at n t =
    if exists_where (same_key n) t
    then update_where (is_over n) (reset available_at) t
    else (record (inserted fresh clock n) { available_at = available_at }) ∷ t

abbrev pub is_waiting : NewEvent → Event → Bool
is_waiting n e = same_key n e && is_pending e.status

-- The UPDATE of `recordCreatedCustomer`.
unfoldable pub hasten : ℕ → NewEvent → List Event → List Event
hasten clock n t = update_where (is_waiting n) (λ e. record e { available_at = clock }) t

-- The DELETE of `saveCustomer`, by the checkouts that it joins.
unfoldable pub unschedule : List ℕ → List Event → List Event
unschedule checkouts t =
    delete_where
      (λ e.
        same_type e.event_type billing_customer_reconcile
        && one_of checkouts e.aggregate_id
        && (is_pending e.status || is_completed e.status || is_discarded e.status))
      t

-- The two DELETEs of the end of `advance`, by the type and the aggregates.
unfoldable pub erase_jobs : EventType → List ℕ → List Event → List Event
erase_jobs type aggregates t =
    delete_where (λ e. same_type e.event_type type && one_of aggregates e.aggregate_id) t

scheduled-IsStorable :
    (fresh clock available_at : ℕ) (n : NewEvent)
    → IsStorable (record (inserted fresh clock n) { available_at = available_at })
unfolding inserted
scheduled-IsStorable fresh clock available_at n = ground arith

pub schedule-IsStorable :
    (fresh clock available_at : ℕ) (n : NewEvent) (t : List Event)
    → All IsStorable t
    → All IsStorable (schedule fresh clock available_at n t)
unfolding schedule
schedule-IsStorable fresh clock available_at n t h = ground (
  arith,
  scheduled-IsStorable fresh clock available_at n,
  All-update_where IsStorable (is_over n) (reset available_at) t
      (λ e _ _. reset-IsStorable available_at e) h,
)

hastened-IsStorable :
    (clock : ℕ) (e : Event) → IsStorable e → IsStorable (record e { available_at = clock })
hastened-IsStorable clock e s = grind arith

pub hasten-IsStorable :
    (clock : ℕ) (n : NewEvent) (t : List Event)
    → All IsStorable t
    → All IsStorable (hasten clock n t)
unfolding hasten
hasten-IsStorable clock n t h =
    All-update_where IsStorable (is_waiting n) _ t (λ e _. hastened-IsStorable clock e) h
