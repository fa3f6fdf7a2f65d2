-- ===== src/Outbox/Deferral.antt =====
-- src/privacy/erasure.repository.ts: the two statements by which an account erasure gives its job
-- back to the queue, `defer` when the account is busy and the checkpoint at the end of `advance`
-- and `deleteSwipeBatch`. The checkpoint names no status: an owner stands on a job in hand only.
use histae_api.Prelude.{
  ℕ, ◌+◌, ◌-◌, ◌≡◌, true, ◌&&◌, List, none, arith, All, All-update_where, ◌==◌, holds, update_where,
}
use histae_api.Outbox.Models.{Event, Status}
use histae_api.Outbox.Store.{is_owned}
use histae_api.Outbox.Store.Constraints.{IsStorable}

-- `GREATEST(0, attempts - 1)` is the subtraction of the naturals.
unfoldable pub deferred : ℕ → Event → Event
deferred clock e = record e {
  status = Status.pending;
  attempts = e.attempts - 1;
  available_at = clock + 5000;
  locked_at = none;
  locked_by = none;
}

unfoldable pub defer : List Event → ℕ → ℕ → ℕ → List Event
unfolding deferred
defer t clock event_id worker = update_where (is_owned event_id worker) (deferred clock) t

unfoldable pub checkpointed : ℕ → Event → Event
checkpointed clock e = record e {
  status = Status.pending;
  attempts = 0;
  available_at = clock + 1000;
  locked_at = none;
  locked_by = none;
  last_error_code = none;
}

unfoldable pub checkpoint : List Event → ℕ → ℕ → ℕ → List Event
unfolding checkpointed
checkpoint t clock event_id worker =
    update_where (λ e. e.id == event_id && holds e.locked_by worker) (checkpointed clock) t

deferred-IsStorable :
    (clock id worker : ℕ) (e : Event)
    → is_owned id worker e ≡ true
    → IsStorable e
    → IsStorable (deferred clock e)
unfolding deferred is_owned
deferred-IsStorable clock id worker e o s = grind arith

pub defer-IsStorable :
    (t : List Event) (clock id worker : ℕ)
    → All IsStorable t
    → All IsStorable (defer t clock id worker)
unfolding defer
defer-IsStorable t clock id worker h =
    All-update_where IsStorable (is_owned id worker) (deferred clock) t
      (deferred-IsStorable clock id worker) h

checkpointed-IsStorable :
    (clock id worker : ℕ) (e : Event)
    → (e.id == id && holds e.locked_by worker) ≡ true
    → IsStorable e
    → IsStorable (checkpointed clock e)
unfolding checkpointed
checkpointed-IsStorable clock id worker e o s = grind arith

pub checkpoint-IsStorable :
    (t : List Event) (clock id worker : ℕ)
    → All IsStorable t
    → All IsStorable (checkpoint t clock id worker)
unfolding checkpoint
checkpoint-IsStorable t clock id worker h =
    All-update_where IsStorable (λ e. e.id == id && holds e.locked_by worker) (checkpointed clock) t
      (checkpointed-IsStorable clock id worker) h
