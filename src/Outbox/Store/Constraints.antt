-- ===== src/Outbox/Store/Constraints.antt =====
-- Every statement of the store leaves rows that meet the constraints of the table.
use histae_api.Prelude.{String, ℕ, ◌≤◌, ◌≡◌, true, List, some, arith, All, All-update_where}
use histae_api.Outbox.Models.{Event, NewEvent, same_key}
use histae_api.Outbox.WellFormed.{WellFormed, is_error_code}
use histae_api.Outbox.Store.{
  inserted, enqueue, reset, requeue, is_owned, renew_claim, finished, complete, rescheduled,
  reschedule,
}

-- A row that meets every CHECK constraint, the bound on the attempts included.
pub record IsStorable (e : Event) : Type 0 where
  pub shape : WellFormed e
  pub bounded : e.attempts ≤ 100

pub inserted-IsStorable : (fresh now : ℕ) (n : NewEvent) → IsStorable (inserted fresh now n)
unfolding inserted
inserted-IsStorable fresh now n = ground arith

pub reset-IsStorable : (clock : ℕ) (e : Event) → IsStorable (reset clock e)
unfolding reset
reset-IsStorable clock e = ground arith

finished-IsStorable :
    (at id worker : ℕ) (e : Event)
    → is_owned id worker e ≡ true
    → IsStorable e
    → IsStorable (finished at e)
unfolding is_owned finished
finished-IsStorable at id worker e o w = grind arith

rescheduled-IsStorable :
    (clock at : ℕ) (code : String) (most id worker : ℕ) (e : Event)
    → is_error_code code ≡ true
    → is_owned id worker e ≡ true
    → IsStorable e
    → IsStorable (rescheduled clock at code most e)
unfolding is_owned rescheduled
rescheduled-IsStorable clock at code most id worker e fits o w = grind arith

renewed-IsStorable :
    (clock id worker : ℕ) (e : Event)
    → is_owned id worker e ≡ true
    → IsStorable e
    → IsStorable (record e { locked_at = some clock })
unfolding is_owned
renewed-IsStorable clock id worker e o w = grind arith

pub enqueue-IsStorable :
    (t : List Event) (fresh now : ℕ) (n : NewEvent)
    → All IsStorable t
    → All IsStorable (enqueue t fresh now n).0
unfolding enqueue
enqueue-IsStorable t fresh now n h = ground (arith, inserted-IsStorable fresh now n)

pub requeue-IsStorable :
    (t : List Event) (fresh now : ℕ) (n : NewEvent)
    → All IsStorable t
    → All IsStorable (requeue t fresh now n)
unfolding requeue
requeue-IsStorable t fresh now n h = ground (
  arith,
  inserted-IsStorable fresh now n,
  All-update_where IsStorable (same_key n) (reset now) t (λ e _ _. reset-IsStorable now e) h,
)

pub renew_claim-IsStorable :
    (t : List Event) (clock id worker : ℕ)
    → All IsStorable t
    → All IsStorable (renew_claim t clock id worker).0
unfolding renew_claim
renew_claim-IsStorable t clock id worker h =
    All-update_where IsStorable (is_owned id worker) _ t (renewed-IsStorable clock id worker) h

pub complete-IsStorable :
    (t : List Event) (id worker at : ℕ)
    → All IsStorable t
    → All IsStorable (complete t id worker at).0
unfolding complete
complete-IsStorable t id worker at h =
    All-update_where IsStorable (is_owned id worker) (finished at) t
      (finished-IsStorable at id worker) h

pub reschedule-IsStorable :
    (t : List Event) (clock id worker at : ℕ) (code : String) (most : ℕ)
    → is_error_code code ≡ true
    → All IsStorable t
    → All IsStorable (reschedule t clock id worker at code most).0
unfolding reschedule
reschedule-IsStorable t clock id worker at code most fits h =
    All-update_where IsStorable (is_owned id worker) (rescheduled clock at code most) t
      (λ e. rescheduled-IsStorable clock at code most id worker e fits) h
