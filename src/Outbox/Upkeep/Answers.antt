-- ===== src/Outbox/Upkeep/Answers.antt =====
-- What an operator's answer to a job makes of the row, of the journal and of the caller.
use histae_api.Prelude.{
  ℕ, ◌≡◌, ◌≢◌, ◌⊎◌, refl, inl, inr, true, false, Bool, Bool-cases, List, ◌∷◌, none, some, arith,
  find_where, update_where, ◌==◌,
}
use histae_api.Outbox.Models.{
  Event, EventType, photo_delete, notification_push, account_erase, billing_subscription_reconcile,
  billing_customer_reconcile, Status, Operator, OperatorAction, Action, retry, discard, updated,
  not_dead_letter, discard_not_allowed, OperatorResult, is_dead_letter,
}
use histae_api.Outbox.Upkeep.{resolve_dead_letter, resolution, abandoned, may_discard}
use histae_api.Outbox.Store.{reset}

-- A job whose loss harms nothing: a push, or the deletion of a photo that has no row any more.
abbrev pub IsDroppable : (ℕ → Bool) → Event → Type 0
IsDroppable photo_exists e =
    (e.event_type ≡ notification_push)
    ⊎ ((e.event_type ≡ photo_delete) × (photo_exists e.aggregate_id ≡ false))

droppable :
    (photo_exists : ℕ → Bool) (e : Event)
    → may_discard photo_exists e ≡ true
    → IsDroppable photo_exists e
unfolding may_discard
droppable photo_exists e h = go e.event_type refl
  where
    go : (type : EventType) → e.event_type ≡ type → IsDroppable photo_exists e
    go photo_delete eq = ground arith
    go notification_push eq = inl eq
    go account_erase eq = absurd (ground arith)
    go billing_subscription_reconcile eq = absurd (ground arith)
    go billing_customer_reconcile eq = absurd (ground arith)

may_drop :
    (photo_exists : ℕ → Bool) (e : Event)
    → IsDroppable photo_exists e
    → may_discard photo_exists e ≡ true
unfolding may_discard
may_drop photo_exists e (inl push) = ground arith
may_drop photo_exists e (inr (photo, gone)) = ground arith

module _ (photo_exists : ℕ → Bool) (t : List Event) (journal : List OperatorAction) (clock id : ℕ)
    (o : Operator) (reason : List ℕ) (e : Event)
    (found : find_where (λ r. r.id == id) t ≡ some e) where
  abbrev pub answered : Action → List Event × List OperatorAction × OperatorResult
  answered action = resolve_dead_letter photo_exists t journal clock id o reason action

  abbrev pub noted : Action → OperatorAction
  noted action = record {
    outbox_event_id = e.id;
    operator = o;
    event_type = e.event_type;
    action = action;
    reason = reason;
  }

  abbrev pub after_retry : List Event
  after_retry =
      update_where (λ r. r.id == id)
        (λ r. record r {
          status = Status.pending;
          attempts = 0;
          available_at = clock;
          locked_at = none;
          locked_by = none;
          last_error_code = none;
          processed_at = none;
          dead_lettered_at = none;
          resolved_at = none;
          resolved_by = none;
          resolution_reason = none;
        })
        t

  abbrev pub after_discard : List Event
  after_discard =
      update_where (λ r. r.id == id)
        (λ r. record r {
          status = Status.discarded;
          locked_at = none;
          locked_by = none;
          processed_at = none;
          resolved_at = some clock;
          resolved_by = some o.user_id;
          resolution_reason = some reason;
        })
        t

  alive_lem :
      (a : Action) → e.status ≢ Status.dead_letter → answered a ≡ (t, journal, not_dead_letter)
  unfolding resolve_dead_letter
  alive_lem a alive = elim (Bool-cases (is_dead_letter e.status)) [
    | inl h ↦ absurd (alive (grind arith))
    | inr h ↦ ground (arith, found)
  ]

  retried :
      e.status ≡ Status.dead_letter → answered retry ≡ (after_retry, noted retry ∷ journal, updated)
  unfolding resolve_dead_letter resolution reset
  retried dead = ground (arith, found)

  dropped :
      e.status ≡ Status.dead_letter
      → may_discard photo_exists e ≡ true
      → answered discard ≡ (after_discard, noted discard ∷ journal, updated)
  unfolding resolve_dead_letter resolution abandoned
  dropped dead may = rw (found, resolve_dead_letter) (rw dead (rw (may, may_discard) refl))

  refused :
      e.status ≡ Status.dead_letter
      → may_discard photo_exists e ≡ false
      → answered discard ≡ (t, journal, discard_not_allowed)
  unfolding resolve_dead_letter
  refused dead may = unfold may_discard in ground (arith, found)

  -- The answers for a job that exists. One that is no dead letter is left as it is. A dead letter
  -- that is retried becomes pending, due now, without attempts and without any trace of its past.
  -- One that is discarded keeps the date of its death and gains the operator, the instant and the
  -- reason, if it is a push or the deletion of a photo that is gone, and is refused otherwise. The
  -- journal gains one entry when the job is rewritten, and none otherwise.
  pub resolve_dead_letter_lem :
      ((a : Action) → e.status ≢ Status.dead_letter → answered a ≡ (t, journal, not_dead_letter))
      × (e.status ≡ Status.dead_letter
          → ((answered retry ≡ (after_retry, noted retry ∷ journal, updated))
              × (IsDroppable photo_exists e
                  → answered discard ≡ (after_discard, noted discard ∷ journal, updated))
              × (¬ IsDroppable photo_exists e
                  → answered discard ≡ (t, journal, discard_not_allowed))))
  resolve_dead_letter_lem = (
    alive_lem,
    λ dead. (
      retried dead,
      λ may. dropped dead (may_drop photo_exists e may),
      λ unsafe. elim (Bool-cases (may_discard photo_exists e)) [
        | inl h ↦ absurd (unsafe (droppable photo_exists e h))
        | inr h ↦ refused dead h
      ],
    ),
  )
