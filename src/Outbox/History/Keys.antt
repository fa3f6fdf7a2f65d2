-- ===== src/Outbox/History/Keys.antt =====
-- The primary key and the key (event_type, aggregate_id) under the statements of the history.
use histae_api.Prelude.{
  ℕ, ◌≡◌, refl, sym, subst, ap, Bool, false, ◌&&◌, List, ◌∷◌, arith, inl, inr, Distinct,
  Distinct-update_where, Distinct-delete_where, same_id, exists_where, ◌==◌, Bool-cases,
  Option-cases, update_where, delete_where,
}
use histae_api.Outbox.Models.{Event, NewEvent, same_type, same_key, Action, retry, discard}
use histae_api.Outbox.Store.{
  enqueue, requeue, claim_batch, renew_claim, complete, reschedule, inserted, reset, claimed,
}
use histae_api.Outbox.Store.Claims.{claim_batch-some, is_picked}
use histae_api.Outbox.Upkeep.{purge_completed, resolution}
use histae_api.Outbox.Upkeep.Constraints.{resolve_dead_letter_cases}
use histae_api.Outbox.Scheduling.{schedule, hasten, unschedule, erase_jobs, is_over}
use histae_api.Outbox.Deferral.{defer, checkpoint}
use histae_api.Outbox.History.{
  Db, Op, enqueues, requeues, claims, renews, completes, reschedules, purges, resolves, defers,
  checkpoints, perform, Allowed, events_of, schedules, hastens, unschedules, erases,
}

abbrev same_columns : Event → Event → Bool
same_columns a b = same_type b.event_type a.event_type && b.aggregate_id == a.aggregate_id

-- UNIQUE (id) and UNIQUE (event_type, aggregate_id).
pub record Keys (t : List Event) : Type 0 where
  pub ids : Distinct (same_id (λ e. e.id)) t
  pub columns : Distinct same_columns t

abbrev KeepsKey : (Event → Event) → Type 0
KeepsKey f =
    (e : Event)
    → ((f e).id ≡ e.id) × ((f e).event_type ≡ e.event_type) × ((f e).aggregate_id ≡ e.aggregate_id)

update-Keys :
    (p : Event → Bool) (f : Event → Event) (t : List Event)
    → KeepsKey f
    → Keys t
    → Keys (update_where p f t)
update-Keys p f t keep k = record {
  ids =
      Distinct-update_where (same_id (λ e. e.id)) p f t (λ a b. ground (arith, keep b))
        (λ a b. ground (arith, keep a)) k.ids;
  columns =
      Distinct-update_where same_columns p f t (λ a b. ground (arith, keep b))
        (λ a b. ground (arith, keep a)) k.columns;
}

inserted-Keys :
    (t : List Event) (fresh now : ℕ) (n : NewEvent)
    → exists_where (λ e. e.id == fresh) t ≡ false
    → exists_where (same_key n) t ≡ false
    → Keys t
    → Keys (inserted fresh now n ∷ t)
unfolding inserted
inserted-Keys t fresh now n h k d = record { ids = (h, d.ids); columns = (k, d.columns) }

delete-Keys : (p : Event → Bool) (t : List Event) → Keys t → Keys (delete_where p t)
delete-Keys p t k = record {
  ids = Distinct-delete_where (same_id (λ e. e.id)) p t k.ids;
  columns = Distinct-delete_where same_columns p t k.columns;
}

claim-Keys :
    (t : List Event) (locked : ℕ → Bool) (worker now stale limit : ℕ)
    → Keys t
    → Keys (events_of t (claim_batch t locked worker now stale limit))
claim-Keys t locked worker now stale limit k =
    elim (Option-cases (claim_batch t locked worker now stale limit)) [
      | inl e ↦ rw e k
      | inr ((t', rows), e) ↦ rw e (
          rw ((claim_batch-some locked worker now stale limit t e).0) (
            update-Keys (is_picked locked worker now stale limit t) (claimed worker now) t
              (λ r. unfold claimed in (refl, refl, refl)) k))
    ]

resolution-KeepsKey :
    (action : Action) (clock : ℕ) (o : _) (reason : List ℕ)
    → KeepsKey (resolution action clock o reason)
unfolding resolution
resolution-KeepsKey retry clock o reason e = (refl, refl, refl)
resolution-KeepsKey discard clock o reason e = (refl, refl, refl)

pub perform-Keys : (d : Db) (op : Op) → Allowed d op → Keys d.events → Keys (perform d op).events
unfolding perform enqueue requeue renew_claim complete reschedule purge_completed defer checkpoint
    schedule hasten unschedule erase_jobs
perform-Keys d (enqueues fresh now n) ok k =
    elim (Bool-cases (exists_where (same_key n) d.events)) [
      | inl e ↦ rw e k
      | inr e ↦ rw e (inserted-Keys d.events fresh now n ok e k)
    ]
perform-Keys d (requeues fresh now n) ok k =
    elim (Bool-cases (exists_where (same_key n) d.events)) [
      | inl e ↦ rw e (update-Keys (same_key n) (reset now) d.events (λ r. (refl, refl, refl)) k)
      | inr e ↦ rw e (inserted-Keys d.events fresh now n ok e k)
    ]
perform-Keys d (claims locked worker now stale limit) ok k =
    claim-Keys d.events locked worker now stale limit k
perform-Keys d (renews clock id worker) ok k = update-Keys _ _ d.events (λ r. (refl, refl, refl)) k
perform-Keys d (completes id worker at) ok k = update-Keys _ _ d.events (λ r. (refl, refl, refl)) k
perform-Keys d (reschedules clock id worker at code most) ok k =
    update-Keys _ _ d.events (λ r. (refl, refl, refl)) k
perform-Keys d (purges before limit) ok k = delete-Keys _ d.events k
perform-Keys d (resolves photo_exists clock id o reason action) ok k =
    elim (resolve_dead_letter_cases photo_exists d.events d.journal clock id o reason action) [
      | inl (_, eq) ↦ subst Keys (ap (λ a. a.0) (sym eq)) k
      | inr (e, found, inl (inl (_, eq))) ↦ subst Keys (ap (λ a. a.0) (sym eq)) k
      | inr (e, found, inl (inr (_, _, _, eq))) ↦ subst Keys (ap (λ a. a.0) (sym eq)) k
      | inr (e, found, inr (dead, _, eq)) ↦ subst Keys (ap (λ a. a.0) (sym eq)) (
          update-Keys _ (resolution action clock o reason) d.events
            (resolution-KeepsKey action clock o reason) k)
    ]
perform-Keys d (schedules fresh clock available_at n) ok k =
    elim (Bool-cases (exists_where (same_key n) d.events)) [
      | inl e ↦
          rw e (update-Keys (is_over n) (reset available_at) d.events (λ r. (refl, refl, refl)) k)
      | inr e ↦ rw e (unfold inserted in record { ids = (ok, k.ids); columns = (e, k.columns) })
    ]
perform-Keys d (hastens clock n) ok k = update-Keys _ _ d.events (λ r. (refl, refl, refl)) k
perform-Keys d (unschedules checkouts) ok k = delete-Keys _ d.events k
perform-Keys d (erases type aggregates) ok k = delete-Keys _ d.events k
perform-Keys d (defers clock id worker) ok k = update-Keys _ _ d.events (λ r. (refl, refl, refl)) k
perform-Keys d (checkpoints clock id worker) ok k =
    update-Keys _ _ d.events (λ r. (refl, refl, refl)) k
