-- ===== src/Outbox/History/Lifecycle.antt =====
-- The life of one job: which statuses follow which, under each statement.
use histae_api.Prelude.{
  String, ℕ, ◌≡◌, refl, sym, subst, ap, Bool, true, false, ◌&&◌, List, ◌∷◌, arith, inl, inr, ◌⊎◌,
  All, All_of_In, All-In, All-delete_where, ◌∙◌, In, In-unique, In-update_where_inv,
  exists_where-In, Distinct, same_id, exists_where, ◌==◌, holds, find_where-some, Bool-cases,
  Option-cases, update_where, delete_where, leb,
}
use histae_api.Outbox.Models.{
  Event, NewEvent, Status, same_key, Action, discard, Operator, is_dead_letter,
}
use histae_api.Outbox.WellFormed.{WellFormed}
use histae_api.Outbox.Store.{
  enqueue, requeue, claim_batch, renew_claim, complete, reschedule, inserted, reset, claimed,
  finished, rescheduled, is_owned, is_claimable,
}
use histae_api.Outbox.Store.Constraints.{IsStorable}
use histae_api.Outbox.Store.Claims.{claim_batch-some, is_picked, picked_lem, candidate_lem}
use histae_api.Outbox.Upkeep.{purge_completed, resolve_dead_letter, resolution, abandoned}
use histae_api.Outbox.Upkeep.Constraints.{resolve_dead_letter_cases}
use histae_api.Outbox.Scheduling.{schedule, hasten, unschedule, erase_jobs, is_over, is_waiting}
use histae_api.Outbox.Deferral.{defer, checkpoint, deferred, checkpointed}
use histae_api.Outbox.History.{
  Db, Op, enqueues, requeues, claims, renews, completes, reschedules, purges, resolves, defers,
  checkpoints, schedules, hastens, unschedules, erases, perform, Allowed, events_of,
}
use histae_api.Outbox.History.Soundness.{IsSound}

infix 40 ◌⟶◌
pub data ◌⟶◌ : Status → Status → Type 0 where
  wait : Status.pending ⟶ Status.pending
  claim : Status.pending ⟶ Status.processing
  hold : Status.processing ⟶ Status.processing
  finish : Status.processing ⟶ Status.completed
  release : Status.processing ⟶ Status.pending
  give_up : Status.processing ⟶ Status.dead_letter
  revive : Status.dead_letter ⟶ Status.pending
  drop : Status.dead_letter ⟶ Status.discarded

ruleset edges = (wait, claim, hold, finish, release, give_up, revive, drop)

-- The moves of the statuses under one statement: the diagram, but for the two that bring jobs back.
-- `requeue` takes any job, and the billing's INSERT those that are over.
abbrev pub Moves : Op → Status → Status → Type 0
Moves (requeues fresh now n) s u = u ≡ Status.pending
Moves (schedules fresh clock available_at n) s u =
    ((s ≡ Status.completed) ⊎ (s ≡ Status.discarded)) × (u ≡ Status.pending)
Moves _ s u = s ⟶ u

-- A row after a statement was there before, or is new, or is a row whose status moved.
abbrev pub Evolves : (Status → Status → Type 0) → List Event → Event → Type 0
Evolves r t e =
    In e t
    ⊎ ((e.status ≡ Status.pending) × (exists_where (λ r. r.id == e.id) t ≡ false)
        ⊎ ((old : Event) × In old t × (e.id ≡ old.id) × r old.status e.status))

update-Evolves :
    (r : Status → Status → Type 0) (p : Event → Bool) (f : Event → Event) (t : List Event)
    → ((e : Event) → In e t → p e ≡ true → ((f e).id ≡ e.id) × r e.status (f e).status)
    → All (Evolves r t) (update_where p f t)
update-Evolves r p f t moves = All_of_In (Evolves r t) _ (λ x m.
    elim (In-update_where_inv x p f t m) [
      | inl a ↦ inl a.0
      | inr (old, here, hit, eq) ↦
          let (same, edge) = moves old here hit in
          inr (
            inr (
              old,
              here,
              subst (λ y. y.id ≡ old.id) (sym eq) same,
              subst (λ y. r old.status y.status) (sym eq) edge,
            ))
    ])

same-Evolves : (r : Status → Status → Type 0) (t : List Event) → All (Evolves r t) t
same-Evolves r t = All_of_In (Evolves r t) t (λ x m. inl m)

owned_lem : (id worker : ℕ) (e : Event) → is_owned id worker e ≡ true → e.status ≡ Status.processing
unfolding is_owned
owned_lem id worker e h = ground arith

from_owned :
    (id worker : ℕ) (e : Event) {s : Status}
    → is_owned id worker e ≡ true
    → Status.processing ⟶ s
    → e.status ⟶ s
from_owned id worker e {s} h edge = subst (λ x. x ⟶ s) (sym (owned_lem id worker e h)) edge

claimed_edge :
    (worker now stale : ℕ) (e : Event)
    → is_claimable now stale e ≡ true
    → e.status ⟶ (claimed worker now e).status
unfolding is_claimable claimed
claimed_edge worker now stale e h = grind (arith, claim, hold)

rescheduled_edge :
    (clock at : ℕ) (code : String) (most : ℕ) (e : Event)
    → Status.processing ⟶ (rescheduled clock at code most e).status
unfolding rescheduled
rescheduled_edge clock at code most e = elim (Bool-cases (leb most e.attempts)) [
  | inl h ↦ rw h give_up
  | inr h ↦ rw h release
]

checkpointed_edge :
    (clock worker : ℕ) (e : Event)
    → holds e.locked_by worker ≡ true
    → WellFormed e
    → e.status ⟶ (checkpointed clock e).status
unfolding checkpointed
checkpointed_edge clock worker e h w =
    let busy : e.status ≡ Status.processing = grind arith in
    subst (λ x. x ⟶ Status.pending) (sym busy) release

waiting_edge : (n : NewEvent) (e : Event) → is_waiting n e ≡ true → e.status ⟶ e.status
waiting_edge n e h =
    let idle : e.status ≡ Status.pending = grind arith in subst (λ x. x ⟶ x) (sym idle) wait

over_lem :
    (n : NewEvent) (e : Event)
    → is_over n e ≡ true
    → (e.status ≡ Status.completed) ⊎ (e.status ≡ Status.discarded)
over_lem n e h = ground arith

resolved_edge :
    (action : Action) (clock : ℕ) (o : Operator) (reason : List ℕ) (e : Event)
    → is_dead_letter e.status ≡ true
    → e.status ⟶ (resolution action clock o reason e).status
unfolding resolution reset abandoned
resolved_edge action clock o reason e h =
    let dead : e.status ≡ Status.dead_letter = grind arith in
    subst (λ x. x ⟶ (resolution action clock o reason e).status) (sym dead) (go action)
  where
    go : (a : Action) → Status.dead_letter ⟶ (resolution a clock o reason e).status
    go Action.retry = revive
    go discard = drop

new_row :
    (r : Status → Status → Type 0) (t : List Event) (e : Event)
    → e.status ≡ Status.pending
    → exists_where (λ x. x.id == e.id) t ≡ false
    → All (Evolves r t) (e ∷ t)
new_row r t e pending h = All_of_In (Evolves r t) (e ∷ t) (λ x m. elim m [
  | inl eq ↦ subst (Evolves r t) eq (inr (inl (pending, h)))
  | inr here ↦ inl here
])

claim-Evolves :
    (t : List Event) (locked : ℕ → Bool) (worker now stale limit : ℕ)
    → Distinct (same_id (λ r. r.id)) t
    → All (Evolves ◌⟶◌ t) (events_of t (claim_batch t locked worker now stale limit))
claim-Evolves t locked worker now stale limit d =
    elim (Option-cases (claim_batch t locked worker now stale limit)) [
      | inl e ↦ rw e (same-Evolves ◌⟶◌ t)
      | inr ((t', rows), e) ↦ rw e (
          rw ((claim_batch-some locked worker now stale limit t e).0) (
            update-Evolves ◌⟶◌ (is_picked locked worker now stale limit t) (claimed worker now) t
              (λ r m p. (
                unfold claimed in refl,
                claimed_edge worker now stale r
                    (candidate_lem locked worker now stale limit t r
                      (picked_lem locked worker now stale limit t r d m p)).1,
              ))))
    ]

purge-Evolves : (t : List Event) (p : Event → Bool) → All (Evolves ◌⟶◌ t) (delete_where p t)
purge-Evolves t p = All-delete_where (Evolves ◌⟶◌ t) p t (same-Evolves ◌⟶◌ t)

resolve-Evolves :
    (photo_exists : ℕ → Bool) (d : Db) (clock id : ℕ) (o : Operator) (reason : List ℕ)
    (action : Action)
    → Distinct (same_id (λ r. r.id)) d.events
    → All
        (Evolves ◌⟶◌ d.events)
        (resolve_dead_letter photo_exists d.events d.journal clock id o reason action).0
resolve-Evolves photo_exists d clock id o reason action k =
    elim (resolve_dead_letter_cases photo_exists d.events d.journal clock id o reason action) [
      | inl (_, eq) ↦
          subst (All (Evolves ◌⟶◌ d.events)) (ap (λ a. a.0) (sym eq)) (same-Evolves ◌⟶◌ d.events)
      | inr (e, found, inl (inl (_, eq))) ↦
          subst (All (Evolves ◌⟶◌ d.events)) (ap (λ a. a.0) (sym eq)) (same-Evolves ◌⟶◌ d.events)
      | inr (e, found, inl (inr (_, _, _, eq))) ↦
          subst (All (Evolves ◌⟶◌ d.events)) (ap (λ a. a.0) (sym eq)) (same-Evolves ◌⟶◌ d.events)
      | inr (e, found, inr (dead, _, eq)) ↦
          subst (All (Evolves ◌⟶◌ d.events)) (ap (λ a. a.0) (sym eq)) (
            update-Evolves ◌⟶◌ (λ r. r.id == id) (resolution action clock o reason) d.events
              (λ r m hit.
                let (here, hit') = find_where-some (λ e. e.id == id) d.events e found in
                let same = In-unique (λ r. r.id) e r d.events k here m (ground arith) in
                (
                  keeps_id action r,
                  resolved_edge action clock o reason r
                      (subst (λ x. is_dead_letter x.status ≡ true) same dead),
                )))
    ]
  where
    keeps_id : (a : Action) (r : Event) → (resolution a clock o reason r).id ≡ r.id
    keeps_id Action.retry r = unfold resolution reset in refl
    keeps_id discard r = unfold resolution abandoned in refl

-- From a sound table, each allowed statement of the history leaves a row as it was, adds it as pending under a new id, or
-- moves its status: along an edge of the diagram, or to pending under the two statements that bring
-- jobs back, of which the billing's takes completed and discarded jobs alone.
pub perform-Evolves :
    (d : Db) (op : Op)
    → Allowed d op
    → IsSound d
    → All (Evolves (Moves op) d.events) (perform d op).events
unfolding perform enqueue requeue renew_claim complete reschedule purge_completed defer checkpoint
    schedule hasten unschedule erase_jobs inserted reset
perform-Evolves d (enqueues fresh now n) ok h =
    elim (Bool-cases (exists_where (same_key n) d.events)) [
      | inl e ↦ rw e (same-Evolves ◌⟶◌ d.events)
      | inr e ↦ rw e (new_row ◌⟶◌ d.events (inserted fresh now n) refl ok)
    ]
perform-Evolves d (requeues fresh now n) ok h =
    let moves = Moves (requeues fresh now n) in
    elim (Bool-cases (exists_where (same_key n) d.events)) [
      | inl e ↦
          rw e (update-Evolves moves (same_key n) (reset now) d.events (λ e m o. (refl, refl)))
      | inr e ↦ rw e (new_row moves d.events (inserted fresh now n) refl ok)
    ]
perform-Evolves d (schedules fresh clock available_at n) ok h =
    let moves = Moves (schedules fresh clock available_at n) in
    elim (Bool-cases (exists_where (same_key n) d.events)) [
      | inl e ↦ rw e (
          update-Evolves moves (is_over n) (reset available_at) d.events
            (λ e m o. (refl, (over_lem n e o, refl))))
      | inr e ↦ rw e (
          new_row moves d.events (record (inserted fresh clock n) { available_at = available_at })
            refl ok)
    ]
perform-Evolves d (hastens clock n) ok h =
    update-Evolves ◌⟶◌ (is_waiting n) _ d.events (λ e m o. (refl, waiting_edge n e o))
perform-Evolves d (unschedules checkouts) ok h = purge-Evolves d.events _
perform-Evolves d (erases type aggregates) ok h = purge-Evolves d.events _
perform-Evolves d (claims locked worker now stale limit) ok h =
    claim-Evolves d.events locked worker now stale limit h.keys.ids
perform-Evolves d (renews clock id worker) ok h =
    update-Evolves ◌⟶◌ (is_owned id worker) _ d.events
      (λ e m o. (refl, from_owned id worker e o (rw (owned_lem id worker e o) hold)))
perform-Evolves d (completes id worker at) ok h =
    update-Evolves ◌⟶◌ (is_owned id worker) (finished at) d.events
      (λ e m o. unfold finished in (refl, from_owned id worker e o finish))
perform-Evolves d (reschedules clock id worker at code most) ok h =
    update-Evolves ◌⟶◌ (is_owned id worker) (rescheduled clock at code most) d.events (λ e m o. (
      unfold rescheduled in refl,
      from_owned id worker e o (rescheduled_edge clock at code most e),
    ))
perform-Evolves d (purges before limit) ok h = purge-Evolves d.events _
perform-Evolves d (resolves photo_exists clock id o reason action) ok h =
    resolve-Evolves photo_exists d clock id o reason action h.keys.ids
perform-Evolves d (defers clock id worker) ok h =
    update-Evolves ◌⟶◌ (is_owned id worker) (deferred clock) d.events
      (λ e m o. unfold deferred in (refl, from_owned id worker e o release))
perform-Evolves d (checkpoints clock id worker) ok h =
    update-Evolves ◌⟶◌ (λ e. e.id == id && holds e.locked_by worker) (checkpointed clock) d.events
      (λ e m o. (
        unfold checkpointed in refl,
        checkpointed_edge clock worker e (ground arith) (All-In IsStorable d.events h.rows m).shape,
      ))

-- The statements that bring jobs back.
abbrev is_revival : Op → Bool
is_revival (requeues fresh now n) = true
is_revival (schedules fresh clock available_at n) = true
is_revival _ = false

Moves_lem : (op : Op) (s u : Status) → is_revival op ≡ false → Moves op s u → s ⟶ u
Moves_lem (enqueues _ _ _) s u other m = m
Moves_lem (requeues _ _ _) s u other m = absurd (cc)
Moves_lem (claims _ _ _ _ _) s u other m = m
Moves_lem (renews _ _ _) s u other m = m
Moves_lem (completes _ _ _) s u other m = m
Moves_lem (reschedules _ _ _ _ _ _) s u other m = m
Moves_lem (purges _ _) s u other m = m
Moves_lem (resolves _ _ _ _ _ _) s u other m = m
Moves_lem (defers _ _ _) s u other m = m
Moves_lem (checkpoints _ _ _) s u other m = m
Moves_lem (schedules _ _ _ _) s u other m = absurd (cc)
Moves_lem (hastens _ _) s u other m = m
Moves_lem (unschedules _) s u other m = m
Moves_lem (erases _ _) s u other m = m

abbrev IsFinal : Event → Type 0
IsFinal e = (e.status ≡ Status.completed) ⊎ (e.status ≡ Status.discarded)

no_edge : (s u : Status) → (s ≡ Status.completed) ⊎ (s ≡ Status.discarded) → ¬ (s ⟶ u)
no_edge s u f wait = ground arith
no_edge s u f claim = ground arith
no_edge s u f hold = ground arith
no_edge s u f finish = ground arith
no_edge s u f release = ground arith
no_edge s u f give_up = ground arith
no_edge s u f revive = ground arith
no_edge s u f drop = ground arith

-- A completed or discarded job does not change under any statement but the two that bring jobs
-- back, `requeue` and the billing's INSERT: the row stays as it is, or is gone.
pub final_jobs_stay :
    (d : Db) (op : Op) (old e : Event)
    → is_revival op ≡ false
    → Allowed d op
    → IsSound d
    → In old d.events
    → IsFinal old
    → In e (perform d op).events
    → e.id ≡ old.id
    → e ≡ old
final_jobs_stay d op old e other ok h m f n same =
    elim (All-In (Evolves (Moves op) d.events) _ (perform-Evolves d op ok h) n) [
      | inl here ↦ In-unique (λ r. r.id) e old d.events h.keys.ids here m same
      | inr (inl (_, fresh)) ↦
          absurd (ground (arith, exists_where-In old (λ r. r.id == e.id) d.events fresh m))
      | inr (inr (old', here, same', edge)) ↦
          let eq = In-unique (λ r. r.id) old' old d.events h.keys.ids here m (sym same' ∙ same) in
          absurd (
            no_edge old'.status e.status (subst IsFinal (sym eq) f)
              (Moves_lem op old'.status e.status other edge))
    ]
