-- ===== src/Outbox/Upkeep/Constraints.antt =====
-- The purge and the operators' answers leave rows that meet the constraints of the table.
use histae_api.Prelude.{
  ℕ, ◌≤◌, ◌≡◌, refl, sym, subst, ap, Bool, true, false, List, ◌∷◌, none, some, Option, arith, All,
  All-update_where_In, update_where, All-delete_where, length, In, In-unique, find_where-some,
  find_where, Bool-cases, Option-cases, inl, inr, ◌==◌, Distinct, same_id, ◌⊎◌,
}
use histae_api.Outbox.Models.{
  Event, Operator, OperatorAction, Action, retry, discard, updated, not_found, not_dead_letter,
  discard_not_allowed, OperatorResult, is_dead_letter,
}
use histae_api.Outbox.Store.Constraints.{IsStorable, reset-IsStorable}
use histae_api.Outbox.Upkeep.{
  purge_completed, resolve_dead_letter, resolution, abandoned, may_discard,
}

pub purge_completed-IsStorable :
    (t : List Event) (before limit : ℕ)
    → All IsStorable t
    → All IsStorable (purge_completed t before limit).0
unfolding purge_completed
purge_completed-IsStorable t before limit h = All-delete_where IsStorable _ t h

abbrev pub IsReason : List ℕ → Type 0
IsReason r = (3 ≤ length r) × (length r ≤ 500)

abandoned-IsStorable :
    (clock : ℕ) (o : Operator) (reason : List ℕ) (e : Event)
    → IsReason reason
    → is_dead_letter e.status ≡ true
    → IsStorable e
    → IsStorable (abandoned clock o reason e)
unfolding abandoned
abandoned-IsStorable clock o reason e fits dead s = record {
  shape = record {
    completion = ground arith;
    dead_letter = ground (arith, s.shape.dead_letter);
    lock_instant = refl;
    lock_owner = refl;
    resolution = refl;
    reason = refl;
    reason_fits = λ r eq. grind arith;
    error_code = s.shape.error_code;
    resolver = λ eq. cc;
  };
  bounded = s.bounded;
}

resolution-IsStorable :
    (action : Action) (clock : ℕ) (o : Operator) (reason : List ℕ) (e : Event)
    → IsReason reason
    → is_dead_letter e.status ≡ true
    → IsStorable e
    → IsStorable (resolution action clock o reason e)
unfolding resolution
resolution-IsStorable retry clock o reason e fits dead s = reset-IsStorable clock e
resolution-IsStorable discard clock o reason e fits dead s =
    abandoned-IsStorable clock o reason e fits dead s

module _ (photo_exists : ℕ → Bool) (t : List Event) (journal : List OperatorAction) (clock id : ℕ)
    (o : Operator) (reason : List ℕ) (action : Action) where
  abbrev pub answer : List Event × List OperatorAction × OperatorResult
  answer = resolve_dead_letter photo_exists t journal clock id o reason action

  abbrev pub target : Option Event
  target = find_where (λ e. e.id == id) t

  refused_missing : target ≡ none → (answer.0 ≡ t) × (answer.1 ≡ journal) × (answer.2 ≡ not_found)
  unfolding resolve_dead_letter
  refused_missing e = ground arith

  refused_alive :
      (e : Event)
      → target ≡ some e
      → is_dead_letter e.status ≡ false
      → (answer.0 ≡ t) × (answer.1 ≡ journal) × (answer.2 ≡ not_dead_letter)
  unfolding resolve_dead_letter
  refused_alive e found alive = ground arith

  refused_unsafe :
      (e : Event)
      → target ≡ some e
      → is_dead_letter e.status ≡ true
      → action ≡ discard
      → may_discard photo_exists e ≡ false
      → (answer.0 ≡ t) × (answer.1 ≡ journal) × (answer.2 ≡ discard_not_allowed)
  unfolding resolve_dead_letter
  refused_unsafe e found dead act unsafe = unfold may_discard in ground arith

  abbrev entry : Event → OperatorAction
  entry e = record {
    outbox_event_id = e.id;
    operator = o;
    event_type = e.event_type;
    action = action;
    reason = reason;
  }

  resolved :
      (e : Event)
      → target ≡ some e
      → is_dead_letter e.status ≡ true
      → (action ≡ retry) ⊎ (may_discard photo_exists e ≡ true)
      → (answer.0 ≡ update_where (λ r. r.id == id) (resolution action clock o reason) t)
        × (answer.1 ≡ entry e ∷ journal)
        × (answer.2 ≡ updated)
  unfolding resolve_dead_letter
  resolved e found dead may = ground arith

  abbrev pub Refused : Event → Type 0
  Refused e =
      (is_dead_letter e.status ≡ false) × (answer ≡ (t, journal, not_dead_letter))
      ⊎ (is_dead_letter e.status ≡ true)
        × (action ≡ discard)
        × (may_discard photo_exists e ≡ false)
        × (answer ≡ (t, journal, discard_not_allowed))

  abbrev pub Resolved : Event → Type 0
  Resolved e =
      (is_dead_letter e.status ≡ true)
      × ((action ≡ retry) ⊎ (may_discard photo_exists e ≡ true))
      × (answer ≡ (
        update_where (λ r. r.id == id) (resolution action clock o reason) t,
        entry e ∷ journal,
        updated,
      ))

  -- The four answers. An unknown job, a job that is no dead letter, and a job that may not be
  -- dropped leave the jobs and the journal as they were. A dead letter that is retried, or that may
  -- be dropped, is rewritten, and the journal gains one entry.
  pub resolve_dead_letter_cases :
      ((target ≡ none) × (answer ≡ (t, journal, not_found)))
      ⊎ ((e : Event) × (target ≡ some e) × (Refused e ⊎ Resolved e))
  resolve_dead_letter_cases = elim (Option-cases target) [
    | inl e ↦ inl (e, ground (arith, refused_missing e))
    | inr (e, found) ↦ inr (
      e,
      found,
      elim (Bool-cases (is_dead_letter e.status)) [
        | inr alive ↦ inl (inl (alive, ground (arith, refused_alive e found alive)))
        | inl dead ↦ elim (may_cases action e) [
          | inl may ↦ inr (dead, may, ground (arith, resolved e found dead may))
          | inr (act, unsafe) ↦
              inl (inr (dead, act, unsafe, ground (arith, refused_unsafe e found dead act unsafe)))
        ]
      ],
    )
  ]
    where
      may_cases :
          (a : Action) (e : Event)
          → ((a ≡ retry) ⊎ (may_discard photo_exists e ≡ true))
            ⊎ ((a ≡ discard) × (may_discard photo_exists e ≡ false))
      may_cases retry e = inl (inl refl)
      may_cases discard e = elim (Bool-cases (may_discard photo_exists e)) [
        | inl h ↦ inl (inr h)
        | inr h ↦ inr (refl, h)
      ]

  written_row :
      (e : Event)
      → Distinct (same_id (λ r. r.id)) t
      → IsReason reason
      → target ≡ some e
      → is_dead_letter e.status ≡ true
      → (r : Event) → In r t
      → (r.id == id) ≡ true
      → IsStorable r
      → IsStorable (resolution action clock o reason r)
  written_row e d fits found dead r m hit s =
      let (here, hit') = find_where-some (λ e. e.id == id) t e found in
      let same = In-unique (λ r. r.id) e r t d here m (ground arith) in
      resolution-IsStorable action clock o reason r fits
        (subst (λ x. is_dead_letter x.status ≡ true) same dead) s

  pub resolve_dead_letter-IsStorable :
      Distinct (same_id (λ r. r.id)) t
      → IsReason reason
      → All IsStorable t
      → All IsStorable answer.0
  resolve_dead_letter-IsStorable d fits s = elim resolve_dead_letter_cases [
    | inl (_, eq) ↦ subst (All IsStorable) (ap (λ a. a.0) (sym eq)) s
    | inr (e, found, inl (inl (_, eq))) ↦ subst (All IsStorable) (ap (λ a. a.0) (sym eq)) s
    | inr (e, found, inl (inr (_, _, _, eq))) ↦ subst (All IsStorable) (ap (λ a. a.0) (sym eq)) s
    | inr (e, found, inr (dead, _, eq)) ↦ subst (All IsStorable) (ap (λ a. a.0) (sym eq)) (
        All-update_where_In IsStorable (λ r. r.id == id) (resolution action clock o reason) t
          (written_row e d fits found dead) s)
  ]
