-- ===== src/Outbox/Worker/Concurrent/Order.antt =====
-- The order in which the statements of a group reach the database does not matter.
use histae_api.Prelude.{
  ℕ, zero, suc, ◌≡◌, refl, sym, ap, true, false, List, [], ◌∷◌, map, if◌then◌else◌, Bool, ◌∙◌, ◌++◌,
  subst,
}
use histae_api.Outbox.Models.{Event}
use histae_api.Outbox.Store.{renew_claim}
use histae_api.Outbox.Worker.{Outcome, Instants, Tally, process, process_group}
use histae_api.Outbox.Worker.Concurrent.{
  Phase, starting, dispatching, ended, settling, Call, Shared, start, HasEnded, IsApart, OwnIds,
  step, advance, interleave,
}
use histae_api.Outbox.Worker.Concurrent.Statements.{
  steps, steps-ended, steps-step, steps-eq-process, steps_comm_all,
}

module _ (dispatch : List Event → Event → ℕ → List Event × Outcome) (worker : ℕ)
    (at : Event → Instants) where
  -- Turns that bring every call to its end: three for each.
  turns : List Call → List ℕ
  turns [] = []
  turns (c ∷ calls) = 0 ∷ 0 ∷ 0 ∷ map (λ i. suc i) (turns calls)

  after_renewal :
      (owned : Bool) (e : Event) (s : Shared)
      → let (p, s') = step dispatch worker at e (if owned then dispatching else ended) s in
        (step dispatch worker at e p s').0 ≡ ended
  unfolding step
  after_renewal true e s = refl
  after_renewal false e s = refl

  third_phase :
      (e : Event) (p : Phase) (s : Shared)
      → let (p', s') = step dispatch worker at e p s in
        let (p'', s'') = step dispatch worker at e p' s' in
        (step dispatch worker at e p'' s'').0 ≡ ended
  unfolding step
  third_phase e starting (t, r) =
      let (t', owned) = renew_claim t (at e).renewed e.id worker in after_renewal owned e (t', r)
  third_phase e dispatching (t, r) = refl
  third_phase e (settling outcome) (t, r) = refl
  third_phase e ended s = refl

  interleave-later :
      (order : List ℕ) (c : Call) (calls : List Call) (s : Shared)
      → (interleave dispatch worker at (map (λ i. suc i) order) (c ∷ calls) s).0
        ≡ c ∷ (interleave dispatch worker at order calls s).0
  unfolding interleave advance
  interleave-later [] c calls s = refl
  interleave-later (i ∷ order) c calls s =
      let (calls', s') = advance dispatch worker at i calls s in interleave-later order c calls' s'

  turns-HasEnded :
      (calls : List Call) (s : Shared)
      → HasEnded (interleave dispatch worker at (turns calls) calls s).0
  unfolding turns interleave advance
  turns-HasEnded [] s = tt
  turns-HasEnded ((e, p) ∷ calls) s =
      let (p', s') = step dispatch worker at e p s in
      let (p'', s'') = step dispatch worker at e p' s' in
      let (p₃, s₃) = step dispatch worker at e p'' s'' in
      subst HasEnded (sym (interleave-later (turns calls) (e, p₃) calls s₃))
        (third_phase e p s, turns-HasEnded calls s₃)

  interleave-append :
      (order more : List ℕ) (calls : List Call) (s : Shared)
      → interleave dispatch worker at (order ++ more) calls s ≡ (
          let (calls', s') = interleave dispatch worker at order calls s in
          interleave dispatch worker at more calls' s')
  unfolding interleave
  interleave-append [] more calls s = refl
  interleave-append (i ∷ order) more calls s =
      let (calls', s') = advance dispatch worker at i calls s in
      interleave-append order more calls' s'

  module _ (says : Event → Outcome)
      (pure : (t : List Event) (e : Event) → dispatch t e worker ≡ (t, says e)) where
    advance-IsApart :
        (i : ℕ) (o : Event) (calls : List Call) (s : Shared)
        → IsApart o calls
        → IsApart o (advance dispatch worker at i calls s).0
    unfolding advance
    advance-IsApart i o [] s h = tt
    advance-IsApart zero o ((e, p) ∷ calls) s h = h
    advance-IsApart (suc i) o ((e, p) ∷ calls) s (apart, h) = (apart, advance-IsApart i o calls s h)

    advance-OwnIds :
        (i : ℕ) (calls : List Call) (s : Shared)
        → OwnIds calls
        → OwnIds (advance dispatch worker at i calls s).0
    unfolding advance
    advance-OwnIds i [] s h = tt
    advance-OwnIds zero ((e, p) ∷ calls) s h = h
    advance-OwnIds (suc i) ((e, p) ∷ calls) s (apart, h) =
        (advance-IsApart i e calls s apart, advance-OwnIds i calls s h)

    -- A statement of another call may come before or after all that is left of a call.
    advance_comm :
        (i : ℕ) (o : Event) (q : Phase) (calls : List Call) (s : Shared)
        → IsApart o calls
        → ((advance dispatch worker at i calls (steps dispatch worker at 3 o q s)).0
            ≡ (advance dispatch worker at i calls s).0)
          × ((advance dispatch worker at i calls (steps dispatch worker at 3 o q s)).1
              ≡ steps dispatch worker at 3 o q (advance dispatch worker at i calls s).1)
    unfolding advance
    advance_comm i o q [] s h = (refl, refl)
    advance_comm zero o q ((e, p) ∷ calls) s (apart, h) =
        let (phase, shared) = steps_comm_all dispatch worker at says pure 3 e o p q s apart in
        (ap (λ x. (e, x) ∷ calls) phase, shared)
    advance_comm (suc i) o q ((e, p) ∷ calls) s (apart, h) =
        let (phases, shared) = advance_comm i o q calls s h in (ap (λ l. (e, p) ∷ l) phases, shared)

    -- What is left of all calls, one call after the other.
    rest_of : List Call → Shared → Shared
    rest_of [] s = s
    rest_of ((e, p) ∷ calls) s = rest_of calls (steps dispatch worker at 3 e p s)

    advance_lem :
        (i : ℕ) (calls : List Call) (s : Shared)
        → OwnIds calls
        → rest_of (advance dispatch worker at i calls s).0 (advance dispatch worker at i calls s).1
          ≡ rest_of calls s
    unfolding advance rest_of
    advance_lem i [] s h = refl
    advance_lem zero ((e, p) ∷ calls) s h = ap (rest_of calls) (steps-step dispatch worker at e p s)
    advance_lem (suc i) ((e, p) ∷ calls) s (apart, h) =
        let (phases, shared) = advance_comm i e p calls s apart in
        ap (λ x. rest_of (advance dispatch worker at i calls s).0 x) (sym shared)
        ∙ ap
            (λ l.
              rest_of l (advance dispatch worker at i calls (steps dispatch worker at 3 e p s)).1)
            (sym phases)
        ∙ advance_lem i calls (steps dispatch worker at 3 e p s) h

    interleave_lem :
        (order : List ℕ) (calls : List Call) (s : Shared)
        → OwnIds calls
        → rest_of
            (interleave dispatch worker at order calls s).0
            (interleave dispatch worker at order calls s).1
          ≡ rest_of calls s
    unfolding interleave
    interleave_lem [] calls s h = refl
    interleave_lem (i ∷ order) calls s h =
        interleave_lem order (advance dispatch worker at i calls s).0
          (advance dispatch worker at i calls s).1 (advance-OwnIds i calls s h)
        ∙ advance_lem i calls s h

    rest_of-HasEnded : (calls : List Call) (s : Shared) → HasEnded calls → rest_of calls s ≡ s
    unfolding rest_of
    rest_of-HasEnded [] s h = refl
    rest_of-HasEnded ((e, p) ∷ calls) s (over, h) =
        ap (λ x. rest_of calls (steps dispatch worker at 3 e x s)) over
        ∙ ap (rest_of calls) (steps-ended dispatch worker at 3 e s)
        ∙ rest_of-HasEnded calls s h

    rest_of-start :
        (es t : List Event) (r : Tally)
        → rest_of (start es) (t, r) ≡ process_group dispatch worker at es t r
    unfolding rest_of process_group
    rest_of-start [] t r = refl
    rest_of-start (e ∷ es) t r =
        ap (rest_of (start es)) (steps-eq-process dispatch worker at e t r)
        ∙ rest_of-start es (process dispatch worker t e (at e) r).0
            (process dispatch worker t e (at e) r).1

    -- The calls of a group may run side by side. For jobs of different ids and handlers that leave the
    -- table of jobs alone, in whatever order the statements of the calls reach the database: once
    -- every call has ended, the table and the counters are those of the calls made one after the
    -- other. And any order can be carried on until every call has ended.
    pub interleave-eq-process_group :
        (order : List ℕ) (es t : List Event) (r : Tally)
        → OwnIds (start es)
        → (HasEnded (interleave dispatch worker at order (start es) (t, r)).0
            → (interleave dispatch worker at order (start es) (t, r)).1
              ≡ process_group dispatch worker at es t r)
          × ((more : List ℕ) × HasEnded
                (interleave dispatch worker at (order ++ more) (start es) (t, r)).0)
    interleave-eq-process_group order es t r ids =
        let (calls, s) = interleave dispatch worker at order (start es) (t, r) in
        (
          λ over.
              sym (rest_of-HasEnded calls s over)
              ∙ interleave_lem order (start es) (t, r) ids
              ∙ rest_of-start es t r,
          (
            turns calls,
            subst (λ x. HasEnded x.0)
                (sym (interleave-append order (turns calls) (start es) (t, r)))
                (turns-HasEnded calls s),
          ),
        )
