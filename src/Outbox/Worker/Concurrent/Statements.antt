-- ===== src/Outbox/Worker/Concurrent/Statements.antt =====
-- The statements of a call, one by one: what each reads and writes, and that those of two calls commute.
use histae_api.Prelude.{
  ℕ, zero, suc, ◌+◌, ◌≡◌, ◌≢◌, refl, sym, ap, true, false, inl, inr, Bool-cases, List, map,
  update_where, select_where, if◌then◌else◌, length, Bool, ◌==◌, find_where, ◌∙◌,
}
use histae_api.Outbox.Models.{Event}
use histae_api.Outbox.Store.{
  renew_claim, is_owned, complete, finished, retry_result, rescheduled, reschedule,
}
use histae_api.Outbox.Worker.{
  Outcome, Instants, Tally, settle, process, failed, completed, deferred, outbox_failure, give_back,
  retry_delay_millis, max_attempts,
}
use histae_api.Outbox.Worker.Settlement.{renewed}
use histae_api.Outbox.Worker.Concurrent.{
  Phase, starting, dispatching, ended, settling, Shared, step,
}
use histae_api.Outbox.Worker.Concurrent.Rows.{
  select_where-other, update_where-other, Kind, nothing, one_completed, one_deferred, count,
  kind_of_retry, count_where-eq-length, update_where-same, retry_count, count_comm,
}

module _ (dispatch : List Event → Event → ℕ → List Event × Outcome) (worker : ℕ)
    (at : Event → Instants) where
  -- The next `n` statements of a call.
  pub steps : ℕ → Event → Phase → Shared → Shared
  steps zero e p s = s
  steps (suc n) e p s = let (p', s') = step dispatch worker at e p s in steps n e p' s'

  pub steps-ended : (n : ℕ) (e : Event) (s : Shared) → steps n e ended s ≡ s
  unfolding steps step
  steps-ended zero e s = refl
  steps-ended (suc n) e s = steps-ended n e s

  -- After the renewal.
  renewed_steps :
      (owned : Bool) (e : Event) (s : Shared)
      → steps 2 e (if owned then dispatching else ended) s ≡ (
          if owned
          then (let (t, outcome) = dispatch s.0 e worker in
              settle dispatch worker outcome t e (at e) s.1)
          else s)
  unfolding steps step
  renewed_steps true e s = refl
  renewed_steps false e s = refl

  one_more :
      (owned : Bool) (e : Event) (s : Shared)
      → steps 3 e (if owned then dispatching else ended) s
        ≡ steps 2 e (if owned then dispatching else ended) s
  unfolding steps step
  one_more true e s = refl
  one_more false e s = refl

  -- Three statements bring every call to its end.
  pub steps-step :
      (e : Event) (p : Phase) (s : Shared)
      → steps 3 e (step dispatch worker at e p s).0 (step dispatch worker at e p s).1
        ≡ steps 3 e p s
  unfolding steps step
  steps-step e starting (t, r) =
      let (t', owned) = renew_claim t (at e).renewed e.id worker in one_more owned e (t', r)
  steps-step e dispatching (t, r) = refl
  steps-step e (settling outcome) (t, r) = refl
  steps-step e ended s = refl

  pub steps-eq-process :
      (e : Event) (t : List Event) (r : Tally)
      → steps 3 e starting (t, r) ≡ process dispatch worker t e (at e) r
  unfolding steps step process
  steps-eq-process e t r =
      let (t', owned) = renew_claim t (at e).renewed e.id worker in renewed_steps owned e (t', r)

  module _ (says : Event → Outcome)
      (pure : (t : List Event) (e : Event) → dispatch t e worker ≡ (t, says e)) where
    abbrev view : Event → List Event → List Event
    view e t = select_where (is_owned e.id worker) t

    -- What a statement writes to the row of its job, where the call goes on, and what it counts, by the
    -- row that it finds.
    write_of : Event → Phase → Event → Event
    write_of e starting = renewed (at e).renewed
    write_of e (settling completed) = finished (at e).processed
    write_of e (settling (failed error)) =
        let f = outbox_failure error in
        rescheduled (at e).given_back ((at e).failed + retry_delay_millis e.attempts) f.code
          (if f.permanent then 1 else max_attempts)
    write_of e _ = λ y. y

    next_of : Event → Phase → List Event → Phase
    next_of e starting v = if length v == 1 then dispatching else ended
    next_of e dispatching v = settling (says e)
    next_of e (settling outcome) v = ended
    next_of e ended v = ended

    kind_of : Event → Phase → List Event → Kind
    unfolding write_of
    kind_of e (settling completed) v = if length v == 1 then one_completed else nothing
    kind_of e (settling deferred) v = one_deferred
    kind_of e (settling (failed error)) v =
        kind_of_retry
          (retry_result (find_where (λ _. true) (map (write_of e (settling (failed error))) v)))
    kind_of e _ v = nothing

    -- Every statement reads and writes the row of its own job alone.
    step_lem :
        (e : Event) (p : Phase) (t : List Event) (r : Tally)
        → step dispatch worker at e p (t, r) ≡ (
          next_of e p (view e t),
          (update_where (is_owned e.id worker) (write_of e p) t, count (kind_of e p (view e t)) r),
        )
    unfolding step next_of write_of kind_of count
    step_lem e starting t r =
        unfold renew_claim in rw (count_where-eq-length (is_owned e.id worker) t) refl
    step_lem e dispatching t r =
        rw (pure t e) (rw (update_where-same (is_owned e.id worker) t) refl)
    step_lem e ended t r = rw (update_where-same (is_owned e.id worker) t) refl
    step_lem e (settling completed) t r =
        unfold settle in
        unfold complete in
        rw (count_where-eq-length (is_owned e.id worker) t)
          (elim (Bool-cases (length (view e t) == 1)) [ inl h ↦ rw h refl | inr h ↦ rw h refl ])
    step_lem e (settling deferred) t r =
        unfold settle in rw (update_where-same (is_owned e.id worker) t) refl
    step_lem e (settling (failed error)) t r =
        unfold settle in
        unfold give_back in
        unfold reschedule in
        ap
          (λ x. (
            ended,
            (update_where (is_owned e.id worker) (write_of e (settling (failed error))) t, x),
          ))
          (retry_count
            (retry_result
              (find_where (λ _. true) (map (write_of e (settling (failed error))) (view e t))))
            r)

    write-id : (e : Event) (p : Phase) (y : Event) → (write_of e p y).id ≡ y.id
    unfolding write_of
    write-id e starting y = refl
    write-id e dispatching y = refl
    write-id e ended y = refl
    write-id e (settling completed) y = unfold finished in refl
    write-id e (settling deferred) y = refl
    write-id e (settling (failed error)) y = unfold rescheduled in refl

    -- The statements of two jobs commute: each goes on as it would without the other.
    steps_comm :
        (e o : Event) (p q : Phase) (s : Shared)
        → e.id ≢ o.id
        → ((step dispatch worker at e p (step dispatch worker at o q s).1).0
            ≡ (step dispatch worker at e p s).0)
          × ((step dispatch worker at e p (step dispatch worker at o q s).1).1
              ≡ (step dispatch worker at o q (step dispatch worker at e p s).1).1)
    steps_comm e o p q (t, r) apart =
        let t' = update_where (is_owned o.id worker) (write_of o q) t in
        let t'' = update_where (is_owned e.id worker) (write_of e p) t in
        let sees =
          select_where-other e.id o.id worker apart (write_of o q) (write_of e p) (write-id o q)
            (write-id e p) t in
        let sees' =
          select_where-other o.id e.id worker (λ h. apart (sym h)) (write_of e p) (write_of o q)
            (write-id e p) (write-id o q) t in
        let writes =
          update_where-other e.id o.id worker apart (write_of o q) (write_of e p) (write-id o q)
            (write-id e p) t in
        let counts = count_comm (kind_of e p (view e t)) (kind_of o q (view o t)) r in
        rw (step_lem o q t r) (
          rw (step_lem e p t r) (
            rw (step_lem e p t' (count (kind_of o q (view o t)) r)) (
              rw (step_lem o q t'' (count (kind_of e p (view e t)) r))
                (rw (sees, sees') (refl, (rw (writes, counts) refl))))))

    pub steps_comm_all :
        (n : ℕ) (e o : Event) (p q : Phase) (s : Shared)
        → e.id ≢ o.id
        → ((step dispatch worker at e p (steps n o q s)).0 ≡ (step dispatch worker at e p s).0)
          × ((step dispatch worker at e p (steps n o q s)).1
              ≡ steps n o q (step dispatch worker at e p s).1)
    unfolding steps
    steps_comm_all zero e o p q s apart = (refl, refl)
    steps_comm_all (suc n) e o p q s apart =
        let (q', s') = step dispatch worker at o q s in
        let (phase, shared) = steps_comm_all n e o p q' s' apart in
        let (first, moved) = steps_comm e o p q s apart in
        let (again, _) = steps_comm o e q p s (λ h. apart (sym h)) in
        (
          phase ∙ first,
          shared
              ∙ ap (λ x. steps n o q' x) moved
              ∙ ap
                  (λ x.
                    steps n o x (step dispatch worker at o q (step dispatch worker at e p s).1).1)
                  (sym again),
        )
