-- ===== src/Outbox/Worker/Concurrent.antt =====
-- One group of `Promise.all` in `runOnce`: the calls of `process` run side by side, and the database
-- runs their statements one after the other, in any order that keeps the order of each call.
pub mod Rows
pub mod Statements
pub mod Order
use histae_api.Prelude.{
  ℕ, zero, suc, ◌+◌, ◌≡◌, ◌≢◌, refl, sym, ap, arith, true, false, inl, inr, Bool-cases, List, [],
  ◌∷◌, map, update_where, select_where, if◌then◌else◌, length, Bool, count_where, ◌==◌, find_where,
  ◌∙◌,
}
use histae_api.Outbox.Models.{Event, RetryResult}
use histae_api.Outbox.Store.{
  renew_claim, is_owned, complete, finished, retry_result, rescheduled, reschedule,
}
use histae_api.Outbox.Worker.{
  Outcome, Instants, Tally, settle, process, count_retry, failed, completed, deferred,
  outbox_failure, give_back, retry_delay_millis, process_group, max_attempts,
}
use histae_api.Outbox.Worker.Settlement.{owned-id, renewed}

-- Where a call stands: before `renewClaim`, before the handler, before the last statement, at its end.
pub data Phase : Type 0 where
  starting dispatching ended : Phase
  settling : Outcome → Phase

abbrev pub Call : Type 0
Call = Event × Phase

-- The table and the counters that the calls share.
abbrev pub Shared : Type 0
Shared = List Event × Tally

abbrev pub start : List Event → List Call
start es = map (λ e. (e, starting)) es

abbrev pub HasEnded : List Call → Type 0
HasEnded [] = Unit
HasEnded ((e, p) ∷ calls) = (p ≡ ended) × HasEnded calls

abbrev pub IsApart : Event → List Call → Type 0
IsApart o [] = Unit
IsApart o ((e, p) ∷ calls) = (e.id ≢ o.id) × IsApart o calls

-- The calls are about different jobs.
abbrev pub OwnIds : List Call → Type 0
OwnIds [] = Unit
OwnIds ((e, p) ∷ calls) = IsApart e calls × OwnIds calls

module _ (dispatch : List Event → Event → ℕ → List Event × Outcome) (worker : ℕ)
    (at : Event → Instants) where
  -- The next statement of one call: the renewal, the handler, and the last statement.
  pub step : Event → Phase → Shared → Phase × Shared
  step e starting (t, r) =
      let (t', owned) = renew_claim t (at e).renewed e.id worker in
      ((if owned then dispatching else ended), (t', r))
  step e dispatching (t, r) = let (t', outcome) = dispatch t e worker in (settling outcome, (t', r))
  step e (settling outcome) (t, r) = (ended, settle dispatch worker outcome t e (at e) r)
  step e ended s = (ended, s)

  -- The call at position i makes its next statement.
  pub advance : ℕ → List Call → Shared → List Call × Shared
  unfolding step
  advance i [] s = ([], s)
  advance zero ((e, p) ∷ calls) s = let (p', s') = step e p s in ((e, p') ∷ calls, s')
  advance (suc i) (c ∷ calls) s = let (calls', s') = advance i calls s in (c ∷ calls', s')

  -- The order in which the statements arrive, each named by the position of its call.
  unfoldable pub interleave : List ℕ → List Call → Shared → List Call × Shared
  unfolding advance
  interleave [] calls s = (calls, s)
  interleave (i ∷ order) calls s =
      let (calls', s') = advance i calls s in interleave order calls' s'
