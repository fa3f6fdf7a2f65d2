-- ===== src/Outbox/Upkeep/Snapshot.antt =====
-- What the counters of the status page say of the table.
use histae_api.Prelude.{
  ℕ, ◌∷◌, [], ◌+◌, ◌≤◌, ◌≡◌, inl, inr, some, true, refl, arith, List, Option-cases, count_where, In,
  min, length, In-map_of, In-select_where_of,
}
use histae_api.Outbox.Models.{Event, is_pending, is_completed}
use histae_api.Outbox.Upkeep.{least, oldest_pending, status_snapshot}

counts :
    (t : List Event)
    → let s = status_snapshot t in
      s.pending
        + s.processing
        + s.dead_letter
        + s.discarded
        + count_where (λ e. is_completed e.status) t
      ≡ length t
unfolding status_snapshot count_where
counts [] = refl
counts (e ∷ t) = ground (arith, counts t)

least_lem : (ns : List ℕ) (x : ℕ) → In x ns → (m : ℕ) × (least ns ≡ some m) × (m ≤ x)
unfolding least
least_lem [] x m = absurd m
least_lem (n ∷ ns) x (inl e) = elim (Option-cases (least ns)) [
  | inl h ↦ (n, rw h refl, omega (arith, e))
  | inr (m, h) ↦ (min n m, rw h refl, omega (arith, e))
]
least_lem (n ∷ ns) x (inr i) =
    let (m, h, le) = least_lem ns x i in (min n m, rw h refl, omega (arith, le))

-- Every job is counted under exactly one status: the four counters and the completed jobs, which
-- the page does not count, make the whole table. A pending job is never older than the oldest
-- pending date.
pub status_snapshot_lem :
    (t : List Event)
    → let s = status_snapshot t in
      (s.pending
          + s.processing
          + s.dead_letter
          + s.discarded
          + count_where (λ e. is_completed e.status) t
        ≡ length t)
      × ((e : Event)
          → In e t
          → is_pending e.status ≡ true
          → (oldest : ℕ) × (s.oldest_pending_at ≡ some oldest) × (oldest ≤ e.available_at))
unfolding status_snapshot oldest_pending
status_snapshot_lem t = (
  counts t,
  λ e m h.
      least_lem _ e.available_at
        (In-map_of (λ r. r.available_at) e _ (In-select_where_of e _ t m h)),
)
