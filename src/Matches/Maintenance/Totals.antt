-- ===== src/Matches/Maintenance/Totals.antt =====
-- What the loop of maintenance reports.
use histae_api.Prelude.{
  ℕ, zero, suc, ltb, length, length-delete_where, update_where, ◌∙◌, ◌∷◌, [], ◌+◌, ◌≤◌, ◌≡◌, some,
  true, false, refl, arith, List, Bool,
}
use histae_api.Matches.Maintenance.{
  Tables, Locks, MaintenanceResult, nothing_done, open_due, expire_due, delete_messages,
  detach_reports, purge_matches, run_maintenance, batch_is_full, merge, maintain,
  run_maintenance_as_leader,
}

length-update_where :
    {A : Type 0} (p : A → Bool) (f : A → A) (rs : List A) → length (update_where p f rs) ≡ length rs
unfolding update_where
length-update_where p f [] = refl
length-update_where p f (r ∷ rs) = omega (arith, length-update_where p f rs)

-- One batch counts what it deletes.
run_maintenance-counts :
    (locks : Locks) (now size : ℕ) (t : Tables)
    → let (t', r) = run_maintenance locks now size t in
      (length t'.matches + r.purged ≡ length t.matches)
      × (length t'.messages + r.deleted_messages ≡ length t.messages)
      × (length t'.reports ≡ length t.reports)
unfolding run_maintenance open_due expire_due delete_messages detach_reports purge_matches
run_maintenance-counts locks now size t = (
  length-delete_where _ _ ∙ length-update_where _ _ _ ∙ length-update_where _ _ t.matches,
  length-delete_where _ t.messages,
  length-update_where _ _ t.reports,
)

maintain-counts :
    (rounds : ℕ) (locks : ℕ → Locks) (now size : ℕ) (t : Tables) (r : MaintenanceResult)
    → let (t', r') = maintain rounds locks now size t r in
      (length t'.matches + r'.total.purged ≡ length t.matches + r.total.purged)
      × (length t'.messages + r'.total.deleted_messages
          ≡ length t.messages + r.total.deleted_messages)
      × (length t'.reports ≡ length t.reports)
      × (r'.batches ≤ r.batches + rounds)
      × (ltb r'.batches (r.batches + rounds) ≡ true → r'.work_remaining ≡ false)
unfolding maintain merge
maintain-counts zero locks now size t r = ground arith
maintain-counts (suc rounds) locks now size t r =
    let (t', batch) = run_maintenance (locks r.batches) now size t in
    let r' : MaintenanceResult = record {
      total = merge r.total batch;
      batches = r.batches + 1;
      work_remaining = batch_is_full batch size;
    } in
    ground (
      arith,
      run_maintenance-counts (locks r.batches) now size t,
      maintain-counts rounds locks now size t' r',
    )

-- A run of maintenance that acquired the lock reports what it did: as many matches and messages are
-- gone as it says, no report is gone, there were no more batches than allowed, and a run that stopped
-- before the last batch says that no work remains.
pub run_maintenance_as_leader_lem :
    (locks : ℕ → Locks) (now size max_batches : ℕ) (t : Tables)
    → (t' : Tables) × (r : MaintenanceResult) × (run_maintenance_as_leader true locks now size
          max_batches t
        ≡ (t', some r))
      × (length t'.matches + r.total.purged ≡ length t.matches)
      × (length t'.messages + r.total.deleted_messages ≡ length t.messages)
      × (length t'.reports ≡ length t.reports)
      × (r.batches ≤ max_batches)
      × (ltb r.batches max_batches ≡ true → r.work_remaining ≡ false)
unfolding run_maintenance_as_leader
run_maintenance_as_leader_lem locks now size max_batches t =
    let start : MaintenanceResult = record {
      total = nothing_done;
      batches = 0;
      work_remaining = false;
    } in
    let result = maintain max_batches locks now size t start in
    let (a, b, c, e, f) = maintain-counts max_batches locks now size t start in
    (
      result.0,
      result.1,
      refl,
      omega (arith, a),
      omega (arith, b),
      c,
      omega (arith, e),
      λ h. f (ground arith),
    )
