-- ===== src/Matches/Maintenance/Deletion.antt =====
-- What a batch of maintenance deletes, and what it leaves.
use histae_api.Prelude.{
  ℕ, In, In-update_where, In-update_where_kept, In-unique, In-take, In-order_by, In-select_where,
  In-delete_where_of, one_of, one_of-map, update_where, Distinct, Distinct-update_where, same_id,
  holds, ◌∙◌, exists_where_of_In, ◌==◌, ◌≡◌, ◌⊎◌, inl, inr, true, false, refl, arith, List, Bool,
  sym, Bool-cases,
}
use histae_api.Matches.Models.{Match}
use histae_api.Matches.Access.{opened, lapsed}
use histae_api.Matches.Messages.{Message}
use histae_api.Matches.Maintenance.{
  Tables, Report, Locks, open_due, expire_due, delete_messages, detach_reports, purge_matches,
  purge_ids, run_maintenance, is_purgeable, is_bare,
}

-- A match after an update that writes no purge date in the past.
module _ (now : ℕ) (p : Match → Bool) (f : Match → Match) (same : (m : Match) → (f m).id ≡ m.id)
    (kept : (m : Match) → is_purgeable now (f m) ≡ false) where
  moved :
      (x : Match) (t : List Match)
      → In x t
      → (y : Match) × In y (update_where p f t)
        × (y.id ≡ x.id)
        × (is_purgeable now x ≡ false → is_purgeable now y ≡ false)
  moved x t m = elim (Bool-cases (p x)) [
    | inl hit ↦ (f x, In-update_where x p f t m hit, same x, λ _. kept x)
    | inr miss ↦ (x, In-update_where_kept x p f t m miss, refl, λ h. h)
  ]

-- What the last statement picks.
purge_ids_lem :
    (locked : ℕ → Bool) (now size : ℕ) (t : Tables) (id : ℕ)
    → one_of (purge_ids locked now size t) id ≡ true
    → (y : Match) × In y t.matches
      × (y.id ≡ id)
      × (is_purgeable now y ≡ true)
      × (is_bare t y ≡ true)
unfolding purge_ids
purge_ids_lem locked now size t id h =
    let (y, n, same) = one_of-map (λ (m : Match). m.id) _ id h in
    let (here, hit) = In-select_where y _ t.matches (In-order_by y _ _ (In-take y size _ n)) in
    (y, here, same, ground arith, ground arith)

module _ (locks : Locks) (now size : ℕ) (t : Tables)
    (ids : Distinct (same_id (λ (m : Match). m.id)) t.matches) where
  -- The matches and the tables before the last statement.
  abbrev advanced : List Match
  advanced = (expire_due locks.expiring now size (open_due locks.opening now size t.matches).0).0

  abbrev emptied : Tables
  emptied =
      let t1 = record t { matches = advanced } in
      record t1 {
        messages = (delete_messages locks.deleting now size t1).0;
        reports = (detach_reports locks.detaching now size t1).0;
      }

  abbrev left : Tables
  left = record emptied { matches = (purge_matches locks.purging now size emptied).0 }

  advanced-Distinct : Distinct (same_id (λ (m : Match). m.id)) advanced
  unfolding open_due expire_due
  advanced-Distinct =
      Distinct-update_where (same_id (λ (m : Match). m.id)) _ (lapsed now) _ (λ a b. refl)
        (λ a b. refl)
        (Distinct-update_where (same_id (λ (m : Match). m.id)) _ (opened now) t.matches
          (λ a b. refl) (λ a b. refl) ids)

  still_there :
      (x : Match)
      → In x t.matches
      → (y : Match) × In y advanced
        × (y.id ≡ x.id)
        × (is_purgeable now x ≡ false → is_purgeable now y ≡ false)
  unfolding open_due expire_due
  still_there x m =
      let (y, n, y_id, y_kept) = moved now _ (opened now) (λ r. refl) (λ r. refl) x t.matches m in
      let (z, o, z_id, z_kept) = moved now _ (lapsed now) (λ r. refl) (λ r. ground arith) y _ n in
      (z, o, z_id ∙ y_id, λ h. z_kept (y_kept h))

  -- A match that no statement may delete.
  spared :
      (y : Match)
      → In y advanced
      → (is_purgeable now y ≡ false) ⊎ (is_bare emptied y ≡ false)
      → In y left.matches
  unfolding purge_matches
  spared y m why =
      In-delete_where_of y _ advanced m
        (elim (Bool-cases (one_of (purge_ids locks.purging now size emptied) y.id)) [
          | inr miss ↦ miss
          | inl hit ↦
              let (z, n, same, due, bare) = purge_ids_lem locks.purging now size emptied y.id hit in
              let eq = In-unique (λ (r : Match). r.id) z y advanced advanced-Distinct n m same in
              absurd (elim why [ inl early ↦ cc | inr kept ↦ cc ])
        ])

  has_message :
      (g : Message) (y : Match)
      → In g emptied.messages
      → g.match_id ≡ y.id
      → is_bare emptied y ≡ false
  has_message g y m same =
      let some_row =
        exists_where_of_In g (λ (r : Message). r.match_id == y.id) emptied.messages m
          (ground arith) in
      ground (arith, some_row)

  has_report :
      (r : Report) (y : Match)
      → In r emptied.reports
      → holds r.match_id y.id ≡ true
      → is_bare emptied y ≡ false
  has_report r y m same =
      let some_row =
        exists_where_of_In r (λ (s : Report). holds s.match_id y.id) emptied.reports m same in
      ground (arith, some_row)

  run_maintenance-left : (run_maintenance locks now size t).0 ≡ left
  unfolding run_maintenance
  run_maintenance-left = refl

  -- A batch of maintenance deletes no match too early and breaks no reference. A match whose purge
  -- date has not passed is still in the table, and so is the match of every message and of every
  -- report that the batch leaves attached, whatever rows other transactions hold.
  pub run_maintenance_deletes :
      let t' = (run_maintenance locks now size t).0 in
      (x : Match)
      → In x t.matches
      → (is_purgeable now x ≡ false)
        ⊎ ((g : Message) × In g t'.messages × (g.match_id ≡ x.id))
        ⊎ ((r : Report) × In r t'.reports × (holds r.match_id x.id ≡ true))
      → (y : Match) × In y t'.matches × (y.id ≡ x.id)
  run_maintenance_deletes = rw run_maintenance-left (λ x m why.
      let (y, n, same, kept) = still_there x m in
      (
        y,
        spared y n (elim why [
          | inl early ↦ inl (kept early)
          | inr (inl (g, g_in, g_of)) ↦ inr (has_message g y g_in (g_of ∙ sym same))
          | inr (inr (r, r_in, r_of)) ↦ inr (has_report r y r_in (rw same r_of))
        ]),
        same,
      ))
