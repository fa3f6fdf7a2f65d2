-- ===== src/Outbox/Store/Claims.antt =====
-- What `claimBatch` hands to a worker.
use histae_api.Prelude.{
  ℕ, ◌≤◌, ◌<◌, ◌≡◌, ◌≢◌, refl, sym, subst, Bool, true, false, not, ◌&&◌, List, some, arith, All,
  All-update_where_In, inl, inr, ◌⊎◌, exists_where, map, one_of, select_where, update_where, In,
  In-take, In-order_by, In-order_by_of, In-select_where, In-select_where_of, In-update_where,
  In-update_where_inv, In-unique, one_of-map, exists_where-In, Distinct, Distinct-update_where,
  same_id, count_where_ids, length, length-map, length-select_where, length-take-le, order_by,
  take-least, order_by-IsSorted,
}
use histae_api.Outbox.Models.{Event}
use histae_api.Outbox.WellFormed.{WellFormed}
use histae_api.Outbox.Store.{
  claimed, claim_batch, is_claimable, candidates, attempts_check, claim_order,
}
use histae_api.Outbox.Store.Constraints.{IsStorable}

claim_order_total : (a b : Event) → claim_order a b ≡ false → claim_order b a ≡ true
unfolding claim_order
claim_order_total a b h = ground arith

claim_order_trans :
    (a b c : Event) → claim_order a b ≡ true → claim_order b c ≡ true → claim_order a c ≡ true
unfolding claim_order
claim_order_trans a b c h k = ground arith

module _ (locked : ℕ → Bool) (worker now stale limit : ℕ) (t : List Event) where
  abbrev pub picked : List Event
  picked = candidates locked now stale limit t

  abbrev pub is_picked : Event → Bool
  is_picked e = one_of (map (λ c. c.id) picked) e.id

  pub candidate_lem :
      (e : Event) → In e picked → In e t × (is_claimable now stale e ≡ true) × (locked e.id ≡ false)
  unfolding candidates
  candidate_lem e m =
      let (here, hit) = In-select_where e _ t (In-order_by e claim_order _ (In-take e limit _ m)) in
      (here, ground arith, ground arith)

  -- A row whose id was picked is a candidate itself.
  pub picked_lem :
      (e : Event) → Distinct (same_id (λ r. r.id)) t → In e t → is_picked e ≡ true → In e picked
  picked_lem e d m h =
      let (c, n, same) = one_of-map (λ r. r.id) picked e.id h in
      subst (λ x. In x picked) (In-unique (λ r. r.id) c e t d (candidate_lem c n).0 m same) n

  -- The statement when the constraint on the attempts holds of every row that it writes.
  pub claim_batch-some :
      {t' rows : List Event}
      → claim_batch t locked worker now stale limit ≡ some (t', rows)
      → (t' ≡ update_where is_picked (claimed worker now) t)
        × (rows ≡ select_where is_picked (update_where is_picked (claimed worker now) t))
        × (exists_where
              (λ e. not (attempts_check e))
              (select_where is_picked (update_where is_picked (claimed worker now) t))
            ≡ false)
  unfolding claim_batch
  claim_batch-some h = ground arith

  -- Each row handed over was due or abandoned, was not held by another transaction, and now
  -- belongs to the worker with one attempt more.
  pub claimed_row :
      {t' rows : List Event} (e : Event)
      → Distinct (same_id (λ r. r.id)) t
      → claim_batch t locked worker now stale limit ≡ some (t', rows)
      → In e rows
      → (old : Event) × In old t
        × (is_claimable now stale old ≡ true)
        × (locked old.id ≡ false)
        × (e ≡ claimed worker now old)
  unfolding claimed
  claimed_row e d h m =
      let (_, rows_eq, _) = claim_batch-some h in
      let (n, hit) = In-select_where e is_picked _ (subst (In e) rows_eq m) in
      elim (In-update_where_inv e is_picked (claimed worker now) t n) [
        | inl a ↦ absurd (cc)
        | inr (old, here, p, eq) ↦
            let (_, fits, free) = candidate_lem old (picked_lem old d here p) in
            (old, here, fits, free, eq)
      ]

  claim-Distinct :
      Distinct (same_id (λ r. r.id)) t
      → Distinct (same_id (λ r. r.id)) (update_where is_picked (claimed worker now) t)
  unfolding claimed
  claim-Distinct =
      Distinct-update_where (same_id (λ r. r.id)) is_picked (claimed worker now) t (λ a b. refl)
        (λ a b. refl)

  picked-length : length (map (λ c. c.id) picked) ≤ limit
  unfolding candidates
  picked-length = omega (
    arith,
    length-map {0, 0} (λ (c : Event). c.id) picked,
    length-take-le {0} limit (
        order_by claim_order (select_where (λ e. is_claimable now stale e && not (locked e.id)) t)),
  )

  -- No more rows than asked for.
  pub claim_batch-length :
      {t' rows : List Event}
      → Distinct (same_id (λ r. r.id)) t
      → claim_batch t locked worker now stale limit ≡ some (t', rows)
      → length rows ≤ limit
  claim_batch-length {rows} d h =
      let (_, rows_eq, _) = claim_batch-some h in
      let t'' = update_where is_picked (claimed worker now) t in
      subst (λ l. length l ≤ limit) (sym rows_eq)
        (omega (
          arith,
          length-select_where is_picked t'',
          count_where_ids (λ r. r.id) (map (λ c. c.id) picked) t'' (claim-Distinct d),
          picked-length,
        ))

  claimed-WellFormed :
      (e : Event)
      → is_claimable now stale e ≡ true
      → WellFormed e
      → WellFormed (claimed worker now e)
  unfolding is_claimable claimed
  claimed-WellFormed e h w = grind arith

  passes_check :
      (e : Event)
      → exists_where
          (λ r. not (attempts_check r))
          (select_where is_picked (update_where is_picked (claimed worker now) t))
        ≡ false
      → In e t
      → is_picked e ≡ true
      → (claimed worker now e).attempts ≤ 100
  unfolding claimed
  passes_check e h m p =
      let written =
        In-select_where_of (claimed worker now e) is_picked _
          (In-update_where e is_picked (claimed worker now) t m p) p in
      let ok = exists_where-In (claimed worker now e) (λ r. not (attempts_check r)) _ h written in
      ground arith

  pub claim_batch-IsStorable :
      {t' rows : List Event}
      → Distinct (same_id (λ r. r.id)) t
      → claim_batch t locked worker now stale limit ≡ some (t', rows)
      → All IsStorable t
      → All IsStorable t'
  claim_batch-IsStorable d h s =
      let (t_eq, _, ok) = claim_batch-some h in
      subst (All IsStorable) (sym t_eq) (
        All-update_where_In IsStorable is_picked (claimed worker now) t
          (λ e m p old. record {
            shape = claimed-WellFormed e (candidate_lem e (picked_lem e d m p)).1 old.shape;
            bounded = passes_check e ok m p;
          })
          s)

  -- A row that could be claimed and was not comes after every row that was, in the order of the
  -- statement: available_at, then created_at, then id.
  pub claim_batch-order :
      (a b : Event)
      → In a picked
      → In b t
      → is_claimable now stale b ≡ true
      → locked b.id ≡ false
      → In b picked ⊎ (claim_order a b ≡ true)
  unfolding candidates
  claim_batch-order a b m n fits free =
      take-least claim_order limit a b _
        (order_by-IsSorted claim_order claim_order_total claim_order_trans _) m
        (In-order_by_of claim_order b _ (In-select_where_of b _ t n (ground arith)))

just_claimed :
    (e : Event) (worker now now' stale' : ℕ)
    → stale' < now
    → is_claimable now' stale' (claimed worker now e) ≡ false
unfolding is_claimable claimed
just_claimed e worker now now' stale' h = ground arith

-- Two batches claimed one after the other share no job, if the second treats as abandoned only
-- jobs that were locked before the first.
pub claim_batch_disjoint :
    (t t' t'' rows rows' : List Event) (locked locked' : ℕ → Bool)
    (worker worker' now now' stale stale' limit limit' : ℕ)
    → Distinct (same_id (λ r. r.id)) t
    → claim_batch t locked worker now stale limit ≡ some (t', rows)
    → claim_batch t' locked' worker' now' stale' limit' ≡ some (t'', rows')
    → stale' < now
    → (a b : Event) → In a rows
    → In b rows'
    → a.id ≢ b.id
claim_batch_disjoint t t' t'' rows rows' locked locked' worker worker' now now' stale stale' limit
      limit' d h k late a b m n same =
    let (t_eq, rows_eq, _) = claim_batch-some locked worker now stale limit t h in
    let d' =
      subst (Distinct (same_id (λ r. r.id))) (sym t_eq)
        (claim-Distinct locked worker now stale limit t d) in
    let in_t' = subst (In a) (sym t_eq) (In-select_where a _ _ (subst (In a) rows_eq m)).0 in
    let (old, _, _, _, a_eq) = claimed_row locked worker now stale limit t a d h m in
    let (old', here, fits, _, b_eq) = claimed_row locked' worker' now' stale' limit' t' b d' k n in
    let same' : a.id ≡ old'.id = unfold claimed in cc in
    let a_eq' = In-unique (λ r. r.id) a old' t' d' in_t' here same' in
    cc (just_claimed old worker now now' stale' late)
