-- ===== src/Outbox/Store/Poison.antt =====
-- The constraint on the attempts, met by `claimBatch`: the statement counts an attempt at every
-- claim, a claim of an abandoned job included, and nothing caps the count there.
use histae_api.Prelude.{
  ℕ, ◌≡◌, ◌↔◌, Bool, true, not, List, none, arith, In-update_where, In-select_where_of,
  In-select_where, In-update_where_inv, one_of-map_of, exists_where, exists_where_witness,
  exists_where_of_In, leb, update_where, select_where, Distinct, same_id, inl, inr, Bool-cases,
  subst,
}
use histae_api.Outbox.Models.{Event}
use histae_api.Outbox.Store.{claim_batch, claimed, attempts_check}
use histae_api.Outbox.Store.Claims.{picked, is_picked, candidate_lem, picked_lem}

module _ (locked : ℕ → Bool) (worker now stale limit : ℕ) (t : List Event) where
  abbrev pub spent : Event → Bool
  spent e = leb 100 e.attempts

  spent_written : (e : Event) → spent e ≡ true → not (attempts_check (claimed worker now e)) ≡ true
  unfolding claimed
  spent_written e h = ground arith

  written_spent : (e : Event) → not (attempts_check (claimed worker now e)) ≡ true → spent e ≡ true
  unfolding claimed
  written_spent e h = ground arith

  abbrev rows : List Event
  rows =
      select_where (is_picked locked worker now stale limit t)
        (update_where (is_picked locked worker now stale limit t) (claimed worker now) t)

  abbrev past_check : Event → Bool
  past_check e = not (attempts_check e)

  fails :
      exists_where spent (picked locked worker now stale limit t) ≡ true
      → exists_where past_check rows ≡ true
  fails h =
      let (e, m, full) = exists_where_witness spent (picked locked worker now stale limit t) h in
      let hit = one_of-map_of (λ c. c.id) e (picked locked worker now stale limit t) m in
      let written =
        In-update_where e (is_picked locked worker now stale limit t) (claimed worker now) t
          (candidate_lem locked worker now stale limit t e m).0 hit in
      exists_where_of_In (claimed worker now e) past_check rows
        (In-select_where_of (claimed worker now e) (is_picked locked worker now stale limit t) _
          written (unfold claimed in hit))
        (spent_written e full)

  only_then :
      Distinct (same_id (λ r. r.id)) t
      → exists_where past_check rows ≡ true
      → exists_where spent (picked locked worker now stale limit t) ≡ true
  only_then d h =
      let (x, m, past) = exists_where_witness past_check rows h in
      let (n, hit) = In-select_where x (is_picked locked worker now stale limit t) _ m in
      elim (In-update_where_inv x (is_picked locked worker now stale limit t) (claimed worker now) t
        n) [
          | inl a ↦ cc
          | inr (old, here, p, eq) ↦
              exists_where_of_In old spent _
                (picked_lem locked worker now stale limit t old d here p)
                (written_spent old (subst (λ y. past_check y ≡ true) eq past))
        ]

  -- The claim of a batch fails as a whole exactly when one of its candidates has 100 attempts: no
  -- other job of the batch is handed out, and as the table stays as it was, so it goes at each poll.
  pub claim_batch-eq-none_iff :
      Distinct (same_id (λ r. r.id)) t
      → (claim_batch t locked worker now stale limit ≡ none)
        ↔ (exists_where spent (picked locked worker now stale limit t) ≡ true)
  unfolding claim_batch
  claim_batch-eq-none_iff d = (
    λ h. elim (Bool-cases (exists_where past_check rows)) [
      | inl e ↦ only_then d e
      | inr e ↦ absurd (ground arith)
    ],
    λ h. rw (fails h),
  )
