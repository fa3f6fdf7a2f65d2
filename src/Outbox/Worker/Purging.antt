-- ===== src/Outbox/Worker/Purging.antt =====
-- What the purge of finished jobs deletes, and how much it does in one run.
use histae_api.Prelude.{
  ℕ, zero, suc, ◌+◌, ◌≤◌, ◌≡◌, ◌∙◌, ap, arith, Bool, true, false, ◌&&◌, ◌||◌, Bool-cases, inl, inr,
  List, Option, In, In-take, In-order_by, In-append, In-map, In-select_where, In-unique, one_of,
  one_of→In, Distinct, same_id, Distinct-delete_where, In-delete_where_of, length-delete_where,
  length, at_or_before, ltb,
}
use histae_api.Outbox.Models.{Event, Status, is_completed, is_discarded}
use histae_api.Outbox.Upkeep.{purge_completed, purge_ids, cleanup_keys, Key, key_le}
use histae_api.Outbox.Worker.{purge_from, purge_loop}

-- A job that is done with: completed, or dropped by an operator, no later than `before`.
abbrev pub is_stale : ℕ → Event → Bool
is_stale before e =
    is_completed e.status && at_or_before e.processed_at before
    || is_discarded e.status && at_or_before e.resolved_at before

cleanup_lem :
    (status : Status → Bool) (column : Event → Option ℕ) (before limit : ℕ) (t : List Event)
    (k : Key)
    → In k (cleanup_keys status column before limit t)
    → (e : Event) × In e t
      × (e.id ≡ k.1)
      × ((status e.status && at_or_before (column e) before) ≡ true)
unfolding cleanup_keys
cleanup_lem status column before limit t k m =
    let (e, n, eq) = In-map _ k _ (In-order_by k key_le _ (In-take k limit _ m)) in
    let (here, hit) = In-select_where e _ t n in (e, here, ap (λ z. z.1) eq, hit)

purge_ids_lem :
    (before limit : ℕ) (t : List Event) (id : ℕ)
    → one_of (purge_ids before limit t) id ≡ true
    → (e : Event) × In e t × (e.id ≡ id) × (is_stale before e ≡ true)
unfolding purge_ids
purge_ids_lem before limit t id h =
    let (k, m, eq) = In-map _ id _ (one_of→In _ id h) in
    elim (In-append k (cleanup_keys is_completed (λ e. e.processed_at) before limit t)
      (cleanup_keys is_discarded (λ e. e.resolved_at) before limit t)
      (In-order_by k key_le _ (In-take k limit _ m))) [
        | inl n ↦
            let (e, here, same, hit) =
              cleanup_lem is_completed (λ e. e.processed_at) before limit t k n in
            (e, here, same ∙ eq, ground arith)
        | inr n ↦
            let (e, here, same, hit) =
              cleanup_lem is_discarded (λ e. e.resolved_at) before limit t k n in
            (e, here, same ∙ eq, ground arith)
      ]

purge_keeps :
    (before limit : ℕ) (t : List Event) (e : Event)
    → Distinct (same_id (λ r. r.id)) t
    → In e t
    → is_stale before e ≡ false
    → In e (purge_completed t before limit).0
unfolding purge_completed
purge_keeps before limit t e d m fresh =
    In-delete_where_of e _ t m (elim (Bool-cases (one_of (purge_ids before limit t) e.id)) [
      | inl hit ↦
          let (e', here, same, stale) = purge_ids_lem before limit t e.id hit in
          absurd (cc (In-unique (λ r. r.id) e' e t d here m same))
      | inr miss ↦ miss
    ])

purge_from_lem :
    (rounds : ℕ) (t : List Event) (before size purged batches last : ℕ)
    → let (t', p) = purge_from rounds t before size purged batches last in
      (length t' + p.purged ≡ length t + purged) × (p.batches ≤ batches + rounds)
unfolding purge_from purge_completed
purge_from_lem zero t before size purged batches last = omega arith
purge_from_lem (suc rounds) t before size purged batches last = ground (
  arith,
  length-delete_where (λ e. one_of (purge_ids before size t) e.id) t,
  purge_from_lem rounds (purge_completed t before size).0 before size
      (purged + (purge_completed t before size).1) (batches + 1) (purge_completed t before size).1,
)

purge_from_keeps :
    (rounds : ℕ) (t : List Event) (before size purged batches last : ℕ) (e : Event)
    → Distinct (same_id (λ r. r.id)) t
    → In e t
    → is_stale before e ≡ false
    → In e (purge_from rounds t before size purged batches last).0
unfolding purge_from
purge_from_keeps zero t before size purged batches last e d m fresh = m
purge_from_keeps (suc rounds) t before size purged batches last e d m fresh =
    let (t', n) = purge_completed t before size in
    let kept = purge_keeps before size t e d m fresh in
    let d' : Distinct (same_id (λ r. r.id)) t' =
      unfold purge_completed in Distinct-delete_where (same_id (λ r. r.id)) _ t d in
    let later =
      purge_from_keeps rounds t' before size (purged + n) (batches + 1) n e d' kept fresh in
    elim (Bool-cases (ltb n size)) [ inl few ↦ rw few kept | inr many ↦ rw many later ]

-- The purge deletes as many rows as it reports, in no more batches than allowed, and every job that
-- is pending, in hand, a dead letter, or finished after `before` is still there.
pub purge_loop_lem :
    (t : List Event) (before size max_batches : ℕ)
    → Distinct (same_id (λ e. e.id)) t
    → let (t', p) = purge_loop t before size max_batches in
      (length t' + p.purged ≡ length t)
      × (p.batches ≤ max_batches)
      × ((e : Event) → In e t → is_stale before e ≡ false → In e t')
unfolding purge_loop
purge_loop_lem t before size max_batches d = (
  omega (arith, purge_from_lem max_batches t before size 0 0 0),
  omega (arith, purge_from_lem max_batches t before size 0 0 0),
  λ e m fresh. purge_from_keeps max_batches t before size 0 0 0 e d m fresh,
)
