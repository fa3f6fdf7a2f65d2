-- ===== src/Matches/Access/Rows.antt =====
-- What `lockMessagingMatch` answers and writes, by the status and the deadline of the match.
use histae_api.Prelude.{
  ℕ, ◌+◌, ◌<◌, ◌≤◌, ◌≡◌, ◌⊎◌, arith, true, false, Bool-cases, Option-cases, inl, inr, some, In,
  In-unique, Distinct, same_id, exists_where-In, exists_where_witness, find_where-none, ◌==◌,
  update_where, find_where-some, List, ◌∙◌, ap,
}
use histae_api.Matches.Models.{
  Account, Status, Match, Db, AvailabilityFailure, invalid_state, CommandResult, ok, refused,
  is_orphaned, is_participant,
}
use histae_api.Matches.Access.{
  write_match, find_available, after_opening, is_over, is_usable, lock_messaging_match,
}

-- The caller is one of the two, and neither account is deleted.
pub record IsOpenTo (user : ℕ) (accounts : List Account) (m : Match) : Type 0 where
  pub part : (m.user1_id ≡ user) ⊎ (m.user2_id ≡ user)
  pub alive :
      (a : Account)
      → In a accounts
      → (a.user_id ≡ m.user1_id) ⊎ (a.user_id ≡ m.user2_id)
      → a.deleted ≡ false

alive_lem :
    (user : ℕ) (accounts : List Account) (m : Match)
    → IsOpenTo user accounts m
    → is_orphaned accounts m ≡ false
unfolding is_orphaned
alive_lem user accounts m h = elim (Bool-cases (is_orphaned accounts m)) [
  | inr e ↦ e
  | inl e ↦
      let (a, here, hit) = exists_where_witness _ accounts e in
      elim (Bool-cases (a.user_id == m.user1_id)) [
        | inl first ↦ absurd (ground (arith, h.alive a here (inl (ground arith))))
        | inr other ↦ absurd (ground (arith, h.alive a here (inr (ground arith))))
      ]
]

part_lem :
    (user : ℕ) (accounts : List Account) (m : Match)
    → IsOpenTo user accounts m
    → is_participant user m ≡ true
part_lem user accounts m h = go h.part
  where
    go : (m.user1_id ≡ user) ⊎ (m.user2_id ≡ user) → is_participant user m ≡ true
    go (inl e) = ground arith
    go (inr e) = ground arith

module _ (d : Db) (match_id user now : ℕ) (m : Match)
    (ids : Distinct (same_id (λ (r : Match). r.id)) d.matches) (here : In m d.matches)
    (same : m.id ≡ match_id) (visible : IsOpenTo user d.accounts m) where
  found : find_available d match_id user ≡ some m
  unfolding find_available
  found =
      let alive = alive_lem user d.accounts m visible in
      let part = part_lem user d.accounts m visible in
      elim (Option-cases (find_available d match_id user)) [
        | inl e ↦
            absurd
              (ground (arith, exists_where-In m _ d.matches (find_where-none _ d.matches e) here))
        | inr (r, e) ↦
            let (r_in, hit) = find_where-some _ d.matches r e in
            let eq = In-unique (λ (x : Match). x.id) r m d.matches ids r_in here (ground arith) in
            e ∙ ap some eq
      ]

  abbrev pub written : (Match → Match) → Db
  written f = record d { matches = update_where (λ r. r.id == match_id) f d.matches }

  abbrev pub locked_match : Db × CommandResult Match
  locked_match = lock_messaging_match d match_id user now

  -- The lock of a match that the caller may see. An active match past its deadline gets a window of
  -- 24 hours for the continuation, and is handed out so. A window that has run out makes the match
  -- expired, to be purged after 30 days, and is refused as expired. Before the deadline, and when
  -- the match is confirmed, it is handed out as it is, and any other match is refused, both with
  -- nothing written.
  pub lock_messaging_match_lem :
      (m.status ≡ Status.active
        → m.expires_at ≤ now
        → locked_match ≡ (
          written (λ r. record r {
            status = Status.awaiting_continuation;
            expires_at = now + 86400000;
          }),
          ok (record m { status = Status.awaiting_continuation; expires_at = now + 86400000 }),
        ))
      × (m.status ≡ Status.awaiting_continuation
          → m.expires_at ≤ now
          → locked_match ≡ (
            written
                (λ r. record r { status = Status.expired; purge_after = some (now + 2592000000) }),
            refused AvailabilityFailure.expired,
          ))
      × ((m.status ≡ Status.active) ⊎ (m.status ≡ Status.awaiting_continuation)
          → now < m.expires_at
          → locked_match ≡ (d, ok m))
      × (m.status ≡ Status.confirmed → locked_match ≡ (d, ok m))
      × ((m.status ≡ Status.expired) ⊎ (m.status ≡ Status.ended)
          → locked_match ≡ (d, refused invalid_state))
  unfolding lock_messaging_match write_match after_opening is_over is_usable
  lock_messaging_match_lem = (
    λ active due. rw (found, lock_messaging_match) (ground arith),
    λ waiting due. rw (found, lock_messaging_match) (ground arith),
    λ running early. elim running [
      | inl active ↦ rw (found, lock_messaging_match) (ground arith)
      | inr waiting ↦ rw (found, lock_messaging_match) (ground arith)
    ],
    λ confirmed. rw (found, lock_messaging_match) (ground arith),
    λ closed. elim closed [
      | inl expired ↦ rw (found, lock_messaging_match) (ground arith)
      | inr ended ↦ rw (found, lock_messaging_match) (ground arith)
    ],
  )
