-- ===== src/Matches/Access/Lock.antt =====
-- What a command may rely on when `lockMessagingMatch` answers, and what the lock has written.
use histae_api.Prelude.{
  ℕ, ◌<◌, ◌≡◌, refl, arith, true, false, ◌&&◌, Bool-cases, Option-cases, inl, inr, ◌⊎◌, some, none,
  In, In-update_where, find_where-some, if◌then◌else◌, leb, ◌==◌,
}
use histae_api.Matches.Models.{
  Status, Match, Db, AvailabilityFailure, not_found, invalid_state, CommandResult, ok, refused,
  is_active, is_participant, is_orphaned,
}
use histae_api.Matches.Access.{
  opened, lapsed, write_match, find_available, after_opening, is_over, is_usable,
  lock_messaging_match,
}

-- A match that may be used at `now`: its deadline lies ahead, or it has none any more.
abbrev IsCurrent : ℕ → Match → Type 0
IsCurrent now m =
    (((m.status ≡ Status.active) ⊎ (m.status ≡ Status.awaiting_continuation))
      × (now < m.expires_at))
    ⊎ (m.status ≡ Status.confirmed)

after_opening-IsCurrent :
    (now : ℕ) (m : Match)
    → is_over now (after_opening now m) ≡ false
    → is_usable (after_opening now m).status ≡ true
    → IsCurrent now (after_opening now m)
unfolding after_opening is_over is_usable
after_opening-IsCurrent now m h u = ground arith

module _ (d : Db) (match_id user now : ℕ) where
  abbrev pub locked : Db × CommandResult Match
  locked = lock_messaging_match d match_id user now

  abbrev pub IsVisible : Match → Type 0
  IsVisible m =
      In m d.matches
      × (m.id ≡ match_id)
      × (is_participant user m ≡ true)
      × (is_orphaned d.accounts m ≡ false)

  find_available_lem : (m : Match) → find_available d match_id user ≡ some m → IsVisible m
  unfolding find_available
  find_available_lem m h =
      let (here, hit) = find_where-some _ d.matches m h in
      (here, ground arith, ground arith, ground arith)

  -- The table once the clock has opened the continuation window of `m`, if it is time.
  abbrev pub advanced : Match → Db
  advanced m =
      if is_active m.status && leb m.expires_at now then write_match (opened now) match_id d else d

  abbrev pub Answer : Match → Type 0
  Answer m =
      ((is_over now (after_opening now m) ≡ true)
        × (locked ≡ (
          write_match (lapsed now) match_id (advanced m),
          refused AvailabilityFailure.expired,
        )))
      ⊎ (((is_over now (after_opening now m) ≡ false)
            × (is_usable (after_opening now m).status ≡ false)
            × (locked ≡ (advanced m, refused invalid_state)))
          ⊎ (IsCurrent now (after_opening now m)
              × (locked ≡ (advanced m, ok (after_opening now m)))))

  answer_lem : (m : Match) → find_available d match_id user ≡ some m → Answer m
  unfolding lock_messaging_match
  answer_lem m h = elim (Bool-cases (is_over now (after_opening now m))) [
    | inl over ↦ inl (over, rw (h, lock_messaging_match) (rw over refl))
    | inr fresh ↦ elim (Bool-cases (is_usable (after_opening now m).status)) [
      | inl usable ↦ inr (inr (after_opening-IsCurrent now m fresh usable, ground arith))
      | inr closed ↦ inr (inl (fresh, closed, ground arith))
    ]
  ]

  missing : find_available d match_id user ≡ none → locked ≡ (d, refused not_found)
  unfolding lock_messaging_match
  missing e = ground arith

  -- The row handed to the caller is the row of the table.
  pub advanced_row : (m : Match) → IsVisible m → In (after_opening now m) (advanced m).matches
  unfolding after_opening write_match
  advanced_row m (here, same, _, _) =
      elim (Bool-cases (is_active m.status && leb m.expires_at now)) [
        | inl due ↦
            rw due
              (In-update_where m (λ r. r.id == match_id) (opened now) d.matches here (ground arith))
        | inr early ↦ rw early here
      ]

  -- The answers, by the steps of the lock.
  pub lock_messaging_match_cases :
      ((find_available d match_id user ≡ none) × (locked ≡ (d, refused not_found)))
      ⊎ ((m : Match) × IsVisible m × Answer m)
  lock_messaging_match_cases = elim (Option-cases (find_available d match_id user)) [
    | inl e ↦ inl (e, missing e)
    | inr (m, e) ↦ inr (m, find_available_lem m e, answer_lem m e)
  ]
