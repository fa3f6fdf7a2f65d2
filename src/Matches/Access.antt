-- ===== src/Matches/Access.antt =====
-- src/matches/match-access.ts: `lockMessagingMatch`, which every messaging command and the reveal
-- call first, in their own transaction. It advances the match that the clock has overtaken.
pub mod Lock
pub mod Rows
use histae_api.Prelude.{
  ℕ, ◌+◌, Bool, not, ◌&&◌, ◌||◌, Option, none, some, leb, ◌==◌, if◌then◌else◌, find_where,
  update_where,
}
use histae_api.Matches.Models.{
  Status, Match, Db, AvailabilityFailure, not_found, invalid_state, CommandResult, ok, refused,
  match_window_ms, match_purge_ms, is_active, is_awaiting, is_confirmed, is_participant,
  is_orphaned,
}

-- SET status = 'awaiting_continuation', expires_at = $2 + INTERVAL '24 hours'
abbrev pub opened : ℕ → Match → Match
opened now m = record m {
  status = Status.awaiting_continuation;
  expires_at = now + match_window_ms;
}

-- SET status = 'expired', purge_after = $2, thirty days later
abbrev pub lapsed : ℕ → Match → Match
lapsed now m = record m { status = Status.expired; purge_after = some (now + match_purge_ms) }

unfoldable pub write_match : (Match → Match) → ℕ → Db → Db
write_match f id d = record d { matches = update_where (λ m. m.id == id) f d.matches }

pub find_available : Db → ℕ → ℕ → Option Match
find_available d match_id user =
    find_where (λ m. m.id == match_id && is_participant user m && not (is_orphaned d.accounts m))
      d.matches

-- The two steps of the clock: the opening of the continuation window, then the expiry.
unfoldable pub after_opening : ℕ → Match → Match
after_opening now m = if is_active m.status && leb m.expires_at now then opened now m else m

pub is_over : ℕ → Match → Bool
is_over now m = is_awaiting m.status && leb m.expires_at now

pub is_usable : Status → Bool
is_usable s = is_active s || is_awaiting s || is_confirmed s

-- `now` is the clock read after the lock was acquired.
unfoldable pub lock_messaging_match : Db → ℕ → ℕ → ℕ → Db × CommandResult Match
unfolding write_match find_available after_opening is_over is_usable
lock_messaging_match d match_id user now = elim (find_available d match_id user) [
  | none ↦ (d, refused not_found)
  | some initial ↦
      let d' =
        if is_active initial.status && leb initial.expires_at now
        then write_match (opened now) match_id d
        else d in
      let m = after_opening now initial in
      if is_over now m
      then (write_match (lapsed now) match_id d', refused AvailabilityFailure.expired)
      else if not (is_usable m.status)
      then (d', refused invalid_state)
      else (d', ok m)
]
