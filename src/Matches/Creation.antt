-- ===== src/Matches/Creation.antt =====
-- `create` and `findByPair` of src/matches/matches.repository.ts, and `createFromMutualLike` of
-- src/matches/matches.service.ts: the match of two accounts that like each other. The answer holds the
-- row, of which the service shows a part. The calls of
-- `enqueueNotification` are told by `notified_accounts`.
pub mod Pairs
mod Tests
use histae_api.Prelude.{
  ℕ, find_where-some, exists_where_of_In, ◌*◌, ◌==◌, ◌&&◌, ◌||◌, ◌∷◌, ◌+◌, ◌≡◌, none, some, true,
  false, arith, Option, List, Bool, not, ltb, if◌then◌else◌, exists_where, find_where, count_where,
  ==_iff, [], ◌≢◌, inl, inr, Bool-cases,
}
use histae_api.Matches.Models.{Match, MatchState, Account, Block, Db, Status, match_window_ms}

-- What `create` ends in: done, a unique constraint, another constraint, or `MatchMutationError`.
pub data Creation : Type 0 where
  created unique_violation check_violation blocked not_found : Creation

pub data MatchAnswer : Type 0 where
  matched : Match → MatchAnswer
  invalid_match_request match_blocked discovery_candidate_not_found failed : MatchAnswer

abbrev live_accounts : Db → ℕ → ℕ
live_accounts d user =
    count_where (λ (a : Account). a.user_id == user && not a.deleted && not a.is_banned) d.accounts

abbrev are_blocked : Db → ℕ → ℕ → Bool
are_blocked d a b =
    exists_where
      (λ (k : Block).
        k.blocker_id == a && k.blocked_id == b || k.blocker_id == b && k.blocked_id == a)
      d.blocks

-- The rows of INSERT … SELECT: one for each pair of live accounts, none between blocked accounts.
insertable_rows : Db → Match → ℕ
insertable_rows d m =
    if are_blocked d m.user1_id m.user2_id
    then 0
    else live_accounts d m.user1_id * live_accounts d m.user2_id

abbrev of_pair : ℕ → ℕ → Match → Bool
of_pair a b m = m.user1_id == a && m.user2_id == b

-- `findByPair`
find_by_pair : Db → ℕ → ℕ → Option Match
find_by_pair d a b = find_where (of_pair a b) d.matches

abbrev fresh_state : ℕ → ℕ → MatchState
fresh_state match_id user = record {
  match_id = match_id;
  user_id = user;
  revealed = false;
  continued = false;
}

-- `create`
unfoldable pub create : Db → Match → Db × Creation
unfolding insertable_rows
create d m =
    if not (insertable_rows d m == 1)
    then (d, if are_blocked d m.user1_id m.user2_id then blocked else Creation.not_found)
    else if not (ltb m.user1_id m.user2_id)
    then (d, check_violation)
    else if exists_where (λ (r : Match). r.id == m.id || of_pair m.user1_id m.user2_id r) d.matches
    then (d, unique_violation)
    else if exists_where (λ (s : MatchState). s.match_id == m.id) d.states
    then (d, unique_violation)
    else (
      record d {
        matches = m ∷ d.matches;
        states = fresh_state m.id m.user1_id ∷ fresh_state m.id m.user2_id ∷ d.states;
      },
      created,
    )

-- The accounts for which `create` calls `enqueueNotification`, in this order, in its transaction.
abbrev notified_accounts : Creation → Match → List ℕ
notified_accounts created m = m.user1_id ∷ m.user2_id ∷ []
notified_accounts _ m = []

abbrev new_match : ℕ → ℕ → ℕ → ℕ → Match
new_match fresh now user1 user2 = record {
  id = fresh;
  user1_id = user1;
  user2_id = user2;
  status = Status.active;
  expires_at = now + match_window_ms;
  purge_after = none;
  continuation_initiator_id = none;
  created_at = now;
  last_message_at = none;
}

abbrev lower : ℕ → ℕ → ℕ
lower first second = if ltb first second then first else second

abbrev upper : ℕ → ℕ → ℕ
upper first second = if ltb first second then second else first

answer_to : Db × Creation → Match → Db × MatchAnswer
unfolding find_by_pair
answer_to (d, created) m = (d, matched m)
answer_to (d, unique_violation) m = elim (find_by_pair d m.user1_id m.user2_id) [
  | none ↦ (d, failed)
  | some existing ↦ (d, matched existing)
]
answer_to (d, check_violation) m = (d, failed)
answer_to (d, blocked) m = (d, match_blocked)
answer_to (d, Creation.not_found) m = (d, discovery_candidate_not_found)

-- `createFromMutualLike`
pub create_from_mutual_like : Db → ℕ → ℕ → ℕ → ℕ → Db × MatchAnswer
unfolding create answer_to
create_from_mutual_like d now fresh first second =
    let m = new_match fresh now (lower first second) (upper first second) in
    if first == second then (d, invalid_match_request) else answer_to (create d m) m
