-- ===== src/Matches/Reveal.antt =====
-- `recordReveal` of src/matches/matches.repository.ts: one participant agrees to show the photos. The
-- answer is computed from the rows as they were before the UPDATE of the same statement.
pub mod Mutual
mod Tests
use histae_api.Prelude.{
  ℕ, ◌==◌, ◌&&◌, ◌||◌, true, List, Bool, not, if◌then◌else◌, count_where, update_where,
  exists_where,
}
use histae_api.Matches.Models.{
  Match, MatchState, Db, AvailabilityFailure, not_found, CommandResult, ok, refused,
}
use histae_api.Matches.Access.{lock_messaging_match}
use histae_api.Matches.Consent.{state_of}

abbrev of_match : ℕ → MatchState → Bool
of_match match_id s = s.match_id == match_id

-- `count(*) = 2 AND bool_and(state.revealed OR state.user_id = $2)`
all_revealed : ℕ → ℕ → List MatchState → Bool
all_revealed match_id user states =
    count_where (of_match match_id) states == 2
    && not (exists_where (λ s. of_match match_id s && not (s.revealed || s.user_id == user)) states)

abbrev shown : MatchState → MatchState
shown s = record s { revealed = true }

pub record_reveal : Db → ℕ → ℕ → ℕ → Db × CommandResult Bool
unfolding all_revealed
record_reveal d match_id user now =
    let (d', answer) = lock_messaging_match d match_id user now in
    elim answer [
      | refused why ↦ (d', refused why)
      | ok m ↦ (
        record d' { states = update_where (state_of match_id user) shown d'.states },
        if exists_where (state_of match_id user) d'.states
            then ok (all_revealed match_id user d'.states)
            else refused AvailabilityFailure.not_found,
      )
    ]
