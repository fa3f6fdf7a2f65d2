-- ===== src/Matches/Reveal/Mutual.antt =====
-- The photos are revealed when both participants have agreed.
use histae_api.Prelude.{
  ℕ, count_where, exists_where, update_where, In, In-update_where_kept, ◌==◌, ◌&&◌, ◌||◌, ◌∷◌, [],
  ◌≡◌, true, false, refl, arith, List, ap, not,
}
use histae_api.Matches.Models.{Match, MatchState, Db, ok}
use histae_api.Matches.Access.{lock_messaging_match}
use histae_api.Matches.Consent.{state_of}
use histae_api.Matches.Reveal.{of_match, all_revealed, shown, record_reveal}

same_count :
    (match_id user : ℕ) (t : List MatchState)
    → count_where (of_match match_id) (update_where (state_of match_id user) shown t)
      ≡ count_where (of_match match_id) t
unfolding count_where update_where
same_count match_id user [] = refl
same_count match_id user (s ∷ t) = ground (arith, same_count match_id user t)

-- The rows that are not revealed after the update are those that the statement looks for before it.
hidden_after :
    (match_id user : ℕ) (t : List MatchState)
    → exists_where
        (λ s. of_match match_id s && not s.revealed)
        (update_where (state_of match_id user) shown t)
      ≡ exists_where (λ s. of_match match_id s && not (s.revealed || s.user_id == user)) t
unfolding exists_where update_where
hidden_after match_id user [] = refl
hidden_after match_id user (s ∷ t) = ground (arith, hidden_after match_id user t)

-- The answer to a reveal is the truth of the table that it leaves. For a participant of a match that
-- may be used: the photos are revealed exactly when the match has two rows and none of them, in the
-- table after the statement, is hidden. The rows of others stay as they were.
pub record_reveal_lem :
    (d d' : Db) (match_id user now : ℕ) (m : Match)
    → lock_messaging_match d match_id user now ≡ (d', ok m)
    → exists_where (state_of match_id user) d'.states ≡ true
    → (t : List MatchState) × (record_reveal d match_id user now ≡ (
      record d' { states = t },
      ok (
          count_where (of_match match_id) t == 2
          && not (exists_where (λ s. of_match match_id s && not s.revealed) t)),
    ))
      × ((s : MatchState) → In s d'.states → state_of match_id user s ≡ false → In s t)
unfolding record_reveal all_revealed
record_reveal_lem d d' match_id user now m usable row =
    let t = update_where (state_of match_id user) shown d'.states in
    (
      t,
      rw (usable, record_reveal)
          (rw (ap (λ x. x.0) usable) (
            rw row (
              rw (same_count match_id user d'.states, hidden_after match_id user d'.states) refl))),
      λ s n miss. In-update_where_kept s (state_of match_id user) shown d'.states n miss,
    )
