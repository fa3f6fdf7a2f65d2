-- ===== src/Matches/Reveal/Tests.antt =====
-- A reveal in a confirmed match.
use histae_api.Prelude.{
  ℕ, In, count_where, exists_where, ◌==◌, ◌&&◌, ◌∷◌, [], ◌≡◌, none, some, true, false, refl, List,
  Bool, not, find_where,
}
use histae_api.Matches.Models.{Match, MatchState, Account, Db, Status, ok, is_orphaned}
use histae_api.Matches.Access.{lock_messaging_match}
use histae_api.Matches.Consent.{state_of}
use histae_api.Matches.Reveal.{of_match, record_reveal}
use histae_api.Matches.Reveal.Mutual.{record_reveal_lem}

abbrev confirmed_match : Match
confirmed_match = record {
  id = 1;
  user1_id = 10;
  user2_id = 20;
  status = Status.confirmed;
  expires_at = 500;
  purge_after = none;
  continuation_initiator_id = some 10;
  created_at = 0;
  last_message_at = none;
}

abbrev account : ℕ → Account
account user = record { user_id = user; deleted = false; is_banned = false }

abbrev state : ℕ → Bool → MatchState
state user revealed = record { match_id = 1; user_id = user; revealed = revealed; continued = true }

abbrev db : Db
db = record {
  accounts = account 10 ∷ account 20 ∷ [];
  blocks = [];
  matches = confirmed_match ∷ [];
  states = state 10 true ∷ state 20 false ∷ [];
  usage = [];
  subscriptions = [];
  plans = [];
}

lock_db : lock_messaging_match db 1 20 600 ≡ (db, ok confirmed_match)
unfolding lock_messaging_match find_where is_orphaned exists_where
lock_db = refl

second_reveal : (record_reveal db 1 20 600).1 ≡ ok true
unfolding record_reveal lock_messaging_match find_where is_orphaned exists_where count_where
second_reveal = refl

record_reveal_lem_example :
    (t : List MatchState) × (record_reveal db 1 20 600 ≡ (
      record db { states = t },
      ok (
          count_where (of_match 1) t == 2
          && not (exists_where (λ s. of_match 1 s && not s.revealed) t)),
    ))
    × ((s : MatchState) → In s db.states → state_of 1 20 s ≡ false → In s t)
unfolding exists_where
record_reveal_lem_example = record_reveal_lem db db 1 20 600 confirmed_match lock_db refl
