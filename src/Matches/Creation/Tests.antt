-- ===== src/Matches/Creation/Tests.antt =====
-- Two accounts that like each other.
use histae_api.Prelude.{ℕ, ◌∷◌, [], ◌≡◌, false, refl, exists_where, count_where}
use histae_api.Matches.Models.{Account, Db}
use histae_api.Matches.Creation.{matched, match_blocked, new_match, create, create_from_mutual_like}
use histae_api.Matches.Creation.Pairs.{create_from_mutual_like_once}

abbrev account : ℕ → Account
account user = record { user_id = user; deleted = false; is_banned = false }

abbrev strangers : Db
strangers = record {
  accounts = account 10 ∷ account 20 ∷ [];
  blocks = [];
  matches = [];
  states = [];
  usage = [];
  subscriptions = [];
  plans = [];
}

abbrev blocking : Db
blocking = record strangers { blocks = record { blocker_id = 20; blocked_id = 10 } ∷ [] }

abbrev couple : Db
couple = (create strangers (new_match 1 100 10 20)).0

blocked_pair : create_from_mutual_like blocking 100 1 10 20 ≡ (blocking, match_blocked)
unfolding create_from_mutual_like exists_where
blocked_pair = refl

first_like :
    create_from_mutual_like strangers 100 1 20 10 ≡ (couple, matched (new_match 1 100 10 20))
unfolding create_from_mutual_like exists_where count_where
first_like = refl

create_from_mutual_like_once_example :
    (create_from_mutual_like couple 200 2 20 10 ≡ (couple, matched (new_match 1 100 10 20)))
    × (create_from_mutual_like couple 200 2 10 20 ≡ (couple, matched (new_match 1 100 10 20)))
create_from_mutual_like_once_example =
    create_from_mutual_like_once strangers couple 100 1 20 10 (new_match 1 100 10 20) first_like 200
      2
