-- ===== src/Auth/Sessions/Tests.antt =====
-- Runs of the sessions on small tables.
use histae_api.Prelude.{
  ℕ, In, exists_where, update_where, ◌∷◌, [], ◌≡◌, none, some, true, false, refl, List, find_where,
  count_where, inl,
}
use histae_api.Auth.Sessions.{
  Db, Account, Family, Token, NewRefreshToken, MobileSessionIdentity, lock_token, active_family,
  rotate, create,
}
use histae_api.Auth.Sessions.Replay.{replay_ends_family}
use histae_api.Auth.Sessions.Once.{rotates_once}
use histae_api.Auth.Sessions.Invariant.{IsSound}
use histae_api.Auth.Sessions.History.{Op, creates, rotates, run, run_sessions-IsSound}

abbrev next_token : ℕ → NewRefreshToken
next_token n = record { id = n; hash = n; jti = n; expires_at = 1000; created_at = 0 }

abbrev old : Token
old = record {
  id = 1;
  user_id = 5;
  token_hash = 1;
  jti = 1;
  revoked = false;
  expires_at = 1000;
  created_at = 0;
  family_id = 9;
  parent_token_id = none;
  rotated_at = none;
}

abbrev family : Family
family = record {
  id = 9;
  user_id = 5;
  created_at = 0;
  last_refreshed_at = 0;
  expires_at = 1000;
  revoked_at = none;
  revocation_reason = none;
}

abbrev spent : Token
spent = record old { revoked = true; rotated_at = some 100 }

abbrev heir : Token
heir = record old { id = 2; token_hash = 2; jti = 2; parent_token_id = some 1 }

abbrev account : Account
account = record { user_id = 5; deleted = false; is_banned = false }

abbrev signed_in : Db
signed_in = record {
  accounts = account ∷ [];
  families = family ∷ [];
  tokens = old ∷ [];
  devices = [];
}

abbrev refreshed_once : Db
refreshed_once = record signed_in {
  families = record family { last_refreshed_at = 100 } ∷ [];
  tokens = heir ∷ spent ∷ [];
}

abbrev identity : MobileSessionIdentity
identity = record { user_id = 5; session_id = 9 }

first_rotation : rotate signed_in 100 1 1 (next_token 2) ≡ some (refreshed_once, some identity)
unfolding rotate find_where count_where exists_where update_where
first_rotation = refl

signed_in-IsSound : IsSound signed_in
unfolding exists_where
signed_in-IsSound = record {
  ids = (refl, tt);
  jtis = (refl, tt);
  one_active = (refl, tt);
  families = (refl, tt);
  backed = ((λ _. (family, inl refl, refl, refl, refl), λ e. cc), tt);
}

-- The heir is used, the old token is presented twice, and the user signs in again.
abbrev replayed_twice : List Op
replayed_twice =
    rotates 120 2 2 (next_token 4)
    ∷ rotates 130 1 1 (next_token 5)
    ∷ rotates 140 1 1 (next_token 6)
    ∷ creates 19 5 (next_token 7)
    ∷ []

rotates_once_example :
    (d'' : Db) × (rotate (run refreshed_once replayed_twice) 200 1 1 (next_token 3)
      ≡ some (d'', none))
rotates_once_example =
    rotates_once signed_in refreshed_once 100 1 1 (next_token 2) identity signed_in-IsSound
      first_rotation replayed_twice 200 (next_token 3)

locked_spent : lock_token refreshed_once 200 1 1 none ≡ some spent
unfolding lock_token find_where count_where
locked_spent = refl

still_active : active_family refreshed_once 200 5 9 ≡ true
unfolding active_family count_where
still_active = refl

replay_ends_family_example :
    (d' : Db) × (rotate refreshed_once 200 1 1 (next_token 3) ≡ some (d', none))
    × ((later : ℕ) → active_family d' later 5 9 ≡ false)
    × ((u : Token) → In u d'.tokens → u.user_id ≡ 5 → u.family_id ≡ 9 → u.revoked ≡ true)
    × ((later jti' hash' : ℕ) (next' : NewRefreshToken) (u : Token)
        → lock_token d' later jti' hash' none ≡ some u
        → u.user_id ≡ 5
        → u.family_id ≡ 9
        → rotate d' later jti' hash' next' ≡ some (d', none))
replay_ends_family_example =
    replay_ends_family refreshed_once 200 1 1 (next_token 3) spent locked_spent still_active refl
      refl

abbrev signed_out : Db
signed_out = record { accounts = account ∷ []; families = []; tokens = []; devices = [] }

signed_out-IsSound : IsSound signed_out
signed_out-IsSound = record { ids = tt; jtis = tt; one_active = tt; families = tt; backed = tt }

abbrev evening : List Op
evening = creates 9 5 (next_token 1) ∷ rotates 100 1 1 (next_token 2) ∷ []

evening-run : (run signed_out evening).tokens ≡ heir ∷ spent ∷ []
unfolding run rotate find_where create count_where exists_where update_where
evening-run = refl

run_sessions-IsSound_example : IsSound (run signed_out evening)
run_sessions-IsSound_example = run_sessions-IsSound evening signed_out signed_out-IsSound
