-- ===== src/Auth/Sessions/History.antt =====
-- Every transaction on the sessions, as one transition system: any number of clients, whose
-- transactions lock the account first and so run one after the other.
use histae_api.Prelude.{ℕ, ◌∷◌, [], ◌≡◌, none, some, refl, Option, List}
use histae_api.Auth.Sessions.{
  Db, NewRefreshToken, MobileSessionIdentity, rotate, create, RevocationReason, revoke, logout,
  revoke_families,
}
use histae_api.Auth.Sessions.Invariant.{IsSound, revoke_families-IsSound}
use histae_api.Auth.Sessions.Creation.{create-IsSound}
use histae_api.Auth.Sessions.Refreshing.{rotate-IsSound}
use histae_api.Auth.Sessions.Revocation.{logout-IsSound, revoke-IsSound}

pub data Op : Type 0 where
  creates : (fresh user : ℕ) → NewRefreshToken → Op
  rotates : (now jti hash : ℕ) → NewRefreshToken → Op
  logs_out : (now user session jti hash : ℕ) → Option ℕ → Op
  revokes : (now user current : ℕ) → Option ℕ → Op
  revokes_all : (now user : ℕ) → RevocationReason → Op

-- A transaction that a constraint refuses changes nothing.
abbrev pub db_of : Db → Option (Db × Option MobileSessionIdentity) → Db
db_of d none = d
db_of d (some (d', who)) = d'

unfoldable pub perform : Db → Op → Db
perform d (creates fresh user n) = db_of d (create d fresh user n)
perform d (rotates now jti hash next) = db_of d (rotate d now jti hash next)
perform d (logs_out now user session jti hash device) =
    (logout d now user session jti hash device).0
perform d (revokes now user current target) = (revoke d now user current target).0
perform d (revokes_all now user reason) = (revoke_families d now user reason none).0

unfoldable pub run : Db → List Op → Db
unfolding perform
run d [] = d
run d (op ∷ ops) = run (perform d op) ops

db_of-IsSound :
    (d : Db) (r : Option (Db × Option MobileSessionIdentity))
    → ((d' : Db) (who : Option MobileSessionIdentity) → r ≡ some (d', who) → IsSound d')
    → IsSound d
    → IsSound (db_of d r)
db_of-IsSound d none keep h = h
db_of-IsSound d (some (d', who)) keep h = keep d' who refl

pub perform-IsSound : (d : Db) (op : Op) → IsSound d → IsSound (perform d op)
unfolding perform
perform-IsSound d (creates fresh user n) h =
    db_of-IsSound d (create d fresh user n) (λ d' who e. create-IsSound d d' fresh user n who e h) h
perform-IsSound d (rotates now jti hash next) h =
    db_of-IsSound d (rotate d now jti hash next)
      (λ d' who e. rotate-IsSound d d' now jti hash next who e h) h
perform-IsSound d (logs_out now user session jti hash device) h =
    logout-IsSound d now user session jti hash device h
perform-IsSound d (revokes now user current target) h = revoke-IsSound d now user current target h
perform-IsSound d (revokes_all now user reason) h = revoke_families-IsSound d now user reason none h

-- Any history of creations, rotations, logouts and revocations keeps the tables sound: no id, no
-- jti and no family id occurs twice, a family has one unrevoked token at most, every unrevoked
-- token has an unrevoked family of its owner, and a rotated token is revoked.
pub run_sessions-IsSound : (ops : List Op) (d : Db) → IsSound d → IsSound (run d ops)
unfolding run
run_sessions-IsSound [] d h = h
run_sessions-IsSound (op ∷ ops) d h =
    run_sessions-IsSound ops (perform d op) (perform-IsSound d op h)
