-- ===== src/Matches/Tests.antt =====
-- Runs of the match commands on small databases.

use histae_api.Prelude.{
  ◌∷◌, [], ◌+◌, ◌<◌, ◌≡◌, ◌⊎◌, inl, none, some, true, false, refl, arith, Bool, ℕ, exists_where,
  find_where, count_where, ◌≤◌, ◌==◌, update_where, sym, ap, In, inr,
}
use histae_api.Matches.Models.{
  Match, MatchState, Account, Usage, Db, Status, refused, AvailabilityFailure, is_orphaned, ok,
  invalid_state,
}
use histae_api.Matches.Plans.{EffectivePlan, effective_plan}
use histae_api.Matches.Access.{lock_messaging_match}
use histae_api.Matches.Access.Rows.{IsOpenTo, lock_messaging_match_lem}
use histae_api.Matches.Consent.{answered, quota_reached}
use histae_api.Matches.Consent.Charging.{IsCharged, record_continuation_consent-IsCharged, outcome}
use histae_api.Matches.Consent.Second.{HasQuota, LacksQuota, IsConfirmation, second_consent_lem}

-- Thursday 1970-01-15, at noon.
abbrev noon : ℕ
noon = 1252800000

abbrev monday : ℕ
monday = 950400000

abbrev open_match : Match
open_match = record {
  id = 1;
  user1_id = 10;
  user2_id = 20;
  status = Status.awaiting_continuation;
  expires_at = noon + 1000;
  purge_after = none;
  continuation_initiator_id = some 10;
  created_at = 0;
  last_message_at = none;
}

abbrev state : ℕ → Bool → MatchState
state user continued = record {
  match_id = 1;
  user_id = user;
  revealed = false;
  continued = continued;
}

abbrev account : ℕ → Account
account user = record { user_id = user; deleted = false; is_banned = false }

abbrev spent_once : Usage
spent_once = record { user_id = 10; week_start = monday; used_count = 1 }

abbrev db : Db
db = record {
  accounts = account 10 ∷ account 20 ∷ [];
  blocks = [];
  matches = open_match ∷ [];
  states = state 10 true ∷ state 20 false ∷ [];
  usage = spent_once ∷ [];
  subscriptions = [];
  plans = record { code = "free"; weekly_continuation_limit = some 2 } ∷ [];
}

both_here : IsOpenTo 20 db.accounts open_match
both_here = record { part = inr refl; alive = λ a m h. shown a m }
  where
    shown : (a : Account) → In a db.accounts → a.deleted ≡ false
    shown a (inl e) = ap (λ x. x.deleted) (sym e)
    shown a (inr (inl e)) = ap (λ x. x.deleted) (sym e)
    shown a (inr (inr m)) = absurd m

-- At noon the window is open, and a second later it has run out.
lock_messaging_match_lem_example :
    (open_match.status ≡ Status.active
      → open_match.expires_at ≤ noon + 1000
      → lock_messaging_match db 1 20 (noon + 1000) ≡ (
        record db {
          matches =
              update_where
                (λ r. r.id == 1)
                (λ r. record r {
                  status = Status.awaiting_continuation;
                  expires_at = noon + 1000 + 86400000;
                })
                db.matches;
        },
        ok (record open_match { expires_at = noon + 1000 + 86400000 }),
      ))
    × (open_match.status ≡ Status.awaiting_continuation
        → open_match.expires_at ≤ noon + 1000
        → lock_messaging_match db 1 20 (noon + 1000) ≡ (
          record db {
            matches =
                update_where
                  (λ r. r.id == 1)
                  (λ r. record r {
                    status = Status.expired;
                    purge_after = some (noon + 1000 + 2592000000);
                  })
                  db.matches;
          },
          refused AvailabilityFailure.expired,
        ))
    × ((open_match.status ≡ Status.active) ⊎ (open_match.status ≡ Status.awaiting_continuation)
        → noon + 1000 < open_match.expires_at
        → lock_messaging_match db 1 20 (noon + 1000) ≡ (db, ok open_match))
    × (open_match.status ≡ Status.confirmed
        → lock_messaging_match db 1 20 (noon + 1000) ≡ (db, ok open_match))
    × ((open_match.status ≡ Status.expired) ⊎ (open_match.status ≡ Status.ended)
        → lock_messaging_match db 1 20 (noon + 1000) ≡ (db, refused invalid_state))
unfolding exists_where
lock_messaging_match_lem_example =
    lock_messaging_match_lem db 1 20 (noon + 1000) open_match (refl, tt) (inl refl) refl both_here

record_continuation_consent-IsCharged_example : IsCharged db noon (outcome db 1 20 noon).0.usage
unfolding exists_where
record_continuation_consent-IsCharged_example =
    record_continuation_consent-IsCharged db 1 20 noon (refl, tt)

abbrev free_plan : EffectivePlan
free_plan = record { plan = "free"; weekly_limit = some 2 }

in_window : noon < open_match.expires_at
in_window = omega arith

second_consent_lem_example :
    (HasQuota db 10 free_plan noon → IsConfirmation open_match (outcome db 1 20 noon))
    × (LacksQuota db 10 free_plan noon → outcome db 1 20 noon ≡ (db, answered quota_reached))
unfolding exists_where is_orphaned find_where count_where effective_plan
second_consent_lem_example =
    second_consent_lem db open_match 20 noon 10 (state 20 false) free_plan
      ((refl, tt), (refl, (refl, tt)), inl refl, refl, in_window, refl, refl, refl, refl) refl refl
      refl (refl, tt)
