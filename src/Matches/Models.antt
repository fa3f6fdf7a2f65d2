-- ===== src/Matches/Models.antt =====
-- src/matches/matches.models.ts and the tables that the repositories of src/matches read and write
-- (db/schema_postgres.sql). Instants are milliseconds; ids are numbers, in the order of the uuids.
use histae_api.Prelude.{
  ℕ, ◌*◌, Bool, true, false, ◌&&◌, ◌||◌, List, Option, ◌==◌, exists_where, String,
}

pub data Status : Type 0 where
  awaiting_continuation active confirmed expired ended : Status

pub record Match : Type 0 where
  pub id : ℕ
  pub user1_id : ℕ
  pub user2_id : ℕ
  pub status : Status
  pub expires_at : ℕ
  pub purge_after : Option ℕ
  pub continuation_initiator_id : Option ℕ
  pub created_at : ℕ
  pub last_message_at : Option ℕ

pub record MatchState : Type 0 where
  pub match_id : ℕ
  pub user_id : ℕ
  pub revealed : Bool
  pub continued : Bool

-- `user_account`, as far as these queries read it.
pub record Account : Type 0 where
  pub user_id : ℕ
  pub deleted : Bool
  pub is_banned : Bool

pub record Block : Type 0 where
  pub blocker_id : ℕ
  pub blocked_id : ℕ

-- `continuation_usage`
pub record Usage : Type 0 where
  pub user_id : ℕ
  pub week_start : ℕ
  pub used_count : ℕ

pub data SubscriptionStatus : Type 0 where
  incomplete incomplete_expired trialing active past_due canceled unpaid paused : SubscriptionStatus

-- `user_subscription` and `subscription_plan`; plans are named by their code.
pub record Subscription : Type 0 where
  pub user_id : ℕ
  pub plan : String
  pub has_provider : Bool
  pub status : Option SubscriptionStatus
  pub current_period_ends_at : Option ℕ

pub record Plan : Type 0 where
  pub code : String
  pub weekly_continuation_limit : Option ℕ

pub record Db : Type 0 where
  pub accounts : List Account
  pub blocks : List Block
  pub matches : List Match
  pub states : List MatchState
  pub usage : List Usage
  pub subscriptions : List Subscription
  pub plans : List Plan

pub data AvailabilityFailure : Type 0 where
  not_found invalid_state expired : AvailabilityFailure

-- `MatchCommandResult<T>`
pub data CommandResult {ℓ} (A : Type ℓ) : Type ℓ where
  ok : A → CommandResult A
  refused : AvailabilityFailure → CommandResult A

abbrev hour : ℕ
hour = 60 * 60 * 1000

-- `MATCH_WINDOW_MS`, and INTERVAL '24 hours' in the statements.
abbrev pub match_window_ms : ℕ
match_window_ms = 24 * hour

-- src/matches/matches.constants.ts
abbrev pub match_purge_ms : ℕ
match_purge_ms = 30 * 24 * 60 * 60 * 1000

abbrev pub is_active : Status → Bool
is_active Status.active = true
is_active _ = false

abbrev pub is_awaiting : Status → Bool
is_awaiting Status.awaiting_continuation = true
is_awaiting _ = false

abbrev pub is_confirmed : Status → Bool
is_confirmed Status.confirmed = true
is_confirmed _ = false

-- `(user1_id = $2 OR user2_id = $2)`
abbrev pub is_participant : ℕ → Match → Bool
is_participant user m = m.user1_id == user || m.user2_id == user

-- `EXISTS (SELECT 1 FROM user_account WHERE user_id IN (…) AND deleted_at IS NOT NULL)`
unfoldable pub is_orphaned : List Account → Match → Bool
is_orphaned accounts m =
    exists_where (λ a. (a.user_id == m.user1_id || a.user_id == m.user2_id) && a.deleted) accounts
