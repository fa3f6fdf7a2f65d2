-- ===== src/Outbox/Models.antt =====
-- src/outbox/outbox.models.ts and the table `outbox_event` of db/schema_postgres.sql.
-- Identifiers are numbers, compared for equality and order alone; instants are milliseconds since
-- the epoch. The payload is left out: no code of the outbox reads it.
use histae_api.Prelude.{ℕ, String, Bool, true, false, List, Option, ◌==◌, ◌&&◌}

pub data EventType : Type 0 where
  photo_delete notification_push account_erase : EventType
  billing_subscription_reconcile billing_customer_reconcile : EventType

pub data Status : Type 0 where
  pending processing completed dead_letter discarded : Status

Status-discrete : Discrete Status
Status-discrete = hlevel

-- One row. A nullable column is an `Option`.
pub record Event : Type 0 where
  pub id : ℕ
  pub event_type : EventType
  pub aggregate_id : ℕ
  pub status : Status
  pub attempts : ℕ
  pub available_at : ℕ
  pub locked_at : Option ℕ
  pub locked_by : Option ℕ
  pub last_error_code : Option String
  pub created_at : ℕ
  pub processed_at : Option ℕ
  pub dead_lettered_at : Option ℕ
  pub resolved_at : Option ℕ
  pub resolved_by : Option ℕ
  -- the code points of the text
  pub resolution_reason : Option (List ℕ)

pub record NewEvent : Type 0 where
  pub event_type : EventType
  pub aggregate_id : ℕ

pub data RetryResult : Type 0 where
  pending dead_letter not_owned : RetryResult

pub data Role : Type 0 where
  admin superadmin : Role

pub record Operator : Type 0 where
  pub user_id : ℕ
  pub role : Role

pub data OperatorResult : Type 0 where
  updated not_found not_dead_letter discard_not_allowed : OperatorResult

pub data Action : Type 0 where
  retry discard : Action

-- One row of `outbox_operator_action`.
pub record OperatorAction : Type 0 where
  pub outbox_event_id : ℕ
  pub operator : Operator
  pub event_type : EventType
  pub action : Action
  pub reason : List ℕ

abbrev pub is_pending : Status → Bool
is_pending Status.pending = true
is_pending _ = false

abbrev pub is_processing : Status → Bool
is_processing Status.processing = true
is_processing _ = false

abbrev pub is_completed : Status → Bool
is_completed Status.completed = true
is_completed _ = false

abbrev pub is_dead_letter : Status → Bool
is_dead_letter Status.dead_letter = true
is_dead_letter _ = false

abbrev pub is_discarded : Status → Bool
is_discarded Status.discarded = true
is_discarded _ = false

abbrev pub same_type : EventType → EventType → Bool
same_type photo_delete photo_delete = true
same_type notification_push notification_push = true
same_type account_erase account_erase = true
same_type billing_subscription_reconcile billing_subscription_reconcile = true
same_type billing_customer_reconcile billing_customer_reconcile = true
same_type _ _ = false

-- The columns of the constraint UNIQUE (event_type, aggregate_id).
abbrev pub same_key : NewEvent → Event → Bool
same_key n e = same_type e.event_type n.event_type && e.aggregate_id == n.aggregate_id
