-- ===== src/Auth/Otp.antt =====
-- src/auth/otp.repository.ts: the deliveries of one-time passwords. Each method is one transaction,
-- which takes the advisory lock of the phone first. Hashes and the provider's ids are numbers,
-- compared for equality; a transaction reads its clock as the argument `now`. The column `provider`
-- is left out: no statement writes it, so it is 'sweego' in every row.
pub mod Invariant
pub mod Delivery
pub mod History
pub mod Redemption
mod Tests
use histae_api.Prelude.{
  ℕ, is_set, coalesce, ◌==◌, ◌&&◌, ◌||◌, ◌∷◌, ◌+◌, none, some, true, false, Option, List, Bool, not,
  ltb, leb, if◌then◌else◌, find_where, update_where, exists_where, count_where,
}

-- `OtpDeliveryState`
pub data State : Type 0 where
  pending accepted sent failed unknown : State

-- `SmsFailureReason`
pub data FailureReason : Type 0 where
  not_configured provider_rejected provider_unavailable provider_network_error : FailureReason
  provider_invalid_response delivery_unknown provider_undelivered : FailureReason

-- `otp_verification`
pub record Otp : Type 0 where
  pub id : ℕ
  pub phone_number_hash : ℕ
  pub otp_hash : ℕ
  pub expires_at : ℕ
  pub used : Bool
  pub idempotency_key : ℕ
  pub delivery_status : State
  pub provider_transaction_id : Option ℕ
  pub provider_message_id : Option ℕ
  pub delivery_error_code : Option FailureReason
  pub sent_at : Option ℕ
  pub created_at : ℕ
  pub attempt_number : ℕ
  pub settlement_deadline : ℕ
  pub provider_sent_at : Option ℕ
  pub failed_at : Option ℕ
  pub last_webhook_at : Option ℕ

-- `BeginOtpDeliveryInput`
pub record Input : Type 0 where
  pub id : ℕ
  pub phone_hash : ℕ
  pub otp_hash : ℕ
  pub idempotency_key : ℕ
  pub ttl_millis : ℕ
  pub settlement_millis : ℕ

-- `OtpDeliveryStart`
pub data Start : Type 0 where
  created : (id : ℕ) → Start
  known : State → (id : ℕ) → Start
  conflict : Start

pub data EventType : Type 0 where
  sms_sent sms_undelivered : EventType

-- `SmsDeliveryEvent`
pub record SmsEvent : Type 0 where
  pub delivery_id : ℕ
  pub message_id : ℕ
  pub transaction_id : Option ℕ
  pub type : EventType

pub data Applied : Type 0 where
  applied ignored conflicting : Applied

abbrev pub is_pending : State → Bool
is_pending State.pending = true
is_pending _ = false

abbrev is_unknown : State → Bool
is_unknown State.unknown = true
is_unknown _ = false

abbrev is_failed : State → Bool
is_failed State.failed = true
is_failed _ = false

abbrev is_sent : State → Bool
is_sent State.sent = true
is_sent _ = false

-- `delivery_status IN ('accepted', 'sent')`
abbrev is_delivered : State → Bool
is_delivered State.accepted = true
is_delivered State.sent = true
is_delivered _ = false

new_otp : ℕ → ℕ → Input → Otp
new_otp now attempt i = record {
  id = i.id;
  phone_number_hash = i.phone_hash;
  otp_hash = i.otp_hash;
  expires_at = now + i.ttl_millis;
  used = false;
  idempotency_key = i.idempotency_key;
  delivery_status = State.pending;
  provider_transaction_id = none;
  provider_message_id = none;
  delivery_error_code = none;
  sent_at = none;
  created_at = now;
  attempt_number = attempt;
  settlement_deadline = now + i.settlement_millis;
  provider_sent_at = none;
  failed_at = none;
  last_webhook_at = none;
}

abbrev given_up : Otp → Otp
given_up r = record r {
  delivery_status = State.unknown;
  delivery_error_code = some delivery_unknown;
}

-- `beginOtpDelivery`; `attempt` is the next value of the identity column. `none` is a failure: an id
-- that is taken, or the row of the key that is gone.
pub begin_otp_delivery : List Otp → ℕ → ℕ → Input → Option (List Otp × Start)
unfolding new_otp
begin_otp_delivery t now attempt i =
    if not (exists_where (λ (r : Otp). r.idempotency_key == i.idempotency_key) t)
    then (if exists_where (λ (r : Otp). r.id == i.id) t
        then none
        else some (new_otp now attempt i ∷ t, created i.id))
    else (let t' =
          update_where
            (λ (r : Otp).
              r.idempotency_key == i.idempotency_key
              && r.phone_number_hash == i.phone_hash
              && is_pending r.delivery_status
              && leb r.settlement_deadline now)
            given_up t in
        elim (find_where (λ (r : Otp). r.idempotency_key == i.idempotency_key) t') [
          | none ↦ none
          | some r ↦ some (
            t',
            if not (r.phone_number_hash == i.phone_hash)
                then conflict
                else known r.delivery_status r.id,
          )
        ])

pub locked_delivery : List Otp → ℕ → ℕ → Option Otp
locked_delivery t id phone = find_where (λ (r : Otp). r.id == id && r.phone_number_hash == phone) t

abbrev unset_or : Option ℕ → ℕ → Bool
unset_or none x = true
unset_or (some y) x = y == x

abbrev unset_or_either : Option ℕ → Option ℕ → Bool
unset_or_either none x = true
unset_or_either (some y) none = true
unset_or_either (some y) (some x) = y == x

matches_receipt : Otp → ℕ → Option ℕ → Bool
matches_receipt r message transaction =
    unset_or r.provider_message_id message && unset_or_either r.provider_transaction_id transaction

abbrev consumed : Otp → Otp
consumed r = record r { used = true }

-- The two statements of `activate`: the attempt itself, if it has expired or a later one was sent,
-- then the earlier attempts, if the attempt stands.
pub is_superseded : ℕ → Otp → List Otp → Otp → Bool
is_superseded now row t r =
    r.id == row.id
    && (leb r.expires_at now
        || exists_where
            (λ (q : Otp).
              q.phone_number_hash == row.phone_number_hash
              && ltb row.attempt_number q.attempt_number
              && is_set q.sent_at)
            t)

is_ancestor : Otp → List Otp → Otp → Bool
is_ancestor row t r =
    r.phone_number_hash == row.phone_number_hash
    && ltb r.attempt_number row.attempt_number
    && not r.used
    && exists_where (λ (q : Otp). q.id == row.id && not q.used) t

pub activate : List Otp → ℕ → Otp → List Otp
unfolding is_superseded is_ancestor
activate t now row =
    let t' = update_where (is_superseded now row t) consumed t in
    if row.used then t else update_where (is_ancestor row t') consumed t'

abbrev accepted_receipt : ℕ → ℕ → ℕ → Otp → Otp
accepted_receipt now transaction message r = record r {
  delivery_status = (if is_sent r.delivery_status then State.sent else State.accepted);
  provider_transaction_id = some transaction;
  provider_message_id = some message;
  sent_at = some (coalesce r.sent_at now);
  delivery_error_code = none;
}

pub mark_otp_accepted : List Otp → ℕ → ℕ → ℕ → ℕ → ℕ → List Otp × Bool
unfolding locked_delivery matches_receipt activate
mark_otp_accepted t now id phone transaction message = elim (locked_delivery t id phone) [
  | none ↦ (t, false)
  | some row ↦
      if not (matches_receipt row message (some transaction))
      then (t, false)
      else if is_failed row.delivery_status
      then (t, false)
      else (
        update_where (λ (r : Otp). r.id == id) (accepted_receipt now transaction message)
            (activate t now row),
        elim (find_where (λ (r : Otp). r.id == id) (activate t now row)) [
          | none ↦ false
          | some r ↦ ltb now r.expires_at
        ],
      )
]

pub data Settled : Type 0 where
  to_unknown to_failed : Settled

abbrev settled_state : Settled → State
settled_state to_unknown = State.unknown
settled_state to_failed = State.failed

abbrev pub settled : ℕ → Settled → FailureReason → Otp → Otp
settled now s reason r = record r {
  delivery_status = settled_state s;
  delivery_error_code = some reason;
  failed_at =
      (if is_failed (settled_state s) then some (coalesce r.failed_at now) else r.failed_at);
}

pub mark_otp_outcome : List Otp → ℕ → ℕ → ℕ → Settled → FailureReason → List Otp × State
unfolding locked_delivery
mark_otp_outcome t now id phone s reason = elim (locked_delivery t id phone) [
  | none ↦ (t, settled_state s)
  | some row ↦
      if not (is_pending row.delivery_status) && not (is_unknown row.delivery_status)
      then (t, row.delivery_status)
      else (update_where (λ (r : Otp). r.id == id) (settled now s reason) t, settled_state s)
]

abbrev is_sms_sent : EventType → Bool
is_sms_sent sms_sent = true
is_sms_sent sms_undelivered = false

abbrev notified : ℕ → SmsEvent → Otp → Otp
notified now e r =
    let sent = is_sms_sent e.type in
    record r {
      delivery_status = (if sent then State.sent else State.failed);
      provider_message_id = some e.message_id;
      provider_transaction_id =
          (if is_set r.provider_transaction_id
            then r.provider_transaction_id
            else e.transaction_id);
      sent_at = (if sent then some (coalesce r.sent_at now) else r.sent_at);
      provider_sent_at =
          (if sent then some (coalesce r.provider_sent_at now) else r.provider_sent_at);
      failed_at = (if sent then r.failed_at else some (coalesce r.failed_at now));
      delivery_error_code = (if sent then none else some provider_undelivered);
      last_webhook_at = some now;
    }

pub apply_sms_event : List Otp → ℕ → SmsEvent → List Otp × Applied
unfolding locked_delivery matches_receipt activate
apply_sms_event t now e = elim (find_where (λ (r : Otp). r.id == e.delivery_id) t) [
  | none ↦ (t, ignored)
  | some identity ↦ elim (locked_delivery t e.delivery_id identity.phone_number_hash) [
    | none ↦ (t, ignored)
    | some row ↦
        if not (matches_receipt row e.message_id e.transaction_id)
        then (t, conflicting)
        else if is_failed row.delivery_status || is_sent row.delivery_status && is_sms_sent e.type
        then (t, ignored)
        else (
          update_where (λ (r : Otp). r.id == e.delivery_id) (notified now e)
              (if is_sms_sent e.type then activate t now row else t),
          applied,
        )
  ]
]

is_redeemable : ℕ → ℕ → ℕ → Otp → Bool
is_redeemable now phone otp_hash r =
    r.phone_number_hash == phone
    && r.otp_hash == otp_hash
    && is_delivered r.delivery_status
    && not r.used
    && ltb now r.expires_at

pub consume_otp : List Otp → ℕ → ℕ → ℕ → List Otp × Bool
unfolding is_redeemable
consume_otp t now phone otp_hash = (
  update_where (is_redeemable now phone otp_hash) consumed t,
  count_where (is_redeemable now phone otp_hash) t == 1,
)
