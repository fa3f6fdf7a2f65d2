-- ===== src/Auth/Otp/History.antt =====
-- Every transaction on the one-time passwords, as one transition system.
use histae_api.Prelude.{
  ℕ, In, exists_where, update_where, find_where, ◌&&◌, ◌||◌, leb, ◌==◌, ◌∷◌, [], ◌≡◌, inl, inr,
  none, some, false, refl, arith, Option, List, sym, subst, Bool-cases, Option-cases, if◌then◌else◌,
}
use histae_api.Auth.Otp.{
  Otp, Input, Start, SmsEvent, FailureReason, Settled, is_failed, is_pending, is_sent, is_sms_sent,
  activate, new_otp, given_up, notified, begin_otp_delivery, locked_delivery, matches_receipt,
  mark_otp_accepted, mark_otp_outcome, apply_sms_event, consume_otp, is_redeemable,
}
use histae_api.Auth.Otp.Invariant.{IsSound, consumed-IsSound, undelivered-IsSound}
use histae_api.Auth.Otp.Delivery.{
  written-IsSound, locked-In, mark_otp_accepted-IsSound, mark_otp_outcome-IsSound,
}

-- The write of an event, in its two kinds.
notified-IsSound :
    (t : List Otp) (now : ℕ) (e : SmsEvent) (row : Otp)
    → In row t
    → row.id ≡ e.delivery_id
    → IsSound t
    → IsSound (
        update_where
          (λ (r : Otp). r.id == e.delivery_id)
          (notified now e)
          (if is_sms_sent e.type then activate t now row else t))
notified-IsSound t now e row here same h = elim (Bool-cases (is_sms_sent e.type)) [
  | inl sent ↦
      let this : (if is_sms_sent e.type then activate t now row else t) ≡ activate t now row =
        rw sent refl in
      subst (λ l. IsSound (update_where (λ (r : Otp). r.id == e.delivery_id) (notified now e) l))
        (sym this)
        (subst
          (λ x.
            IsSound (update_where (λ (r : Otp). r.id == x) (notified now e) (activate t now row)))
          same
          (written-IsSound t now row h here (notified now e) (λ r. (refl, refl, refl, refl))
            (λ r. rw sent refl)))
  | inr lost ↦
      let this : (if is_sms_sent e.type then activate t now row else t) ≡ t = rw lost refl in
      subst (λ l. IsSound (update_where (λ (r : Otp). r.id == e.delivery_id) (notified now e) l))
        (sym this)
        (undelivered-IsSound (λ (r : Otp). r.id == e.delivery_id) (notified now e) t h
          (λ r. (refl, refl)) (λ r. rw lost refl))
]

apply_sms_event-IsSound :
    (t : List Otp) (now : ℕ) (e : SmsEvent) → IsSound t → IsSound (apply_sms_event t now e).0
unfolding apply_sms_event
apply_sms_event-IsSound t now e h =
    elim (Option-cases (find_where (λ (r : Otp). r.id == e.delivery_id) t)) [
      | inl gone ↦ rw (gone, apply_sms_event) h
      | inr (identity, i) ↦
          elim (Option-cases (locked_delivery t e.delivery_id identity.phone_number_hash)) [
            | inl gone ↦ rw (i, apply_sms_event) (rw gone h)
            | inr (row, l) ↦
                let (here, same) = locked-In t e.delivery_id identity.phone_number_hash row l in
                elim (Bool-cases (matches_receipt row e.message_id e.transaction_id)) [
                  | inr other ↦ rw (i, apply_sms_event) (rw l (rw other h))
                  | inl fits ↦
                      elim (Bool-cases (
                        is_failed row.delivery_status
                        || is_sent row.delivery_status && is_sms_sent e.type)) [
                          | inl over ↦ rw (i, apply_sms_event) (rw l (rw fits (rw over h)))
                          | inr may ↦
                              rw (i, apply_sms_event)
                                (rw l (rw fits (rw may (notified-IsSound t now e row here same h))))
                        ]
                ]
          ]
    ]

inserted-IsSound :
    (t : List Otp) (now attempt : ℕ) (i : Input)
    → exists_where (λ (r : Otp). r.id == i.id) t ≡ false
    → exists_where (λ (r : Otp). r.attempt_number == attempt) t ≡ false
    → IsSound t
    → IsSound (new_otp now attempt i ∷ t)
unfolding new_otp
inserted-IsSound t now attempt i new fresh h = record {
  ids = (new, h.ids);
  attempts = (fresh, h.attempts);
  sent = λ r m e. elim m [ inl eq ↦ absurd (ground (arith, eq)) | inr n ↦ h.sent r n e ];
  one_usable = λ a b m n u v phone. elim m [
    | inl eq ↦ absurd (ground (arith, eq))
    | inr m' ↦ elim n [
      | inl eq ↦ absurd (ground (arith, eq))
      | inr n' ↦ h.one_usable a b m' n' u v phone
    ]
  ];
}

begin_otp_delivery-IsSound :
    (t t' : List Otp) (now attempt : ℕ) (i : Input) (start : Start)
    → begin_otp_delivery t now attempt i ≡ some (t', start)
    → exists_where (λ (r : Otp). r.attempt_number == attempt) t ≡ false
    → IsSound t
    → IsSound t'
unfolding begin_otp_delivery
begin_otp_delivery-IsSound t t' now attempt i start e fresh h =
    elim (Bool-cases (exists_where (λ (r : Otp). r.idempotency_key == i.idempotency_key) t)) [
      | inr new ↦ elim (Bool-cases (exists_where (λ (r : Otp). r.id == i.id) t)) [
        | inl taken ↦ absurd (ground (arith, new, taken))
        | inr free ↦
            subst IsSound (ground (arith, new, free))
              (inserted-IsSound t now attempt i free fresh h)
      ]
      | inl old ↦
          let p = λ (r : Otp).
            r.idempotency_key == i.idempotency_key
            && r.phone_number_hash == i.phone_hash
            && is_pending r.delivery_status
            && leb r.settlement_deadline now in
          elim (Option-cases (
            find_where (λ (r : Otp). r.idempotency_key == i.idempotency_key)
              (update_where p given_up t))) [
                | inl gone ↦ absurd (ground (arith, old, gone))
                | inr (r, found) ↦
                    subst IsSound (ground (arith, old, found))
                      (undelivered-IsSound p given_up t h (λ r. (refl, refl)) (λ r. refl))
              ]
    ]

pub data Op : Type 0 where
  begins : (now attempt : ℕ) → Input → Op
  accepts : (now id phone transaction message : ℕ) → Op
  settles : (now id phone : ℕ) → Settled → FailureReason → Op
  notifies : (now : ℕ) → SmsEvent → Op
  consumes : (now phone otp_hash : ℕ) → Op

-- A transaction that fails changes nothing.
abbrev table_of : List Otp → Option (List Otp × Start) → List Otp
table_of t none = t
table_of t (some (t', start)) = t'

unfoldable pub perform : List Otp → Op → List Otp
perform t (begins now attempt i) = table_of t (begin_otp_delivery t now attempt i)
perform t (accepts now id phone transaction message) =
    (mark_otp_accepted t now id phone transaction message).0
perform t (settles now id phone s reason) = (mark_otp_outcome t now id phone s reason).0
perform t (notifies now e) = (apply_sms_event t now e).0
perform t (consumes now phone otp_hash) = (consume_otp t now phone otp_hash).0

-- The identity column gives a number that no row has.
abbrev pub Allowed : List Otp → Op → Type 0
Allowed t (begins now attempt i) = exists_where (λ (r : Otp). r.attempt_number == attempt) t ≡ false
Allowed t _ = Unit

unfoldable pub run : List Otp → List Op → List Otp
unfolding perform
run t [] = t
run t (op ∷ ops) = run (perform t op) ops

abbrev pub AllowedRun : List Otp → List Op → Type 0
AllowedRun t [] = Unit
AllowedRun t (op ∷ ops) = Allowed t op × AllowedRun (perform t op) ops

table_of-IsSound :
    (t : List Otp) (r : Option (List Otp × Start))
    → ((t' : List Otp) (start : Start) → r ≡ some (t', start) → IsSound t')
    → IsSound t
    → IsSound (table_of t r)
table_of-IsSound t none keep h = h
table_of-IsSound t (some (t', start)) keep h = keep t' start refl

consume_otp-IsSound :
    (t : List Otp) (now phone otp_hash : ℕ)
    → IsSound t
    → IsSound (consume_otp t now phone otp_hash).0
unfolding consume_otp
consume_otp-IsSound t now phone otp_hash h = consumed-IsSound (is_redeemable now phone otp_hash) t h

perform-IsSound : (t : List Otp) (op : Op) → Allowed t op → IsSound t → IsSound (perform t op)
unfolding perform
perform-IsSound t (begins now attempt i) ok h =
    table_of-IsSound t (begin_otp_delivery t now attempt i)
      (λ t' start e. begin_otp_delivery-IsSound t t' now attempt i start e ok h) h
perform-IsSound t (accepts now id phone transaction message) ok h =
    mark_otp_accepted-IsSound t now id phone transaction message h
perform-IsSound t (settles now id phone s reason) ok h =
    mark_otp_outcome-IsSound t now id phone s reason h
perform-IsSound t (notifies now e) ok h = apply_sms_event-IsSound t now e h
perform-IsSound t (consumes now phone otp_hash) ok h = consume_otp-IsSound t now phone otp_hash h

-- Any history of deliveries, receipts, callbacks and redemptions keeps the table sound: of each
-- phone one code at most may be redeemed, a delivered code has its instant of sending, and no id and
-- no attempt number occurs twice.
pub run_otps-IsSound :
    (ops : List Op) (t : List Otp) → AllowedRun t ops → IsSound t → IsSound (run t ops)
unfolding run
run_otps-IsSound [] t ok h = h
run_otps-IsSound (op ∷ ops) t ok h =
    run_otps-IsSound ops (perform t op) ok.1 (perform-IsSound t op ok.0 h)
