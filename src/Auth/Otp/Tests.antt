-- ===== src/Auth/Otp/Tests.antt =====
-- Runs of the one-time passwords on small tables.
use histae_api.Prelude.{
  ℕ, ◌∷◌, [], ◌≡◌, inl, inr, none, some, false, refl, arith, List, exists_where, update_where,
  count_where, find_where,
}
use histae_api.Auth.Otp.{Otp, State, Input, consume_otp, begin_otp_delivery, mark_otp_accepted}
use histae_api.Auth.Otp.Invariant.{IsSound}
use histae_api.Auth.Otp.History.{Op, begins, accepts, run, run_otps-IsSound, perform}
use histae_api.Auth.Otp.Redemption.{redeems_once}

abbrev input : ℕ → Input
input n = record {
  id = n;
  phone_hash = 7;
  otp_hash = n;
  idempotency_key = n;
  ttl_millis = 1000;
  settlement_millis = 100;
}

-- Two codes for one phone; the first is sent after the second.
abbrev deliveries : List Op
deliveries =
    begins 0 1 (input 1) ∷ begins 10 2 (input 2) ∷ accepts 20 2 7 50 60 ∷ accepts 30 1 7 51 61 ∷ []

empty-IsSound : IsSound []
empty-IsSound = record {
  ids = tt;
  attempts = tt;
  sent = λ r m e. absurd m;
  one_usable = λ a b m n u v phone. absurd m;
}

run_otps-IsSound_example : IsSound (run [] deliveries)
unfolding exists_where perform begin_otp_delivery
run_otps-IsSound_example =
    run_otps-IsSound deliveries [] (refl, (refl, (tt, (tt, tt)))) empty-IsSound

abbrev sent_code : Otp
sent_code = record {
  id = 2;
  phone_number_hash = 7;
  otp_hash = 2;
  expires_at = 1010;
  used = false;
  idempotency_key = 2;
  delivery_status = State.accepted;
  provider_transaction_id = some 50;
  provider_message_id = some 60;
  delivery_error_code = none;
  sent_at = some 20;
  created_at = 10;
  attempt_number = 2;
  settlement_deadline = 110;
  provider_sent_at = none;
  failed_at = none;
  last_webhook_at = none;
}

sent_code-IsSound : IsSound (sent_code ∷ [])
unfolding exists_where
sent_code-IsSound = record {
  ids = (refl, tt);
  attempts = (refl, tt);
  sent = λ r m e. elim m [ inl eq ↦ ground (arith, eq) | inr n ↦ absurd n ];
  one_usable = λ a b m n u v phone. elim m [
    | inl eq ↦ elim n [ inl eq' ↦ ground (arith, eq, eq') | inr n' ↦ absurd n' ]
    | inr m' ↦ absurd m'
  ];
}

late_callback : consume_otp (run [] deliveries) 40 7 1 ≡ (run [] deliveries, false)
unfolding consume_otp run update_where count_where mark_otp_accepted find_where begin_otp_delivery
    exists_where
late_callback = refl

redeems_once_example :
    consume_otp (consume_otp (sent_code ∷ []) 40 7 2).0 50 7 2
    ≡ ((consume_otp (sent_code ∷ []) 40 7 2).0, false)
unfolding consume_otp count_where
redeems_once_example = redeems_once (sent_code ∷ []) 40 7 2 sent_code-IsSound refl 50 2
