-- ===== src/Auth/Otp/Delivery.antt =====
-- Each transaction on the one-time passwords keeps the table sound.
use histae_api.Prelude.{
  ℕ, In, In-update_where_inv, In-unique, Distinct-update_where, same_id, is_set, update_where,
  find_where-some, not, ◌&&◌, ◌∙◌, ◌==◌, ◌≡◌, inl, inr, some, true, false, refl, arith, List, Bool,
  sym, ap, subst, Bool-cases, Option-cases,
}
use histae_api.Auth.Otp.{
  Otp, FailureReason, Settled, is_delivered, is_failed, is_pending, is_unknown, activate,
  accepted_receipt, settled, locked_delivery, matches_receipt, mark_otp_accepted, mark_otp_outcome,
  to_unknown, to_failed, settled_state,
}
use histae_api.Auth.Otp.Invariant.{
  IsSound, is_usable, undelivered-IsSound, activate-IsSound, activate-old, activate-alone,
}

-- The update that follows an activation: it writes the row of the attempt, and says when it was sent.
module _ (t : List Otp) (now : ℕ) (row : Otp) (h : IsSound t) (here : In row t) (f : Otp → Otp)
    (same : (r : Otp)
      → ((f r).id ≡ r.id)
        × ((f r).attempt_number ≡ r.attempt_number)
        × ((f r).phone_number_hash ≡ r.phone_number_hash)
        × ((f r).used ≡ r.used))
    (stamped : (r : Otp) → is_set (f r).sent_at ≡ true) where
  abbrev active : List Otp
  active = activate t now row

  abbrev is_row : Otp → Bool
  is_row r = r.id == row.id

  active-IsSound : IsSound active
  active-IsSound = activate-IsSound t now row h here

  -- A row that was not written, beside the row that was.
  beside :
      (a r : Otp)
      → In a active
      → is_row a ≡ false
      → In r active
      → is_row r ≡ true
      → is_usable a ≡ true
      → is_usable (f r) ≡ true
      → a.phone_number_hash ≡ (f r).phone_number_hash
      → a.id ≡ (f r).id
  beside a r m miss n hit u v phone =
      let (q, q_in, q_id, q_phone, q_same) = activate-old t now row h here r n in
      let q_row = In-unique (λ (x : Otp). x.id) q row t h.ids q_in here (ground arith) in
      let r_phone : r.phone_number_hash ≡ row.phone_number_hash = cc in
      let clash =
        activate-alone t now row h here r a n m (ground arith) (ground (arith, same r))
          (ground (arith, same r)) u in
      absurd (ground arith)

  written-one :
      (a b : Otp)
      → In a (update_where is_row f active)
      → In b (update_where is_row f active)
      → is_usable a ≡ true
      → is_usable b ≡ true
      → a.phone_number_hash ≡ b.phone_number_hash
      → a.id ≡ b.id
  written-one a b m n u v phone = elim (In-update_where_inv a is_row f active m) [
    | inl (m', miss) ↦ elim (In-update_where_inv b is_row f active n) [
      | inl (n', _) ↦ active-IsSound.one_usable a b m' n' u v phone
      | inr (r, n', hit, eq) ↦
          beside a r m' miss n' hit u (subst (λ x. is_usable x ≡ true) eq v)
            (phone ∙ ap (λ x. x.phone_number_hash) eq)
          ∙ sym (ap (λ x. x.id) eq)
    ]
    | inr (r, m', hit, eq) ↦ elim (In-update_where_inv b is_row f active n) [
      | inl (n', miss) ↦
          ap (λ x. x.id) eq
          ∙ sym (
              beside b r n' miss m' hit v (subst (λ x. is_usable x ≡ true) eq u)
                (sym phone ∙ ap (λ x. x.phone_number_hash) eq))
      | inr (s, n', hit', eq') ↦ ground (arith, eq, eq', same r, same s)
    ]
  ]

  pub written-IsSound : IsSound (update_where is_row f active)
  written-IsSound = record {
    ids =
        Distinct-update_where (same_id (λ (r : Otp). r.id)) is_row f active
          (λ a b. ground (arith, same b)) (λ a b. ground (arith, same a)) active-IsSound.ids;
    attempts =
        Distinct-update_where (same_id (λ (r : Otp). r.attempt_number)) is_row f active
          (λ a b. ground (arith, same b)) (λ a b. ground (arith, same a)) active-IsSound.attempts;
    sent = λ r m e. elim (In-update_where_inv r is_row f active m) [
      | inl (n, _) ↦ active-IsSound.sent r n e
      | inr (q, n, hit, eq) ↦ subst (λ (x : Otp). is_set x.sent_at ≡ true) (sym eq) (stamped q)
    ];
    one_usable = written-one;
  }

pub locked-In :
    (t : List Otp) (id phone : ℕ) (row : Otp)
    → locked_delivery t id phone ≡ some row
    → In row t × (row.id ≡ id)
unfolding locked_delivery
locked-In t id phone row e =
    let (here, hit) =
      find_where-some (λ (r : Otp). r.id == id && r.phone_number_hash == phone) t row e in
    (here, ground arith)

pub mark_otp_accepted-IsSound :
    (t : List Otp) (now id phone transaction message : ℕ)
    → IsSound t
    → IsSound (mark_otp_accepted t now id phone transaction message).0
unfolding mark_otp_accepted
mark_otp_accepted-IsSound t now id phone transaction message h =
    elim (Option-cases (locked_delivery t id phone)) [
      | inl lost ↦ rw (lost, mark_otp_accepted) h
      | inr (row, e) ↦
          let (here, same) = locked-In t id phone row e in
          elim (Bool-cases (matches_receipt row message (some transaction))) [
            | inr other ↦ rw (e, mark_otp_accepted) (rw other h)
            | inl fits ↦ elim (Bool-cases (is_failed row.delivery_status)) [
              | inl over ↦ rw (e, mark_otp_accepted) (rw fits (rw over h))
              | inr may ↦
                  rw (e, mark_otp_accepted)
                    (rw fits (
                      rw may (
                        subst
                          (λ x. IsSound (
                            update_where (λ (r : Otp). r.id == x)
                              (accepted_receipt now transaction message) (activate t now row)))
                          same
                          (written-IsSound t now row h here
                            (accepted_receipt now transaction message)
                            (λ r. (refl, refl, refl, refl)) (λ r. refl)))))
            ]
          ]
    ]

pub mark_otp_outcome-IsSound :
    (t : List Otp) (now id phone : ℕ) (s : Settled) (reason : FailureReason)
    → IsSound t
    → IsSound (mark_otp_outcome t now id phone s reason).0
unfolding mark_otp_outcome
mark_otp_outcome-IsSound t now id phone s reason h =
    elim (Option-cases (locked_delivery t id phone)) [
      | inl lost ↦ rw (lost, mark_otp_outcome) h
      | inr (row, e) ↦
          elim (Bool-cases
            (not (is_pending row.delivery_status) && not (is_unknown row.delivery_status))) [
              | inl closed ↦ rw (e, mark_otp_outcome) (rw closed h)
              | inr waits ↦
                  rw (e, mark_otp_outcome)
                    (rw waits (
                      undelivered-IsSound (λ (r : Otp). r.id == id) (settled now s reason) t h
                        (λ r. (refl, refl)) (λ r. low s)))
            ]
    ]
  where
    low : (s : Settled) → is_delivered (settled_state s) ≡ false
    low to_unknown = refl
    low to_failed = refl
