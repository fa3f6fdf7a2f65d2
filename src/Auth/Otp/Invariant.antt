-- ===== src/Auth/Otp/Invariant.antt =====
-- What holds of the table of one-time passwords, and which updates keep it.
use histae_api.Prelude.{
  ℕ, In, In-update_where_inv, In-unique, exists_where-In, exists_where_of_In, Distinct,
  Distinct-update_where, same_id, is_set, exists_where, update_where, not, ◌&&◌, ltb, ap, ◌==◌, ◌≡◌,
  inl, inr, true, false, refl, arith, List, Bool, sym, subst, Bool-cases,
}
use histae_api.Auth.Otp.{Otp, is_delivered, consumed, activate, is_superseded, is_ancestor}

-- The rows of idx_otp_one_usable_per_phone.
abbrev pub is_usable : Otp → Bool
is_usable r = is_delivered r.delivery_status && not r.used

-- Of each phone one row at most may be redeemed; a delivered row has its instant of sending; no id
-- and no attempt occurs twice.
pub record IsSound (t : List Otp) : Type 0 where
  pub ids : Distinct (same_id (λ (r : Otp). r.id)) t
  pub attempts : Distinct (same_id (λ (r : Otp). r.attempt_number)) t
  pub sent : (r : Otp) → In r t → is_delivered r.delivery_status ≡ true → is_set r.sent_at ≡ true
  pub one_usable :
      (a b : Otp)
      → In a t
      → In b t
      → is_usable a ≡ true
      → is_usable b ≡ true
      → a.phone_number_hash ≡ b.phone_number_hash
      → a.id ≡ b.id

module _ (p : Otp → Bool) (t : List Otp) (h : IsSound t) where
  -- A row that is usable after codes were consumed was there before.
  pub usable_before :
      (a : Otp) → In a (update_where p consumed t) → a.used ≡ false → In a t × (p a ≡ false)
  usable_before a m fresh = elim (In-update_where_inv a p consumed t m) [
    | inl kept ↦ kept
    | inr (r, n, hit, eq) ↦ absurd (ground (arith, eq))
  ]

  pub consumed-IsSound : IsSound (update_where p consumed t)
  consumed-IsSound = record {
    ids =
        Distinct-update_where (same_id (λ (r : Otp). r.id)) p consumed t (λ a b. refl) (λ a b. refl)
          h.ids;
    attempts =
        Distinct-update_where (same_id (λ (r : Otp). r.attempt_number)) p consumed t (λ a b. refl)
          (λ a b. refl) h.attempts;
    sent = λ r m e. elim (In-update_where_inv r p consumed t m) [
      | inl (n, _) ↦ h.sent r n e
      | inr (q, n, hit, eq) ↦
          rw eq (h.sent q n (subst (λ (x : Otp). is_delivered x.delivery_status ≡ true) eq e))
    ];
    one_usable = λ a b m n u v.
        h.one_usable a b (usable_before a m (ground arith)).0 (usable_before b n (ground arith)).0 u
          v;
  }

-- An update after which its rows are not delivered.
module _ (p : Otp → Bool) (f : Otp → Otp) (t : List Otp) (h : IsSound t)
    (same : (r : Otp) → ((f r).id ≡ r.id) × ((f r).attempt_number ≡ r.attempt_number))
    (undelivered : (r : Otp) → is_delivered (f r).delivery_status ≡ false) where
  delivered_before :
      (a : Otp) → In a (update_where p f t) → is_delivered a.delivery_status ≡ true → In a t
  delivered_before a m u = elim (In-update_where_inv a p f t m) [
    | inl (n, _) ↦ n
    | inr (r, n, hit, eq) ↦
        let low =
          subst (λ (x : Otp). is_delivered x.delivery_status ≡ false) (sym eq) (undelivered r) in
        absurd (cc)
  ]

  pub undelivered-IsSound : IsSound (update_where p f t)
  undelivered-IsSound = record {
    ids =
        Distinct-update_where (same_id (λ (r : Otp). r.id)) p f t (λ a b. ground (arith, same b))
          (λ a b. ground (arith, same a)) h.ids;
    attempts =
        Distinct-update_where (same_id (λ (r : Otp). r.attempt_number)) p f t
          (λ a b. ground (arith, same b)) (λ a b. ground (arith, same a)) h.attempts;
    sent = λ r m e. h.sent r (delivered_before r m e) e;
    one_usable = λ a b m n u v.
        h.one_usable a b (delivered_before a m (ground arith)) (delivered_before b n (ground arith))
          u v;
  }

-- The activation of an attempt.
module _ (t : List Otp) (now : ℕ) (row : Otp) (h : IsSound t) (here : In row t) where
  abbrev pub expired : List Otp
  expired = update_where (is_superseded now row t) consumed t

  expired-IsSound : IsSound expired
  expired-IsSound = consumed-IsSound (is_superseded now row t) t h

  pub activate-IsSound : IsSound (activate t now row)
  unfolding activate
  activate-IsSound = elim (Bool-cases row.used) [
    | inl e ↦ rw e h
    | inr e ↦ rw e (consumed-IsSound (is_ancestor row expired) expired expired-IsSound)
  ]

  pub activate-old :
      (r : Otp)
      → In r (activate t now row)
      → (q : Otp) × In q t
        × (r.id ≡ q.id)
        × (r.phone_number_hash ≡ q.phone_number_hash)
        × (r.used ≡ false → r ≡ q)
  unfolding activate
  activate-old r m = elim (Bool-cases row.used) [
    | inl e ↦ (r, rw e at m, refl, refl, λ _. refl)
    | inr e ↦ elim (In-update_where_inv r (is_ancestor row expired) consumed expired (rw e at m)) [
      | inl (n, _) ↦ elim (In-update_where_inv r (is_superseded now row t) consumed t n) [
        | inl (o, _) ↦ (r, o, refl, refl, λ _. refl)
        | inr (q, o, _, eq) ↦
            (q, o, ground (arith, eq), ground (arith, eq), λ u. absurd (ground (arith, eq)))
      ]
      | inr (s, n, _, eq) ↦ elim (In-update_where_inv s (is_superseded now row t) consumed t n) [
        | inl (o, _) ↦
            (s, o, ground (arith, eq), ground (arith, eq), λ u. absurd (ground (arith, eq)))
        | inr (q, o, _, eq') ↦ (
          q,
          o,
          ground (arith, eq, eq'),
          ground (arith, eq, eq'),
          λ u. absurd (ground (arith, eq)),
        )
      ]
    ]
  ]

  -- If the attempt is still unused afterwards, no other row of the phone is usable.
  pub activate-alone :
      (r q : Otp)
      → In r (activate t now row)
      → In q (activate t now row)
      → r.id ≡ row.id
      → r.used ≡ false
      → q.phone_number_hash ≡ row.phone_number_hash
      → is_usable q ≡ true
      → q.id ≡ row.id
  unfolding activate is_superseded is_ancestor
  activate-alone r q m n same fresh phone usable = elim (Bool-cases row.used) [
    | inl spent ↦
        let eq = In-unique (λ (x : Otp). x.id) r row t h.ids (rw spent at m) here same in
        absurd (cc)
    | inr unspent ↦
        let (r_in, r_kept) =
          usable_before (is_ancestor row expired) expired expired-IsSound r (rw unspent at m)
            fresh in
        let (r_old, r_stands) = usable_before (is_superseded now row t) t h r r_in fresh in
        let (q_in, q_kept) =
          usable_before (is_ancestor row expired) expired expired-IsSound q (rw unspent at n)
            (ground arith) in
        let (q_old, q_stands) = usable_before (is_superseded now row t) t h q q_in (ground arith) in
        let q_sent = h.sent q q_old (ground arith) in
        let standing =
          exists_where_of_In r (λ (x : Otp). x.id == row.id && not x.used) expired r_in
            (ground arith) in
        let none_later : exists_where
              (λ (x : Otp).
                x.phone_number_hash == row.phone_number_hash
                && ltb row.attempt_number x.attempt_number
                && is_set x.sent_at)
              t
            ≡ false =
          ground arith in
        let not_later =
          exists_where-In q
            (λ (x : Otp).
              x.phone_number_hash == row.phone_number_hash
              && ltb row.attempt_number x.attempt_number
              && is_set x.sent_at)
            t none_later q_old in
        ap (λ (x : Otp). x.id)
          (In-unique (λ (x : Otp). x.attempt_number) q row t h.attempts q_old here (ground arith))
  ]
