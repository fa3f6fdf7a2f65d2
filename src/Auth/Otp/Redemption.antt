-- ===== src/Auth/Otp/Redemption.antt =====
-- What the redemption of a code leaves.
use histae_api.Prelude.{
  ℕ, In, In-unique, exists_where, exists_where_witness, count_where_none, update_where,
  update_where_none, ◌≡◌, inl, inr, true, false, arith, List, Bool-cases,
}
use histae_api.Auth.Otp.{Otp, consume_otp, is_redeemable, consumed}
use histae_api.Auth.Otp.Invariant.{IsSound, usable_before}

redeemed_row :
    (t : List Otp) (now phone otp_hash : ℕ)
    → (consume_otp t now phone otp_hash).1 ≡ true
    → (x : Otp) × In x t × (is_redeemable now phone otp_hash x ≡ true)
unfolding consume_otp
redeemed_row t now phone otp_hash h =
    elim (Bool-cases (exists_where (is_redeemable now phone otp_hash) t)) [
      | inl some_row ↦ exists_where_witness (is_redeemable now phone otp_hash) t some_row
      | inr nobody ↦
          let zero_rows = count_where_none (is_redeemable now phone otp_hash) t nobody in
          absurd (ground (arith, zero_rows))
    ]

-- A code is redeemed once, and takes every other code of the phone with it: after a redemption, no
-- code of the phone is accepted, at any later instant, until another delivery changes the table.
pub redeems_once :
    (t : List Otp) (now phone otp_hash : ℕ)
    → IsSound t
    → (consume_otp t now phone otp_hash).1 ≡ true
    → (later otp_hash' : ℕ)
    → consume_otp (consume_otp t now phone otp_hash).0 later phone otp_hash'
      ≡ ((consume_otp t now phone otp_hash).0, false)
unfolding consume_otp is_redeemable
redeems_once t now phone otp_hash h redeemed later otp_hash' =
    let (x, x_in, x_fits) = redeemed_row t now phone otp_hash redeemed in
    let t' = update_where (is_redeemable now phone otp_hash) consumed t in
    let nobody : exists_where (is_redeemable later phone otp_hash') t' ≡ false =
      elim (Bool-cases (exists_where (is_redeemable later phone otp_hash') t')) [
        | inr no_row ↦ no_row
        | inl some_row ↦
            let (y, y_in, y_fits) =
              exists_where_witness (is_redeemable later phone otp_hash') t' some_row in
            let (y_old, y_kept) =
              usable_before (is_redeemable now phone otp_hash) t h y y_in (ground arith) in
            let same = h.one_usable y x y_old x_in (ground arith) (ground arith) (ground arith) in
            let eq = In-unique (λ (r : Otp). r.id) y x t h.ids y_old x_in same in
            absurd (ground (arith, eq))
      ] in
    let unchanged = update_where_none (is_redeemable later phone otp_hash') consumed t' nobody in
    let zero_rows = count_where_none (is_redeemable later phone otp_hash') t' nobody in
    ground (arith, unchanged, zero_rows)
