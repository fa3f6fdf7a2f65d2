-- ===== src/Photos/Invariant.antt =====
-- What holds of the photos and of the upload requests, and which statements keep it.
use histae_api.Prelude.{
  ℕ, Bool, true, false, ◌&&◌, List, ◌∷◌, ◌==◌, ◌≡◌, refl, arith, inl, inr, In, is_set, Distinct,
  same_id, update_where, delete_where, exists_where, exists_where-In, In-update_where_inv,
  In-delete_where, Distinct-update_where, Distinct-delete_where, In-unique, exists_where_witness,
}
use histae_api.Photos.Models.{UserPhoto, ready, deleting, is_ready, is_in_progress}
use histae_api.Photos.{is_candidate, is_shown, is_active_upload, with_status, retired, activated}

-- The unique keys; of each account one photo at most is shown and one upload at most in progress, the
-- unique indexes on user_photo; a photo that is shown has its metadata.
pub record AreSound (ps : List UserPhoto) : Type 0 where
  pub ids : Distinct (same_id (λ (p : UserPhoto). p.id)) ps
  pub one_shown :
      (a b : UserPhoto)
      → In a ps
      → In b ps
      → is_ready a.status ≡ true
      → is_ready b.status ≡ true
      → a.user_id ≡ b.user_id
      → a.id ≡ b.id
  pub one_upload :
      (a b : UserPhoto)
      → In a ps
      → In b ps
      → is_in_progress a.status ≡ true
      → is_in_progress b.status ≡ true
      → a.user_id ≡ b.user_id
      → a.id ≡ b.id
  pub processed : (p : UserPhoto) → In p ps → is_ready p.status ≡ true → is_set p.metadata ≡ true

-- An update after which a row is shown, or in progress, only where it was.
module _ (p : UserPhoto → Bool) (f : UserPhoto → UserPhoto) (ps : List UserPhoto) (h : AreSound ps)
    (same : (r : UserPhoto) → ((f r).id ≡ r.id) × ((f r).user_id ≡ r.user_id))
    (shown : (r : UserPhoto)
      → is_ready (f r).status ≡ true
      → (is_ready r.status ≡ true) × (is_set (f r).metadata ≡ true))
    (uploaded : (r : UserPhoto)
      → is_in_progress (f r).status ≡ true
      → is_in_progress r.status ≡ true) where
  -- The row as it was before.
  row_before :
      (a : UserPhoto)
      → In a (update_where p f ps)
      → (r : UserPhoto) × In r ps
        × (a.id ≡ r.id)
        × (a.user_id ≡ r.user_id)
        × (is_ready a.status ≡ true → is_ready r.status ≡ true)
        × (is_in_progress a.status ≡ true → is_in_progress r.status ≡ true)
        × (is_ready a.status ≡ true → is_set a.metadata ≡ true)
  row_before a m = elim (In-update_where_inv a p f ps m) [
    | inl (n, miss) ↦ (a, n, refl, refl, λ e. e, λ e. e, λ e. h.processed a n e)
    | inr (r, n, hit, eq) ↦
        rw eq
          (r, n, (same r).0, (same r).1, λ e. (shown r e).0, λ e. uploaded r e, λ e. (shown r e).1)
  ]

  pub lowered-AreSound : AreSound (update_where p f ps)
  lowered-AreSound = record {
    ids =
        Distinct-update_where (same_id (λ (p : UserPhoto). p.id)) p f ps
          (λ a b. ground (arith, same b)) (λ a b. ground (arith, same a)) h.ids;
    one_shown = λ a b m n u v e.
        let (x, mx, ix, ux, sx, px, dx) = row_before a m in
        let (y, my, iy, uy, sy, py, dy) = row_before b n in
        let same_row = h.one_shown x y mx my (sx u) (sy v) cc in cc;
    one_upload = λ a b m n u v e.
        let (x, mx, ix, ux, sx, px, dx) = row_before a m in
        let (y, my, iy, uy, sy, py, dy) = row_before b n in
        let same_row = h.one_upload x y mx my (px u) (py v) cc in cc;
    processed = λ a m e. let (x, mx, ix, ux, sx, px, dx) = row_before a m in dx e;
  }

module _ (ps : List UserPhoto) (h : AreSound ps) where
  pub deleting-AreSound :
      (p : UserPhoto → Bool) (clock : ℕ) → AreSound (update_where p (with_status deleting clock) ps)
  deleting-AreSound p clock =
      lowered-AreSound p (with_status deleting clock) ps h (λ r. (refl, refl)) (λ r e. absurd cc)
        (λ r e. absurd cc)

  pub delete_where-AreSound : (p : UserPhoto → Bool) → AreSound (delete_where p ps)
  delete_where-AreSound p = record {
    ids = Distinct-delete_where (same_id (λ (p : UserPhoto). p.id)) p ps h.ids;
    one_shown =
        λ a b m n. h.one_shown a b (In-delete_where a p ps m).0 (In-delete_where b p ps n).0;
    one_upload =
        λ a b m n. h.one_upload a b (In-delete_where a p ps m).0 (In-delete_where b p ps n).0;
    processed = λ a m. h.processed a (In-delete_where a p ps m).0;
  }

  -- A new row that is not shown, for an account with no upload in progress.
  pub inserted-AreSound :
      (x : UserPhoto)
      → exists_where (λ p. p.id == x.id) ps ≡ false
      → exists_where (is_active_upload x.user_id) ps ≡ false
      → is_ready x.status ≡ false
      → AreSound (x ∷ ps)
  inserted-AreSound x new free hidden =
      let none_of =
        λ (a : UserPhoto) (m : In a ps). exists_where-In a (is_active_upload x.user_id) ps free m in
      record {
        ids = (new, h.ids);
        one_shown = λ a b m n u v e. elim m [
          | inl eq ↦ absurd cc
          | inr m' ↦ elim n [ inl eq ↦ absurd cc | inr n' ↦ h.one_shown a b m' n' u v e ]
        ];
        one_upload = λ a b m n u v e. elim m [
          | inl eq ↦ elim n [
            | inl eq' ↦ cc
            | inr n' ↦ absurd (ground (arith, none_of b n', eq, e, v))
          ]
          | inr m' ↦ elim n [
            | inl eq' ↦ absurd (ground (arith, none_of a m', eq', e, u))
            | inr n' ↦ h.one_upload a b m' n' u v e
          ]
        ];
        processed = λ a m e. elim m [ inl eq ↦ absurd cc | inr m' ↦ h.processed a m' e ];
      }

-- The activation of a photo.
module _ (ps : List UserPhoto) (h : AreSound ps) (clock id user_id : ℕ) where
  retired-AreSound : AreSound (retired clock user_id ps)
  retired-AreSound = deleting-AreSound ps h (is_shown user_id) clock

  -- No photo of the account is shown before the new one is.
  retired_hides :
      (a : UserPhoto)
      → In a (retired clock user_id ps)
      → a.user_id ≡ user_id
      → is_ready a.status ≡ false
  retired_hides a m e =
      elim (In-update_where_inv a (is_shown user_id) (with_status deleting clock) ps m) [
        | inl (n, miss) ↦ ground (arith, miss, e)
        | inr (r, n, hit, eq) ↦ rw eq refl
      ]

  candidate_before :
      (a : UserPhoto) → In a (retired clock user_id ps) → is_candidate id user_id a ≡ true → In a ps
  candidate_before a m e =
      elim (In-update_where_inv a (is_shown user_id) (with_status deleting clock) ps m) [
        | inl (n, miss) ↦ n
        | inr (r, n, hit, eq) ↦ absurd (ground (arith, eq, e))
      ]

  pub activated-AreSound :
      exists_where (λ p. is_candidate id user_id p && is_set p.metadata) ps ≡ true
      → AreSound (activated clock id user_id ps)
  activated-AreSound found =
      let hr = retired-AreSound in
      let (q, mq, hq) = exists_where_witness _ ps found in
      let was = λ (a : UserPhoto) (m : In a (activated clock id user_id ps)).
        In-update_where_inv a (is_candidate id user_id) (with_status ready clock)
          (retired clock user_id ps) m in
      record {
        ids =
            Distinct-update_where (same_id (λ (p : UserPhoto). p.id)) (is_candidate id user_id)
              (with_status ready clock) _ (λ a b. refl) (λ a b. refl) hr.ids;
        one_shown = λ a b m n u v e. elim (was a m) [
          | inl (m', _) ↦ elim (was b n) [
            | inl (n', _) ↦ hr.one_shown a b m' n' u v e
            | inr (r, n', hit, eq) ↦ absurd (ground (arith, retired_hides a m', hit, eq, e, u))
          ]
          | inr (r, m', hit, eq) ↦ elim (was b n) [
            | inl (n', _) ↦ absurd (ground (arith, retired_hides b n', hit, eq, e, v))
            | inr (s, n', hit', eq') ↦ ground (arith, hit, hit', eq, eq')
          ]
        ];
        one_upload = λ a b m n u v e. elim (was a m) [
          | inl (m', _) ↦ elim (was b n) [
            | inl (n', _) ↦ hr.one_upload a b m' n' u v e
            | inr (r, n', hit, eq) ↦ absurd (ground (arith, eq, v))
          ]
          | inr (r, m', hit, eq) ↦ absurd (ground (arith, eq, u))
        ];
        processed = λ a m e. elim (was a m) [
          | inl (m', _) ↦ hr.processed a m' e
          | inr (r, m', hit, eq) ↦
              let same_row =
                In-unique (λ (p : UserPhoto). p.id) r q ps h.ids (candidate_before r m' hit) mq
                  (ground (arith, hit, hq)) in
              rw (eq, same_row) (ground (arith, hq))
        ];
      }
