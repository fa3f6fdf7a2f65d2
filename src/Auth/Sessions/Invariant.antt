-- ===== src/Auth/Sessions/Invariant.antt =====
-- What holds of the tables of the sessions after any history of transactions.
use histae_api.Prelude.{
  ℕ, In, In-update_where_inv, In-update_where_kept, Distinct, Distinct-update_where,
  Distinct-update_where_mono, same_id, update_where, All, All_of_In, All-In, is_set, not, ◌&&◌,
  ◌==◌, ◌≡◌, inl, inr, none, true, false, refl, arith, Option, List, Bool, ap,
}
use histae_api.Auth.Sessions.{
  Db, Token, Family, RevocationReason, revoke_families, is_live, is_revocable, revoked_token,
  revoked_family,
}

-- uq_refresh_family_active: two current tokens of one family.
abbrev pub same_active : Token → Token → Bool
same_active a b = b.family_id == a.family_id && not a.revoked && not b.revoked

-- A token that may still be used has an unrevoked family of its owner, and a rotated one is revoked.
abbrev pub IsBacked : List Family → Token → Type 0
IsBacked families t =
    (t.revoked ≡ false
      → (f : Family) × In f families
        × (f.id ≡ t.family_id)
        × (f.user_id ≡ t.user_id)
        × (f.revoked_at ≡ none))
    × (is_set t.rotated_at ≡ true → t.revoked ≡ true)

pub record IsSound (d : Db) : Type 0 where
  pub ids : Distinct (same_id (λ (t : Token). t.id)) d.tokens
  pub jtis : Distinct (same_id (λ (t : Token). t.jti)) d.tokens
  pub one_active : Distinct same_active d.tokens
  pub families : Distinct (same_id (λ (f : Family). f.id)) d.families
  pub backed : All (IsBacked d.families) d.tokens

-- Revocations.
module _ (d : Db) (now user : ℕ) (reason : RevocationReason) (session : Option ℕ)
    (h : IsSound d) where
  abbrev after : Db
  after = (revoke_families d now user reason session).0

  survives :
      (u : Token) (f : Family)
      → In f d.families
      → f.id ≡ u.family_id
      → f.user_id ≡ u.user_id
      → u.revoked ≡ false
      → is_live user session u ≡ false
      → In f (update_where (is_revocable user session) (revoked_family now reason) d.families)
  survives u f m same_id same_user fresh spared =
      In-update_where_kept f (is_revocable user session) (revoked_family now reason) d.families m
        (ground arith)

  revoke_families-IsBacked : (u : Token) → In u after.tokens → IsBacked after.families u
  unfolding revoke_families
  revoke_families-IsBacked u m =
      elim (In-update_where_inv u (is_live user session) revoked_token d.tokens m) [
        | inl (n, spared) ↦
            let (backed, once) = All-In (IsBacked d.families) d.tokens h.backed n in
            (
              λ fresh.
                  let (f, here, same_id, same_user, open_) = backed fresh in
                  (f, survives u f here same_id same_user fresh spared, same_id, same_user, open_),
              once,
            )
        | inr (r, n, hit, eq) ↦
            let spent = ap (λ (x : Token). x.revoked) eq in (λ fresh. absurd (cc), λ _. spent)
      ]

  pub revoke_families-IsSound : IsSound after
  unfolding revoke_families
  revoke_families-IsSound = record {
    ids =
        Distinct-update_where (same_id (λ (t : Token). t.id)) (is_live user session) revoked_token
          d.tokens (λ a b. refl) (λ a b. refl) h.ids;
    jtis =
        Distinct-update_where (same_id (λ (t : Token). t.jti)) (is_live user session) revoked_token
          d.tokens (λ a b. refl) (λ a b. refl) h.jtis;
    one_active =
        Distinct-update_where_mono same_active (is_live user session) revoked_token d.tokens
          (λ a b e. ground arith) (λ a b e. ground arith) h.one_active;
    families =
        Distinct-update_where (same_id (λ (f : Family). f.id)) (is_revocable user session)
          (revoked_family now reason) d.families (λ a b. refl) (λ a b. refl) h.families;
    backed = All_of_In (IsBacked after.families) after.tokens (λ u m. revoke_families-IsBacked u m);
  }
