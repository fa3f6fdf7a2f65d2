-- ===== src/Auth/Sessions/Refreshing.antt =====
-- A rotation keeps the tables of the sessions sound.
use histae_api.Prelude.{
  ℕ, In, In-update_where, In-update_where_inv, In-update_where_kept, exists_where, update_where,
  Distinct-update_where, Distinct-update_where_mono, same_id, All_of_In, All-In, is_set, ◌==◌, ◌∷◌,
  ◌≡◌, inl, inr, none, some, false, refl, arith, Option, List, subst, Bool-cases, ap, Option-cases,
}
use histae_api.Auth.Sessions.{
  Db, Token, Family, NewRefreshToken, MobileSessionIdentity, lock_token, active_family, rotate,
  replace_token, insert_token, new_token, rotated, refreshed, clashes, replay,
}
use histae_api.Auth.Sessions.Invariant.{same_active, IsBacked, IsSound, revoke_families-IsSound}
use histae_api.Auth.Sessions.Rotation.{lock_token_lem, successor, retired}
use histae_api.Auth.Sessions.Creation.{unclashed}

-- The rotation of a current token.
module _ (d : Db) (now : ℕ) (t : Token) (next : NewRefreshToken) (h : IsSound d)
    (here : In t d.tokens) (fresh : t.revoked ≡ false)
    (free : exists_where (clashes (successor t next)) (retired d now t) ≡ false) where
  abbrev families_after : List Family
  families_after =
      update_where (λ (f : Family). f.id == t.family_id) (refreshed now next) d.families

  kept_family :
      (u : Token) (f : Family)
      → In f d.families
      → f.id ≡ u.family_id
      → f.user_id ≡ u.user_id
      → f.revoked_at ≡ none
      → (g : Family) × In g families_after
        × (g.id ≡ u.family_id)
        × (g.user_id ≡ u.user_id)
        × (g.revoked_at ≡ none)
  kept_family u f m a b c = elim (Bool-cases (f.id == t.family_id)) [
    | inl hit ↦ (
      refreshed now next f,
      In-update_where f (λ (f : Family). f.id == t.family_id) (refreshed now next) d.families m hit,
      a,
      b,
      c,
    )
    | inr miss ↦ (
      f,
      In-update_where_kept f (λ (f : Family). f.id == t.family_id) (refreshed now next) d.families m
          miss,
      a,
      b,
      c,
    )
  ]

  retired-IsBacked : (u : Token) → In u (retired d now t) → IsBacked families_after u
  retired-IsBacked u m =
      elim (In-update_where_inv u (λ (r : Token). r.id == t.id) (rotated now) d.tokens m) [
        | inl (n, miss) ↦
            let (backed, once) = All-In (IsBacked d.families) d.tokens h.backed n in
            (λ current. let (f, m', a, b, c) = backed current in kept_family u f m' a b c, once)
        | inr (r, n, hit, eq) ↦
            let spent = ap (λ (x : Token). x.revoked) eq in (λ current. absurd (cc), λ _. spent)
      ]

  successor-IsBacked : IsBacked families_after (successor t next)
  unfolding new_token
  successor-IsBacked =
      let (backed, _) = All-In (IsBacked d.families) d.tokens h.backed here in
      let (f, m, a, b, c) = backed fresh in
      (λ _. kept_family (successor t next) f m a b c, λ e. absurd (cc))

  replaced-IsSound :
      IsSound (record d { tokens = successor t next ∷ retired d now t; families = families_after })
  replaced-IsSound =
      let (id, jti, one) = unclashed (successor t next) (retired d now t) free in
      record {
        ids = (
          id,
          Distinct-update_where (same_id (λ (t : Token). t.id)) (λ (r : Token). r.id == t.id)
              (rotated now) d.tokens (λ a b. refl) (λ a b. refl) h.ids,
        );
        jtis = (
          jti,
          Distinct-update_where (same_id (λ (t : Token). t.jti)) (λ (r : Token). r.id == t.id)
              (rotated now) d.tokens (λ a b. refl) (λ a b. refl) h.jtis,
        );
        one_active = (
          one,
          Distinct-update_where_mono same_active (λ (r : Token). r.id == t.id) (rotated now)
              d.tokens (λ a b e. ground arith) (λ a b e. ground arith) h.one_active,
        );
        families =
            Distinct-update_where (same_id (λ (f : Family). f.id))
              (λ (f : Family). f.id == t.family_id) (refreshed now next) d.families (λ a b. refl)
              (λ a b. refl) h.families;
        backed = (
          successor-IsBacked,
          All_of_In (IsBacked families_after) (retired d now t) (λ u m. retired-IsBacked u m),
        );
      }

replace_token-IsSound :
    (d d' : Db) (now : ℕ) (t : Token) (next : NewRefreshToken) (who : Option MobileSessionIdentity)
    → In t d.tokens
    → t.revoked ≡ false
    → replace_token d now t next ≡ some (d', who)
    → IsSound d
    → IsSound d'
unfolding replace_token insert_token
replace_token-IsSound d d' now t next who here fresh e h =
    elim (Bool-cases (exists_where (clashes (successor t next)) (retired d now t))) [
      | inl clash ↦ absurd (ground (arith, clash))
      | inr free ↦
          subst IsSound (ground (arith, free)) (replaced-IsSound d now t next h here fresh free)
    ]

pub rotate-IsSound :
    (d d' : Db) (now jti hash : ℕ) (next : NewRefreshToken) (who : Option MobileSessionIdentity)
    → rotate d now jti hash next ≡ some (d', who)
    → IsSound d
    → IsSound d'
unfolding rotate
rotate-IsSound d d' now jti hash next who e h =
    elim (Option-cases (lock_token d now jti hash none)) [
      | inl lost ↦ subst IsSound (ground (arith, lost)) h
      | inr (t, found) ↦
          let (here, _) = lock_token_lem d now jti hash t found in
          elim (Bool-cases (active_family d now t.user_id t.family_id)) [
            | inr idle ↦ subst IsSound (ground (arith, found, idle)) h
            | inl live ↦ elim (Bool-cases t.revoked) [
              | inr fresh ↦
                  replace_token-IsSound d d' now t next who here fresh
                    (ground (arith, found, live, fresh)) h
              | inl spent ↦ elim (Bool-cases (is_set t.rotated_at)) [
                | inl once ↦
                    subst IsSound (ground (arith, found, live, spent, once))
                      (revoke_families-IsSound d now t.user_id replay (some t.family_id) h)
                | inr never ↦ subst IsSound (ground (arith, found, live, spent, never)) h
              ]
            ]
          ]
    ]
