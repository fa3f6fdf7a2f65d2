-- ===== src/Auth/Sessions/Creation.antt =====
-- A new session keeps the tables of the sessions sound.
use histae_api.Prelude.{
  ℕ, exists_where, same_id, All_of_In, All-In, ◌==◌, ◌∷◌, [], ◌≡◌, inl, inr, none, some, false,
  refl, arith, Option, List, subst, Bool-cases,
}
use histae_api.Auth.Sessions.{
  Db, Token, Family, NewRefreshToken, MobileSessionIdentity, lock_active_account, create,
  insert_token, new_token, clashes, new_family,
}
use histae_api.Auth.Sessions.Invariant.{same_active, IsBacked, IsSound}

-- A clash of keys is one of the three constraints.
pub unclashed :
    (n : Token) (ts : List Token)
    → exists_where (clashes n) ts ≡ false
    → (exists_where (same_id (λ (t : Token). t.id) n) ts ≡ false)
      × (exists_where (same_id (λ (t : Token). t.jti) n) ts ≡ false)
      × (exists_where (same_active n) ts ≡ false)
unfolding exists_where
unclashed n [] h = (refl, refl, refl)
unclashed n (t ∷ ts) h = ground (arith, unclashed n ts)

added-IsSound :
    (d : Db) (fresh user : ℕ) (n : NewRefreshToken)
    → exists_where (λ (f : Family). f.id == fresh) d.families ≡ false
    → exists_where (clashes (new_token user fresh n none)) d.tokens ≡ false
    → IsSound d
    → IsSound (record d {
      families = new_family fresh user n ∷ d.families;
      tokens = new_token user fresh n none ∷ d.tokens;
    })
unfolding new_family new_token
added-IsSound d fresh user n new free h =
    let (id, jti, one) = unclashed (new_token user fresh n none) d.tokens free in
    record {
      ids = (id, h.ids);
      jtis = (jti, h.jtis);
      one_active = (one, h.one_active);
      families = (new, h.families);
      backed = (
        (λ _. (new_family fresh user n, inl refl, refl, refl, refl), λ e. absurd (cc)),
        All_of_In (IsBacked (new_family fresh user n ∷ d.families)) d.tokens (λ u m.
            let (backed, once) = All-In (IsBacked d.families) d.tokens h.backed m in
            (λ current. let (f, m', a, b, c) = backed current in (f, inr m', a, b, c), once)),
      );
    }

pub create-IsSound :
    (d d' : Db) (fresh user : ℕ) (n : NewRefreshToken) (who : Option MobileSessionIdentity)
    → create d fresh user n ≡ some (d', who)
    → IsSound d
    → IsSound d'
unfolding create insert_token
create-IsSound d d' fresh user n who e h = elim (Bool-cases (lock_active_account d user)) [
  | inr barred ↦ subst IsSound (ground (arith, barred)) h
  | inl active ↦ elim (Bool-cases (exists_where (λ (f : Family). f.id == fresh) d.families)) [
    | inl taken ↦ absurd (ground (arith, active, taken))
    | inr new ↦ elim (Bool-cases (exists_where (clashes (new_token user fresh n none)) d.tokens)) [
      | inl clash ↦ absurd (ground (arith, active, new, clash))
      | inr free ↦
          subst IsSound (ground (arith, active, new, free))
            (added-IsSound d fresh user n new free h)
    ]
  ]
]
