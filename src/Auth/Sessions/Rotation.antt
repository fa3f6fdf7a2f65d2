-- ===== src/Auth/Sessions/Rotation.antt =====
-- What a rotation makes of the token that it was given.
use histae_api.Prelude.{
  ℕ, In, find_where-some, find_where, exists_where, update_where, ◌&&◌, ltb, is_set, ◌==◌, ◌∷◌, ◌≡◌,
  inl, inr, none, some, true, false, refl, arith, List, Bool-cases, Option-cases, if◌then◌else◌,
}
use histae_api.Auth.Sessions.{
  Db, Token, NewRefreshToken, MobileSessionIdentity, lock_token, lock_active_account, active_family,
  rotate, replace_token, insert_token, new_token, rotated, clashes, revoke_families, replay,
}

-- The token that the lock hands out, and the row of the given jti, have one id.
pub lock_token_lem :
    (d : Db) (now jti hash : ℕ) (t : Token)
    → lock_token d now jti hash none ≡ some t
    → In t d.tokens
      × ((c : Token) × In c d.tokens
          × (c.jti ≡ jti)
          × (c.token_hash ≡ hash)
          × (c.id ≡ t.id)
          × (lock_active_account d c.user_id ≡ true))
unfolding lock_token
lock_token_lem d now jti hash t h =
    elim (Option-cases (find_where (λ (r : Token). r.jti == jti) d.tokens)) [
      | inl e ↦ absurd (ground (arith, e))
      | inr (c, e) ↦
          let (here, hit) = find_where-some (λ (r : Token). r.jti == jti) d.tokens c e in
          elim (Bool-cases (c.token_hash == hash)) [
            | inr forged ↦ absurd (ground (arith, e, forged))
            | inl authentic ↦ elim (Bool-cases (lock_active_account d c.user_id)) [
              | inr barred ↦ absurd (ground (arith, e, authentic, barred))
              | inl active ↦
                  let found : find_where (λ (r : Token). r.id == c.id && ltb now r.expires_at)
                        d.tokens
                      ≡ some t =
                    ground arith in
                  let (there, same) = find_where-some _ d.tokens t found in
                  (there, (c, here, ground arith, ground arith, ground arith, active))
            ]
          ]
    ]

-- The table of tokens after the rotation of `t`, but for the new one.
abbrev pub retired : Db → ℕ → Token → List Token
retired d now t = update_where (λ (r : Token). r.id == t.id) (rotated now) d.tokens

abbrev pub successor : Token → NewRefreshToken → Token
successor t next = new_token t.user_id t.family_id next (some t.id)

pub replace_token-some :
    (d d' : Db) (now : ℕ) (t : Token) (next : NewRefreshToken) (who : MobileSessionIdentity)
    → replace_token d now t next ≡ some (d', some who)
    → (d'.tokens ≡ successor t next ∷ retired d now t)
      × (exists_where (clashes (successor t next)) (retired d now t) ≡ false)
unfolding replace_token insert_token
replace_token-some d d' now t next who h = ground arith

-- A rotation that succeeds has found a current token of an active family.
pub rotate-some :
    (d d' : Db) (now jti hash : ℕ) (next : NewRefreshToken) (who : MobileSessionIdentity)
    → rotate d now jti hash next ≡ some (d', some who)
    → (t : Token) × (lock_token d now jti hash none ≡ some t)
      × (active_family d now t.user_id t.family_id ≡ true)
      × (t.revoked ≡ false)
      × (replace_token d now t next ≡ some (d', some who))
unfolding rotate
rotate-some d d' now jti hash next who h = elim (Option-cases (lock_token d now jti hash none)) [
  | inl e ↦ absurd (ground (arith, e))
  | inr (t, e) ↦ elim (Bool-cases (active_family d now t.user_id t.family_id)) [
    | inr idle ↦ absurd (ground (arith, e, idle))
    | inl live ↦ elim (Bool-cases t.revoked) [
      | inl spent ↦ absurd (ground (arith, e, live, spent))
      | inr fresh ↦ (t, e, live, fresh, ground arith)
    ]
  ]
]

-- With a revoked token no rotation succeeds.
pub rotate-revoked :
    (d : Db) (now jti hash : ℕ) (next : NewRefreshToken)
    → ((t : Token) → lock_token d now jti hash none ≡ some t → t.revoked ≡ true)
    → (d' : Db) × (rotate d now jti hash next ≡ some (d', none))
unfolding rotate
rotate-revoked d now jti hash next spent = elim (Option-cases (lock_token d now jti hash none)) [
  | inl e ↦ (d, rw (e, rotate) refl)
  | inr (t, e) ↦ elim (Bool-cases (active_family d now t.user_id t.family_id)) [
    | inr idle ↦ (d, rw (e, rotate) (rw idle refl))
    | inl live ↦ (
      if is_set t.rotated_at
          then (revoke_families d now t.user_id replay (some t.family_id)).0
          else d,
      rw (e, rotate) (rw live (rw (spent t e) refl)),
    )
  ]
]
