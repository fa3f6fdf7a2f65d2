-- ===== src/Auth/Sessions/Replay.antt =====
-- What the replay of a rotated token does.
use histae_api.Prelude.{
  ℕ, In, In-update_where_inv, is_set, ◌==◌, ◌&&◌, ◌∷◌, [], ◌≡◌, inl, inr, none, some, true, false,
  refl, arith, List, ap, ltb, count_where, update_where, is_null,
}
use histae_api.Auth.Sessions.{
  Db, Token, Family, NewRefreshToken, RevocationReason, revoke_families, lock_token, active_family,
  rotate, is_revocable, revoked_family, is_live, revoked_token, replay,
}

no_family :
    (fs : List Family) (now later user session : ℕ) (reason : RevocationReason)
    → count_where
        (λ (f : Family).
          f.id == session && f.user_id == user && is_null f.revoked_at && ltb later f.expires_at)
        (update_where (is_revocable user (some session)) (revoked_family now reason) fs)
      ≡ 0
unfolding count_where update_where
no_family [] now later user session reason = refl
no_family (f ∷ fs) now later user session reason =
    ground (arith, no_family fs now later user session reason)

-- A revoked family is never active again, and its tokens are all revoked.
revoked-inactive :
    (d : Db) (now later user session : ℕ) (reason : RevocationReason)
    → active_family (revoke_families d now user reason (some session)).0 later user session ≡ false
unfolding active_family revoke_families
revoked-inactive d now later user session reason =
    rw (no_family d.families now later user session reason) refl

revoked-tokens :
    (d : Db) (now user session : ℕ) (reason : RevocationReason) (u : Token)
    → In u (revoke_families d now user reason (some session)).0.tokens
    → u.user_id ≡ user
    → u.family_id ≡ session
    → u.revoked ≡ true
unfolding revoke_families
revoked-tokens d now user session reason u m same_user same_family =
    elim (In-update_where_inv u (is_live user (some session)) revoked_token d.tokens m) [
      | inl (_, kept) ↦ ground arith
      | inr (r, _, _, eq) ↦ ap (λ x. x.revoked) eq
    ]

-- A token of an inactive family is refused, and nothing is written.
rotate-inactive :
    (d : Db) (now jti hash : ℕ) (next : NewRefreshToken) (t : Token)
    → lock_token d now jti hash none ≡ some t
    → active_family d now t.user_id t.family_id ≡ false
    → rotate d now jti hash next ≡ some (d, none)
unfolding rotate
rotate-inactive d now jti hash next t e idle = rw (e, rotate) (rw idle refl)

rotate-replayed :
    (d : Db) (now jti hash : ℕ) (next : NewRefreshToken) (t : Token)
    → lock_token d now jti hash none ≡ some t
    → active_family d now t.user_id t.family_id ≡ true
    → t.revoked ≡ true
    → is_set t.rotated_at ≡ true
    → rotate d now jti hash next
      ≡ some ((revoke_families d now t.user_id replay (some t.family_id)).0, none)
unfolding rotate
rotate-replayed d now jti hash next t e live spent once =
    rw (e, rotate) (rw live (rw spent (rw once refl)))

-- Whoever presents a rotated token with its secret, while its family is active, ends the family: the
-- request is refused, the family is inactive at any later instant, all its tokens are revoked, and
-- each later request with one of them is refused and writes nothing.
pub replay_ends_family :
    (d : Db) (now jti hash : ℕ) (next : NewRefreshToken) (t : Token)
    → lock_token d now jti hash none ≡ some t
    → active_family d now t.user_id t.family_id ≡ true
    → t.revoked ≡ true
    → is_set t.rotated_at ≡ true
    → (d' : Db) × (rotate d now jti hash next ≡ some (d', none))
      × ((later : ℕ) → active_family d' later t.user_id t.family_id ≡ false)
      × ((u : Token)
          → In u d'.tokens
          → u.user_id ≡ t.user_id
          → u.family_id ≡ t.family_id
          → u.revoked ≡ true)
      × ((later jti' hash' : ℕ) (next' : NewRefreshToken) (u : Token)
          → lock_token d' later jti' hash' none ≡ some u
          → u.user_id ≡ t.user_id
          → u.family_id ≡ t.family_id
          → rotate d' later jti' hash' next' ≡ some (d', none))
replay_ends_family d now jti hash next t e live spent once =
    let d' = (revoke_families d now t.user_id replay (some t.family_id)).0 in
    let idle : (later : ℕ) → active_family d' later t.user_id t.family_id ≡ false =
      λ later. revoked-inactive d now later t.user_id t.family_id replay in
    (
      d',
      rotate-replayed d now jti hash next t e live spent once,
      idle,
      λ u m. revoked-tokens d now t.user_id t.family_id replay u m,
      λ later jti' hash' next' u found same_user same_family.
          rotate-inactive d' later jti' hash' next' u found
            (rw (same_user, same_family) (idle later)),
    )
