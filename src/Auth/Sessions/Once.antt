-- ===== src/Auth/Sessions/Once.antt =====
-- A token that has been rotated is spent, whatever transactions follow.
use histae_api.Prelude.{
  ℕ, In, In-update_where_moved, In-unique, ◌∷◌, ◌≡◌, ◌==◌, ◌&&◌, ◌∙◌, inl, inr, none, some, true,
  refl, arith, Bool, List, Option, Option-cases, Bool-cases, sym, ap, subst, exists_where,
  update_where, if◌then◌else◌, In-update_where, not, is_set, delete_where, ◌||◌, [],
}
use histae_api.Auth.Sessions.{
  Db, Token, NewRefreshToken, MobileSessionIdentity, RevocationReason, lock_token,
  lock_active_account, active_family, rotate, create, logout, revoke, revoke_families, insert_token,
  new_token, rotated, is_live, revoked_token, replace_token, logout_one, replay, Device,
  revoke_reason, Family,
}
use histae_api.Auth.Sessions.Invariant.{IsSound}
use histae_api.Auth.Sessions.Refreshing.{rotate-IsSound}
use histae_api.Auth.Sessions.Rotation.{
  lock_token_lem, rotate-some, rotate-revoked, replace_token-some, retired,
}
use histae_api.Auth.Sessions.History.{
  Op, creates, rotates, logs_out, revokes, revokes_all, perform, run, db_of, run_sessions-IsSound,
}

-- The table has a revoked token of the jti.
abbrev IsSpent : ℕ → List Token → Type 0
IsSpent jti ts = (c : Token) × In c ts × (c.jti ≡ jti) × (c.revoked ≡ true)

update-IsSpent :
    (jti : ℕ) (p : Token → Bool) (f : Token → Token) (ts : List Token)
    → ((c : Token) → (f c).jti ≡ c.jti)
    → ((c : Token) → (f c).revoked ≡ true)
    → IsSpent jti ts
    → IsSpent jti (update_where p f ts)
update-IsSpent jti p f ts keeps ends (c, here, same, gone) =
    let moved = In-update_where_moved c p f ts here in
    elim (Bool-cases (p c)) [
      | inl e ↦ (
        f c,
        subst (λ b. In (if b then f c else c) (update_where p f ts)) e moved,
        keeps c ∙ same,
        ends c,
      )
      | inr e ↦
          (c, subst (λ b. In (if b then f c else c) (update_where p f ts)) e moved, same, gone)
    ]

insert-IsSpent :
    (jti : ℕ) (ts ts' : List Token) (n : Token)
    → insert_token ts n ≡ some ts'
    → IsSpent jti ts
    → IsSpent jti ts'
unfolding insert_token
insert-IsSpent jti ts ts' n e (c, here, same, gone) =
    let grown : ts' ≡ n ∷ ts = ground arith in (c, subst (In c) (sym grown) (inr here), same, gone)

revoke_families-IsSpent :
    (jti : ℕ) (d : Db) (now user : ℕ) (reason : RevocationReason) (session : Option ℕ)
    → IsSpent jti d.tokens
    → IsSpent jti (revoke_families d now user reason session).0.tokens
unfolding revoke_families
revoke_families-IsSpent jti d now user reason session h =
    update-IsSpent jti (is_live user session) revoked_token d.tokens (λ c. refl) (λ c. refl) h

create-IsSpent :
    (jti : ℕ) (d : Db) (fresh user : ℕ) (n : NewRefreshToken)
    → IsSpent jti d.tokens
    → IsSpent jti (db_of d (create d fresh user n)).tokens
unfolding create
create-IsSpent jti d fresh user n h = elim (Bool-cases (lock_active_account d user)) [
  | inr barred ↦ rw (barred, create) h
  | inl active ↦ elim (Bool-cases (exists_where (λ f. f.id == fresh) d.families)) [
    | inl taken ↦ rw (active, create) (rw taken h)
    | inr free ↦ elim (Option-cases (insert_token d.tokens (new_token user fresh n none))) [
      | inl e ↦ rw (active, create) (rw free (rw e h))
      | inr (ts, e) ↦
          rw (active, create)
            (rw free (rw e (insert-IsSpent jti d.tokens ts (new_token user fresh n none) e h)))
    ]
  ]
]

replace_token-IsSpent :
    (jti : ℕ) (d : Db) (now : ℕ) (t : Token) (next : NewRefreshToken)
    → IsSpent jti d.tokens
    → IsSpent jti (db_of d (replace_token d now t next)).tokens
unfolding replace_token
replace_token-IsSpent jti d now t next h =
    let new = new_token t.user_id t.family_id next (some t.id) in
    let kept =
      update-IsSpent jti (λ (r : Token). r.id == t.id) (rotated now) d.tokens (λ c. refl)
        (λ c. refl) h in
    elim (Option-cases (insert_token (retired d now t) new)) [
      | inl e ↦ rw (e, replace_token) h
      | inr (ts, e) ↦ rw (e, replace_token) (insert-IsSpent jti (retired d now t) ts new e kept)
    ]

rotate-IsSpent :
    (jti : ℕ) (d : Db) (now jti' hash : ℕ) (next : NewRefreshToken)
    → IsSpent jti d.tokens
    → IsSpent jti (db_of d (rotate d now jti' hash next)).tokens
unfolding rotate
rotate-IsSpent jti d now jti' hash next h = elim (Option-cases (lock_token d now jti' hash none)) [
  | inl e ↦ rw (e, rotate) h
  | inr (t, e) ↦ elim (Bool-cases (active_family d now t.user_id t.family_id)) [
    | inr idle ↦ rw (e, rotate) (rw idle h)
    | inl live ↦ elim (Bool-cases t.revoked) [
      | inr fresh ↦ rw (e, rotate) (rw live (rw fresh (replace_token-IsSpent jti d now t next h)))
      | inl gone ↦ elim (Bool-cases (is_set t.rotated_at)) [
        | inl replayed ↦
            rw (e, rotate)
              (rw live (
                rw gone (
                  rw replayed
                    (revoke_families-IsSpent jti d now t.user_id replay (some t.family_id) h))))
        | inr revoked ↦ rw (e, rotate) (rw live (rw gone (rw revoked h)))
      ]
    ]
  ]
]

abbrev SpendsIn : ℕ → Db → Type 0
SpendsIn jti d = IsSpent jti d.tokens

logout-IsSpent :
    (jti : ℕ) (d : Db) (now user session jti' hash : ℕ) (device : Option ℕ)
    → IsSpent jti d.tokens
    → IsSpent jti (logout d now user session jti' hash device).0.tokens
unfolding logout
logout-IsSpent jti d now user session jti' hash device h =
    elim (Option-cases (lock_token d now jti' hash (some user))) [
      | inl lost ↦ rw (lost, logout) h
      | inr (t, e) ↦
          elim (Bool-cases
            (not (t.family_id == session) || not (active_family d now user session))) [
              | inl other ↦ rw (e, logout) (rw other h)
              | inr live ↦ rw (e, logout) (rw live (ended device))
            ]
    ]
  where
    ended :
        (v : Option ℕ)
        → SpendsIn jti (elim v [
          | none ↦ (revoke_families d now user logout_one (some session)).0
          | some v ↦
              let d' = (revoke_families d now user logout_one (some session)).0 in
              record d' {
                devices = delete_where (λ (w : Device). w.id == v && w.user_id == user) d'.devices;
              }
        ])
    ended none = revoke_families-IsSpent jti d now user logout_one (some session) h
    ended (some v) = revoke_families-IsSpent jti d now user logout_one (some session) h

revoke-IsSpent :
    (jti : ℕ) (d : Db) (now user current : ℕ) (target : Option ℕ)
    → IsSpent jti d.tokens
    → IsSpent jti (revoke d now user current target).0.tokens
unfolding revoke
revoke-IsSpent jti d now user current none h =
    elim (Bool-cases (not (lock_active_account d user) || not (active_family d now user current))) [
      | inl barred ↦ rw barred h
      | inr may ↦ rw may (revoke_families-IsSpent jti d now user (revoke_reason none) none h)
    ]
revoke-IsSpent jti d now user current (some t) h =
    elim (Bool-cases (not (lock_active_account d user) || not (active_family d now user current))) [
      | inl barred ↦ rw barred h
      | inr may ↦
          elim (Bool-cases
            (exists_where (λ (f : Family). f.id == t && f.user_id == user) d.families)) [
              | inl known ↦ rw may (
                  rw known
                    (revoke_families-IsSpent jti d now user (revoke_reason (some t)) (some t) h))
              | inr other ↦ rw may (rw other h)
            ]
    ]

perform-IsSpent :
    (jti : ℕ) (d : Db) (op : Op) → IsSpent jti d.tokens → IsSpent jti (perform d op).tokens
unfolding perform
perform-IsSpent jti d (creates fresh user n) h = create-IsSpent jti d fresh user n h
perform-IsSpent jti d (rotates now jti' hash next) h = rotate-IsSpent jti d now jti' hash next h
perform-IsSpent jti d (logs_out now user session jti' hash device) h =
    logout-IsSpent jti d now user session jti' hash device h
perform-IsSpent jti d (revokes now user current target) h =
    revoke-IsSpent jti d now user current target h
perform-IsSpent jti d (revokes_all now user reason) h =
    revoke_families-IsSpent jti d now user reason none h

run-IsSpent :
    (jti : ℕ) (ops : List Op) (d : Db) → IsSpent jti d.tokens → IsSpent jti (run d ops).tokens
unfolding run
run-IsSpent jti [] d h = h
run-IsSpent jti (op ∷ ops) d h = run-IsSpent jti ops (perform d op) (perform-IsSpent jti d op h)

-- The token that a rotation has used is spent.
rotate-IsSpent_self :
    (d d' : Db) (now jti hash : ℕ) (next : NewRefreshToken) (who : MobileSessionIdentity)
    → IsSound d
    → rotate d now jti hash next ≡ some (d', some who)
    → IsSpent jti d'.tokens
rotate-IsSpent_self d d' now jti hash next who s h =
    let (t, e, _, _, done) = rotate-some d d' now jti hash next who h in
    let (tokens, _) = replace_token-some d d' now t next who done in
    let (here, (c, there, c_jti, _, c_id, _)) = lock_token_lem d now jti hash t e in
    let same = In-unique (λ (r : Token). r.id) t c d.tokens s.ids here there (sym c_id) in
    let old =
      In-update_where t (λ (r : Token). r.id == t.id) (rotated now) d.tokens here (ground arith) in
    (
      rotated now t,
      subst (In (rotated now t)) (sym tokens) (inr old),
      ap (λ r. r.jti) same ∙ c_jti,
      refl,
    )

-- A refresh token rotates once. After a rotation that succeeded, on sound tables, and after any
-- history of creations, rotations, logouts and revocations that follows it, the same token and
-- secret obtain no session, at any instant.
pub rotates_once :
    (d d' : Db) (now jti hash : ℕ) (next : NewRefreshToken) (who : MobileSessionIdentity)
    → IsSound d
    → rotate d now jti hash next ≡ some (d', some who)
    → (ops : List Op) (later : ℕ) (next' : NewRefreshToken)
    → (d'' : Db) × (rotate (run d' ops) later jti hash next' ≡ some (d'', none))
rotates_once d d' now jti hash next who s h ops later next' =
    let sound =
      run_sessions-IsSound ops d' (rotate-IsSound d d' now jti hash next (some who) h s) in
    let (c, here, c_jti, gone) =
      run-IsSpent jti ops d' (rotate-IsSpent_self d d' now jti hash next who s h) in
    rotate-revoked (run d' ops) later jti hash next' (λ u found.
      let ts = (run d' ops).tokens in
      let (u_in, (v, v_in, v_jti, _, v_id, _)) =
        lock_token_lem (run d' ops) later jti hash u found in
      let first =
        In-unique (λ (r : Token). r.jti) v c ts sound.jtis v_in here (v_jti ∙ sym c_jti) in
      let second = In-unique (λ (r : Token). r.id) u v ts sound.ids u_in v_in (sym v_id) in
      ap (λ r. r.revoked) (second ∙ first) ∙ gone)
