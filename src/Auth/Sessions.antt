-- ===== src/Auth/Sessions.antt =====
-- src/auth/refresh-session.repository.ts: families of refresh tokens, their rotation and revocation.
-- Each method is one transaction, a function of the tables; `none` is a transaction that a unique
-- constraint of db/schema_postgres.sql refuses. Token hashes are numbers, compared for equality; a
-- transaction reads its clock as the argument `now`.
pub mod Replay
pub mod Rotation
pub mod Invariant
pub mod Creation
pub mod Refreshing
pub mod Revocation
pub mod History
pub mod Once
mod Tests
use histae_api.Prelude.{
  ℕ, ◌==◌, ◌&&◌, ◌||◌, ◌∷◌, none, some, true, false, Option, List, Bool, not, ltb, if◌then◌else◌,
  update_where, delete_where, exists_where, find_where, is_set, count_where, is_null, holds,
}

-- `RevocationReason`
pub data RevocationReason : Type 0 where
  replay logout_one logout_all user_revoked banned : RevocationReason

pub record Account : Type 0 where
  pub user_id : ℕ
  pub deleted : Bool
  pub is_banned : Bool

-- `refresh_token_family`
pub record Family : Type 0 where
  pub id : ℕ
  pub user_id : ℕ
  pub created_at : ℕ
  pub last_refreshed_at : ℕ
  pub expires_at : ℕ
  pub revoked_at : Option ℕ
  pub revocation_reason : Option RevocationReason

-- `refresh_tokens`
pub record Token : Type 0 where
  pub id : ℕ
  pub user_id : ℕ
  pub token_hash : ℕ
  pub jti : ℕ
  pub revoked : Bool
  pub expires_at : ℕ
  pub created_at : ℕ
  pub family_id : ℕ
  pub parent_token_id : Option ℕ
  pub rotated_at : Option ℕ

-- `device_token`, as far as a revocation reads it.
pub record Device : Type 0 where
  pub id : ℕ
  pub user_id : ℕ
  pub session_id : Option ℕ

pub record NewRefreshToken : Type 0 where
  pub id : ℕ
  pub hash : ℕ
  pub jti : ℕ
  pub expires_at : ℕ
  pub created_at : ℕ

pub record MobileSessionIdentity : Type 0 where
  pub user_id : ℕ
  pub session_id : ℕ

pub record Db : Type 0 where
  pub accounts : List Account
  pub families : List Family
  pub tokens : List Token
  pub devices : List Device

-- `$3::uuid IS NULL OR id = $3`
abbrev any_or : Option ℕ → ℕ → Bool
any_or none x = true
any_or (some y) x = x == y

-- `$2::uuid IS NULL OR session_id = $2`, with a column that may be NULL.
abbrev any_or_null : Option ℕ → Option ℕ → Bool
any_or_null none x = true
any_or_null (some y) x = holds x y

pub lock_active_account : Db → ℕ → Bool
lock_active_account d user =
    count_where (λ (a : Account). a.user_id == user && not a.deleted && not a.is_banned) d.accounts
    == 1

pub active_family : Db → ℕ → ℕ → ℕ → Bool
active_family d now user session =
    count_where
      (λ (f : Family).
        f.id == session && f.user_id == user && is_null f.revoked_at && ltb now f.expires_at)
      d.families
    == 1

-- The columns that INSERT gives, with the defaults of the table.
pub new_token : ℕ → ℕ → NewRefreshToken → Option ℕ → Token
new_token user session n parent = record {
  id = n.id;
  user_id = user;
  token_hash = n.hash;
  jti = n.jti;
  revoked = false;
  expires_at = n.expires_at;
  created_at = n.created_at;
  family_id = session;
  parent_token_id = parent;
  rotated_at = none;
}

-- refresh_tokens_pkey, refresh_tokens_jti_key and uq_refresh_family_active: a row that would clash
-- with the new one.
abbrev clashes : Token → Token → Bool
clashes n t =
    t.id == n.id || t.jti == n.jti || t.family_id == n.family_id && not n.revoked && not t.revoked

insert_token : List Token → Token → Option (List Token)
insert_token tokens n = if exists_where (clashes n) tokens then none else some (n ∷ tokens)

-- What `revokeFamilies` matches and writes.
abbrev is_revocable : ℕ → Option ℕ → Family → Bool
is_revocable user session f = f.user_id == user && is_null f.revoked_at && any_or session f.id

abbrev revoked_family : ℕ → RevocationReason → Family → Family
revoked_family now reason f = record f { revoked_at = some now; revocation_reason = some reason }

abbrev is_live : ℕ → Option ℕ → Token → Bool
is_live user session t = t.user_id == user && not t.revoked && any_or session t.family_id

abbrev revoked_token : Token → Token
revoked_token t = record t { revoked = true }

pub revoke_families : Db → ℕ → ℕ → RevocationReason → Option ℕ → Db × ℕ
revoke_families d now user reason session = (
  record d {
    families = update_where (is_revocable user session) (revoked_family now reason) d.families;
    tokens = update_where (is_live user session) revoked_token d.tokens;
    devices =
        delete_where (λ (v : Device). v.user_id == user && any_or_null session v.session_id)
          d.devices;
  },
  count_where (is_revocable user session) d.families,
)

-- `lockToken`: the token of `jti` if the secret is authentic, its account active and it is unexpired.
pub lock_token : Db → ℕ → ℕ → ℕ → Option ℕ → Option Token
unfolding lock_active_account
lock_token d now jti hash owner = elim (find_where (λ (t : Token). t.jti == jti) d.tokens) [
  | none ↦ none
  | some candidate ↦
      if not (any_or owner candidate.user_id) || not (candidate.token_hash == hash)
      then none
      else if not (lock_active_account d candidate.user_id)
      then none
      else find_where (λ (t : Token). t.id == candidate.id && ltb now t.expires_at) d.tokens
]

new_family : ℕ → ℕ → NewRefreshToken → Family
new_family fresh user n = record {
  id = fresh;
  user_id = user;
  created_at = n.created_at;
  last_refreshed_at = n.created_at;
  expires_at = n.expires_at;
  revoked_at = none;
  revocation_reason = none;
}

unfoldable pub create : Db → ℕ → ℕ → NewRefreshToken → Option (Db × Option MobileSessionIdentity)
unfolding lock_active_account insert_token new_token new_family
create d fresh user token =
    if not (lock_active_account d user)
    then some (d, none)
    else if exists_where (λ (f : Family). f.id == fresh) d.families
    then none
    else elim (insert_token d.tokens (new_token user fresh token none)) [
      | none ↦ none
      | some tokens ↦ some (
        record d { families = new_family fresh user token ∷ d.families; tokens = tokens },
        some (record { user_id = user; session_id = fresh }),
      )
    ]

abbrev rotated : ℕ → Token → Token
rotated now t = record t { revoked = true; rotated_at = some now }

abbrev refreshed : ℕ → NewRefreshToken → Family → Family
refreshed now next f = record f { last_refreshed_at = now; expires_at = next.expires_at }

-- `rotate` once the token is known to be current.
pub replace_token : Db → ℕ → Token → NewRefreshToken → Option (Db × Option MobileSessionIdentity)
unfolding insert_token new_token
replace_token d now token next =
    elim (insert_token (update_where (λ (t : Token). t.id == token.id) (rotated now) d.tokens)
      (new_token token.user_id token.family_id next (some token.id))) [
        | none ↦ none
        | some tokens ↦ some (
          record d {
            tokens = tokens;
            families =
                update_where (λ (f : Family). f.id == token.family_id) (refreshed now next)
                  d.families;
          },
          some (record { user_id = token.user_id; session_id = token.family_id }),
        )
      ]

pub rotate : Db → ℕ → ℕ → ℕ → NewRefreshToken → Option (Db × Option MobileSessionIdentity)
unfolding lock_token active_family revoke_families replace_token
rotate d now jti hash next = elim (lock_token d now jti hash none) [
  | none ↦ some (d, none)
  | some token ↦
      if not (active_family d now token.user_id token.family_id)
      then some (d, none)
      else if token.revoked
      then some (
        if is_set token.rotated_at
            then (revoke_families d now token.user_id replay (some token.family_id)).0
            else d,
        none,
      )
      else replace_token d now token next
]

-- `logout`; `device` is the optional `deviceId`.
pub logout : Db → ℕ → ℕ → ℕ → ℕ → ℕ → Option ℕ → Db × Bool
unfolding lock_token active_family revoke_families
logout d now user session jti hash device = elim (lock_token d now jti hash (some user)) [
  | none ↦ (d, false)
  | some token ↦
      if not (token.family_id == session) || not (active_family d now user session)
      then (d, false)
      else (
        elim device [
          | none ↦ (revoke_families d now user logout_one (some session)).0
          | some v ↦
              let d' = (revoke_families d now user logout_one (some session)).0 in
              record d' {
                devices = delete_where (λ (w : Device). w.id == v && w.user_id == user) d'.devices;
              }
        ],
        true,
      )
]

abbrev revoke_reason : Option ℕ → RevocationReason
revoke_reason none = logout_all
revoke_reason (some t) = user_revoked

-- `revoke`: one session of the user, or all of them.
pub revoke : Db → ℕ → ℕ → ℕ → Option ℕ → Db × Option ℕ
unfolding lock_active_account active_family revoke_families
revoke d now user current target =
    let (d', count) = revoke_families d now user (revoke_reason target) target in
    if not (lock_active_account d user) || not (active_family d now user current)
    then (d, none)
    else elim target [
      | none ↦ (d', some count)
      | some t ↦
          if exists_where (λ (f : Family). f.id == t && f.user_id == user) d.families
          then (d', some 1)
          else (d, some 0)
    ]

-- `isActive`
pub is_active : Db → ℕ → ℕ → ℕ → Bool
unfolding lock_active_account active_family
is_active d now user session = active_family d now user session && lock_active_account d user
