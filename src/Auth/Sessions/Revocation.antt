-- ===== src/Auth/Sessions/Revocation.antt =====
-- The end of sessions keeps their tables sound.
use histae_api.Prelude.{
  ℕ, exists_where, ◌==◌, inl, inr, none, some, Option, List, Bool-cases, Option-cases, delete_where,
  ◌&&◌, ◌||◌, not,
}
use histae_api.Auth.Sessions.{
  Db, Family, lock_token, active_family, lock_active_account, revoke, Device, logout,
  revoke_families, revoke_reason, logout_one,
}
use histae_api.Auth.Sessions.Invariant.{IsSound, revoke_families-IsSound}

-- The devices are no part of the invariant.
other_devices :
    (d : Db) (devices : List Device) → IsSound d → IsSound (record d { devices = devices })
other_devices d devices h = record {
  ids = h.ids;
  jtis = h.jtis;
  one_active = h.one_active;
  families = h.families;
  backed = h.backed;
}

pub logout-IsSound :
    (d : Db) (now user session jti hash : ℕ) (device : Option ℕ)
    → IsSound d
    → IsSound (logout d now user session jti hash device).0
unfolding logout
logout-IsSound d now user session jti hash device h =
    elim (Option-cases (lock_token d now jti hash (some user))) [
      | inl lost ↦ rw (lost, logout) h
      | inr (t, found) ↦
          elim (Bool-cases
            (not (t.family_id == session) || not (active_family d now user session))) [
              | inl other ↦ rw (found, logout) (rw other h)
              | inr live ↦ rw (found, logout) (rw live (ended device))
            ]
    ]
  where
    gone : IsSound (revoke_families d now user logout_one (some session)).0
    gone = revoke_families-IsSound d now user logout_one (some session) h

    ended :
        (v : Option ℕ)
        → IsSound (elim v [
          | none ↦ (revoke_families d now user logout_one (some session)).0
          | some v ↦
              let d' = (revoke_families d now user logout_one (some session)).0 in
              record d' {
                devices = delete_where (λ (w : Device). w.id == v && w.user_id == user) d'.devices;
              }
        ])
    ended none = gone
    ended (some v) = other_devices _ _ gone

pub revoke-IsSound :
    (d : Db) (now user current : ℕ) (target : Option ℕ)
    → IsSound d
    → IsSound (revoke d now user current target).0
unfolding revoke
revoke-IsSound d now user current none h =
    elim (Bool-cases (not (lock_active_account d user) || not (active_family d now user current))) [
      | inl barred ↦ rw barred h
      | inr may ↦ rw may (revoke_families-IsSound d now user (revoke_reason none) none h)
    ]
revoke-IsSound d now user current (some t) h =
    elim (Bool-cases (not (lock_active_account d user) || not (active_family d now user current))) [
      | inl barred ↦ rw barred h
      | inr may ↦
          elim (Bool-cases
            (exists_where (λ (f : Family). f.id == t && f.user_id == user) d.families)) [
              | inl known ↦ rw may (
                  rw known (revoke_families-IsSound d now user (revoke_reason (some t)) (some t) h))
              | inr other ↦ rw may (rw other h)
            ]
    ]
