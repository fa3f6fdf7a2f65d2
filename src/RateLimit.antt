-- ===== src/RateLimit.antt =====
-- src/ratelimit/rate-limit.service.ts: the fixed window kept in memory when Redis is disabled, with its
-- sweep of expired entries. A storage key is a number; the Map is the list of its entries, of which
-- `get` finds the one of a key.
pub mod Sweep
pub mod Window
mod Tests
use histae_api.Prelude.{
  ℕ, max, ◌-◌, ◌/◌, ◌==◌, ◌∷◌, ◌+◌, none, some, Option, List, Bool, ltb, leb, if◌then◌else◌,
  find_where, delete_where, exists_where, update_where,
}

pub record Entry : Type 0 where
  pub key : ℕ
  pub count : ℕ
  pub expires_at : ℕ

-- `LimitPolicy`
pub record Policy : Type 0 where
  pub max : ℕ
  pub window_ms : ℕ

pub record Memory : Type 0 where
  pub entries : List Entry
  pub operations : ℕ

abbrev of_key : ℕ → Entry → Bool
of_key k e = e.key == k

abbrev get : List Entry → ℕ → Option Entry
get t k = find_where (of_key k) t

-- `Map.set`
set : List Entry → Entry → List Entry
set t e = if exists_where (of_key e.key) t then update_where (of_key e.key) (λ _. e) t else e ∷ t

abbrev sweep_interval : ℕ
sweep_interval = 256

-- `sweepExpiredMemoryEntries`
sweep : Memory → ℕ → Memory
sweep m now =
    if ltb (m.operations + 1) sweep_interval
    then record m { operations = m.operations + 1 }
    else record {
      entries = delete_where (λ (e : Entry). leb e.expires_at now) m.entries;
      operations = 0;
    }

-- The entry that a request counts in: the one of its key, or a new one if that has expired.
pub current : Option Entry → ℕ → ℕ → Policy → Entry
current none now key p = record { key = key; count = 0; expires_at = now + p.window_ms }
current (some e) now key p =
    if leb e.expires_at now
    then record { key = key; count = 0; expires_at = now + p.window_ms }
    else e

-- `memoryAllow`: the milliseconds to wait, or nothing for a request that is allowed.
pub memory_allow : Memory → ℕ → ℕ → Policy → Memory × Option ℕ
unfolding sweep current set
memory_allow m now key p =
    let m' = sweep m now in
    let e = current (get m'.entries key) now key p in
    let counted = record e { count = e.count + 1 } in
    (
      record m' { entries = set m'.entries counted },
      if ltb p.max counted.count then some (counted.expires_at - now) else none,
    )

-- `Math.max(1, Math.ceil(retryAfterMs / 1_000))`, the seconds that `enforce` announces.
retry_after_seconds : ℕ → ℕ
retry_after_seconds ms = max 1 ((ms + 999) / 1000)
