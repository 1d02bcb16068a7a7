-- ===== src/Dedup.antt =====
-- internal/dedup/dedup.go: the keys that were seen, and `MemoryStore`.
pub mod Laws
pub mod Redis
use tide.Prelude.{
  ℕ, zero, ◌*◌, String, Bool, true, false, if◌then◌else◌, Assoc, lookup, insert, Option, none, some,
  ltb_ℤ, pos, List, [], ◌∷◌,
}
use tide.Schemas.Clock.{Time, Duration, sub, hour}

pub record MemoryStore : Type 0 where
  pub seen_at : Assoc Time
  pub ttl : Duration

-- A zero window means a day.
unfoldable pub new_store : Duration → MemoryStore
new_store ttl = record { seen_at = []; ttl = window ttl }
  where
    window : Duration → Duration
    window (pos zero) = pos (24 * hour)
    window d = d

-- The key is in the store, and its entry is younger than the window.
abbrev pub is_fresh : Time → Duration → Option Time → Bool
is_fresh now ttl none = false
is_fresh now ttl (some ts) = ltb_ℤ (sub now ts) ttl

-- `Seen` at the time `now`: whether the key is a duplicate. A new or expired key is recorded.
unfoldable pub seen : Time → String → MemoryStore → Bool × MemoryStore
seen now key m =
    if is_fresh now m.ttl (lookup key m.seen_at)
    then (true, m)
    else (false, record m { seen_at = insert key now m.seen_at })
