-- ===== src/Dedup/Laws.antt =====
-- What `MemoryStore.Seen` promises (internal/dedup/dedup.go).
use tide.Prelude.{
  String, true, false, ◌≡◌, ◌≢◌, insert, lookup-insert_self, lookup-insert_ne, some, none, arith,
  ltb_ℤ, List, [], ◌∷◌, Option, if◌then◌else◌, ◌==◌,
}
use tide.Schemas.Clock.{Time, Duration, sub}
use tide.Dedup.{MemoryStore, seen, is_fresh, new_store}

-- What a history of calls `(time, key)`, the latest first, says of a key: when it was last let through.
pub accepted_at : Duration → String → List (Time × String) → Option Time
accepted_at ttl key [] = none
accepted_at ttl key ((now, k) ∷ calls) =
    let earlier = accepted_at ttl key calls in
    if k == key then (if is_fresh now ttl earlier then earlier else some now) else earlier

-- The store after the calls.
pub after_calls : Duration → List (Time × String) → MemoryStore
after_calls ttl [] = new_store ttl
after_calls ttl ((now, k) ∷ calls) = (seen now k (after_calls ttl calls)).1

abbrev window_of : Duration → Duration
window_of ttl = (new_store ttl).ttl

-- A key that was let through is a duplicate for the rest of its window, whatever calls with other keys
-- come between, and reporting it changes nothing.
pub seen_again :
    (m : MemoryStore) (now later : Time) (key other : String) (at_other : Time)
    → (seen now key m).0 ≡ false
    → other ≢ key
    → ltb_ℤ (sub later now) m.ttl ≡ true
    → let m' = (seen at_other other (seen now key m).1).1 in seen later key m' ≡ (true, m')
unfolding seen
seen_again m now later key other at_other fresh ne within =
    let s = insert key now m.seen_at in
    ground (arith, lookup-insert_self key now m.seen_at, lookup-insert_ne other key at_other s ne)

-- Directly after it was let through, a key is a duplicate for the rest of its window.
pub seen_twice :
    (m : MemoryStore) (now later : Time) (key : String)
    → (seen now key m).0 ≡ false
    → ltb_ℤ (sub later now) m.ttl ≡ true
    → seen later key (seen now key m).1 ≡ (true, (seen now key m).1)
unfolding seen
seen_twice m now later key fresh within = ground (arith, lookup-insert_self key now m.seen_at)
