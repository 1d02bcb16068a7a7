-- ===== src/Api/Laws.antt =====
-- What the limiter promises (internal/api/security.go).
use tide.Prelude.{
  ℕ, suc, ◌+◌, ◌-◌, leb, ◌≤◌, String, true, ◌≡◌, if◌then◌else◌, some, pos, List, [], ◌∷◌, arith,
  lookup, insert, lookup-insert_self,
}
use tide.Schemas.Clock.{Time}
use tide.Api.{RateLimiter, Window, allow, is_over}

-- The requests of one client at the times of a list, the first one first: how many of them pass.
pub passed : List Time → String → RateLimiter → ℕ
passed [] ip l = 0
passed (now ∷ times) ip l =
    let (answer, l') = allow now ip l in
    let rest = passed times ip l' in if answer.0 then rest + 1 else rest

-- All times lie in the window.
abbrev pub AllBy : Time → List Time → Type 0
AllBy ends [] = Unit
AllBy ends (now ∷ times) = (now ≤ ends) × AllBy ends times

allow_in_window :
    (now : Time) (ip : String) (l : RateLimiter) (w : Window) (limit : ℕ)
    → lookup ip l.hits ≡ some w
    → l.limit ≡ pos (suc limit)
    → now ≤ w.ends
    → let (answer, l') = allow now ip l in
      (answer.0 ≡ leb (w.count + 1) (suc limit))
      × (lookup ip l'.hits ≡ some (record w { count = w.count + 1 }))
      × (l'.limit ≡ pos (suc limit))
unfolding allow
allow_in_window now ip l w limit found fixed by =
    let w' = record w { count = w.count + 1 } in ground (arith, lookup-insert_self ip w' l.hits)

-- In a window that is under way, no more requests of a client pass than the limit leaves.
passed-window :
    (times : List Time) (ip : String) (l : RateLimiter) (w : Window) (limit : ℕ)
    → lookup ip l.hits ≡ some w
    → l.limit ≡ pos (suc limit)
    → AllBy w.ends times
    → passed times ip l ≤ suc limit - w.count
unfolding passed
passed-window [] ip l w limit found fixed by = omega arith
passed-window (now ∷ times) ip l w limit found fixed (by, bys) =
    let (answer, stored, same) = allow_in_window now ip l w limit found fixed by in
    let l' = (allow now ip l).1 in
    let w' = record w { count = w.count + 1 } in
    let rest = passed-window times ip l' w' limit stored same bys in ground (arith, answer, rest)

-- A positive limit holds in every window: from the request that opens it until it ends, at most so many
-- requests of a client pass, however many are made.
pub passed-le-limit :
    (now : Time) (times : List Time) (ip : String) (l : RateLimiter) (limit : ℕ)
    → is_over now (lookup ip l.hits) ≡ true
    → l.limit ≡ pos (suc limit)
    → AllBy (now + l.per) times
    → passed (now ∷ times) ip l ≤ suc limit
unfolding passed allow
passed-le-limit now times ip l limit open_window fixed by =
    let fresh : Window = record { count = 1; ends = now + l.per } in
    let l' = record l { hits = insert ip fresh l.hits } in
    let rest =
      passed-window times ip l' fresh limit (lookup-insert_self ip fresh l.hits) fixed by in
    ground (arith, rest)
