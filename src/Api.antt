-- ===== src/Api.antt =====
-- internal/api/security.go: the limiter of requests per client and window, and the refused methods.
pub mod Laws
pub mod Replies
pub mod Ingest
pub mod Events
pub mod Geofences
pub mod Connections
pub mod Simulate
pub mod Throttle
pub mod Forward
use tide.Prelude.{
  ◌==◌, ◌||◌, ℕ, ◌+◌, String, Bool, true, false, if◌then◌else◌, ltb, ltb_ℤ, leb_ℤ, Option, none,
  some, ℤ, pos, [], Assoc, lookup, insert,
}
use tide.Schemas.Clock.{Time, Duration, after, sub}

pub record Window : Type 0 where
  pub count : ℕ
  -- the field `reset`
  pub ends : Time

pub record RateLimiter : Type 0 where
  pub hits : Assoc Window
  pub limit : ℤ
  -- the field `Window`, which is not negative
  pub per : ℕ

unfoldable pub new_rate_limiter : ℤ → ℕ → RateLimiter
new_rate_limiter limit per = record { hits = []; limit = limit; per = per }

-- No window yet, or one that is over.
abbrev pub is_over : Time → Option Window → Bool
is_over now none = true
is_over now (some w) = after now w.ends

-- A request in a window that is not over.
abbrev pub count_in : Time → String → RateLimiter → Option Window → (Bool × Duration) × RateLimiter
count_in now ip l none = ((true, pos 0), l)
count_in now ip l (some w) =
    let l' = record l { hits = insert ip (record w { count = w.count + 1 }) l.hits } in
    if ltb_ℤ l.limit (pos (w.count + 1)) then ((false, sub w.ends now), l') else ((true, pos 0), l')

-- `Allow` for the client `ip`; the time of the answer is that of the request.
unfoldable pub allow : Time → String → RateLimiter → (Bool × Duration) × RateLimiter
allow now ip l =
    let found = lookup ip l.hits in
    let fresh : Window = record { count = 1; ends = now + l.per } in
    if leb_ℤ l.limit (pos 0)
    then ((true, pos 0), l)
    else if is_over now found
    then ((true, pos 0), record l { hits = insert ip fresh l.hits })
    else count_in now ip l found

-- `denyTrace`: the methods that are answered with 405 before any handler.
abbrev pub deny_trace : String → Bool
deny_trace method = method == "TRACE" || method == "TRACK" || method == "CONNECT"
