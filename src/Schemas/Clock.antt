-- ===== src/Schemas/Clock.antt =====
-- `time.Time` and `time.Duration`: instants in nanoseconds since Go's zero time, and signed nanoseconds.
use tide.Prelude.{
  ℕ, zero, suc, ◌-◌, ◌*◌, ◌^◌, min, Bool, true, false, if◌then◌else◌, ltb, leb, ℤ, pos, negsuc,
  ◌*ℤ◌,
}

abbrev pub Time : Type 0
Time = ℕ

-- `time.Time{}`
abbrev pub zero_time : Time
zero_time = 0

abbrev pub is_zero : Time → Bool
is_zero zero = true
is_zero (suc _) = false

abbrev pub before : Time → Time → Bool
before t u = ltb t u

abbrev pub after : Time → Time → Bool
after t u = ltb u t

abbrev pub Duration : Type 0
Duration = ℤ

-- `t.Sub(u)`, which saturates at the ends of `int64`.
unfoldable pub sub : Time → Time → Duration
sub t u = if leb u t then pos (min (t - u) (2 ^ 63 - 1)) else negsuc (min (u - t) (2 ^ 63) - 1)

abbrev pub nanos : ℕ
nanos = 1_000_000_000

-- A number of seconds, as it is compared with the seconds of a duration.
abbrev pub seconds : ℤ → ℤ
seconds n = n *ℤ pos nanos

abbrev pub minute : ℕ
minute = 60 * nanos

abbrev pub hour : ℕ
hour = 60 * minute
