-- ===== src/State/Offline.antt =====
-- `CheckOffline` (internal/state/state.go).
use tide.Prelude.{
  ℕ, zero, suc, ◌*◌, ◌+◌, ◌<◌, ◌^◌, true, false, ◌≡◌, none, some, ℤ, pos, arith, ltb_ℤ, wrap64, ◌↔◌,
  ◌-◌,
}
use tide.Schemas.Clock.{Time, is_zero, sub, nanos}
use tide.State.{VehicleState, Presence, Transition, check_offline, silence_limit, is_offline}

-- An ordinary cadence does not wrap.
silence_limit-pos :
    (c : ℕ) → 0 < c → c * 3 * nanos < 2 ^ 63 → silence_limit (pos c) ≡ pos (c * 3 * nanos)
unfolding silence_limit wrap64
silence_limit-pos zero h k = absurd (omega arith)
silence_limit-pos (suc c) h k = ground arith

exceeds_iff :
    (n : ℕ) (now seen : Time)
    → n < 2 ^ 63 - 1
    → (ltb_ℤ (pos n) (sub now seen) ≡ true) ↔ (seen + n < now)
unfolding sub
exceeds_iff n now seen h = ground arith

module _ {F : Type 0} where
  -- A vehicle that was seen and is not offline is taken offline exactly when it has been silent for
  -- longer than three times its own cadence, for every cadence that three times over fits a `Duration`.
  pub check_offline_iff :
      (s : VehicleState F) (c : ℕ) (now : Time)
      → 0 < c
      → c * 3 * nanos < 2 ^ 63 - 1
      → is_zero s.last_seen ≡ false
      → is_offline s.presence ≡ false
      → ((check_offline s (pos c) now).0.presence ≡ Presence.offline)
        ↔ (s.last_seen + c * 3 * nanos < now)
  unfolding check_offline
  check_offline_iff s c now h k seen up =
      ground (arith, silence_limit-pos c h, exceeds_iff (c * 3 * nanos) now s.last_seen k)

  -- A check that emits a transition took a vehicle offline that was not, changed nothing but its
  -- presence, and a second check at any time, with any cadence, emits none and changes nothing.
  pub check_offline_once :
      (s : VehicleState F) (c c' : ℤ) (now later : Time) {tr : Transition}
      → (check_offline s c now).1 ≡ some tr
      → let s' = (check_offline s c now).0 in
        (s' ≡ record s { presence = Presence.offline })
        × (is_offline s.presence ≡ false)
        × (check_offline s' c' later ≡ (s', none))
  unfolding check_offline
  check_offline_once s c c' now later h = ground arith
