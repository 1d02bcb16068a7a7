-- ===== src/State/Laws.antt =====
-- `Apply` and `CheckOffline` emit a transition exactly where the belief changes (internal/state/state.go).
use tide.Prelude.{
  Bool-cases, Bool, true, false, ◌≡◌, refl, Option, none, some, [], arith, inl, inr, ◌↔◌,
}
use tide.Schemas.Clock.{Time}
use tide.Schemas.Runtime.{Runtime}
use tide.Schemas.Telemetry.{Telemetry}
use tide.State.{
  VehicleState, Motion, classify_motion, apply, is_late, same_motion, is_unset, newer, identified,
  motion_change, fresh_state, fresh_changes, ignition_change,
}

same_motion_iff : (a b : Motion) → (same_motion a b ≡ true) ↔ (a ≡ b)
same_motion_iff a b = ground arith

newer_again : (old new : Option Bool) → newer (newer old new) new ≡ newer old new
newer_again old none = refl
newer_again old (some b) = refl

ignition_change_again :
    (old new : Option Bool) (at : Time) → ignition_change (newer old new) new at ≡ []
unfolding ignition_change
ignition_change_again old none at = refl
ignition_change_again old (some true) at = refl
ignition_change_again old (some false) at = refl

motion_change_same : (m : Motion) (at : Time) → motion_change m m at ≡ []
motion_change_same m at = ground arith

module _ {F : Type 0} ⦃r : Runtime F⦄ where
  -- A second reading of the same speed and ignition does not change the motion again.
  pub classify_motion_idem :
      (m : Motion) (s : Option F) (ign : Option Bool)
      → classify_motion (classify_motion m s ign) s ign ≡ classify_motion m s ign
  unfolding classify_motion
  classify_motion_idem m none ign = ground arith
  classify_motion_idem m (some s) ign = ground arith

  classify_motion-set :
      (m : Motion) (s : Option F) (ign : Option Bool) → is_unset (classify_motion m s ign) ≡ false
  unfolding classify_motion
  classify_motion-set m none ign = ground arith
  classify_motion-set m (some s) ign = ground arith

  -- The motion after a point that is not late is the classified one.
  pub fresh_state-motion :
      (prev : VehicleState F) (t : Telemetry F) (now : Time)
      → (fresh_state prev t now).motion ≡ classify_motion prev.motion t.speed_kmh t.ignition
  unfolding fresh_state
  fresh_state-motion prev t now =
      let m = classify_motion prev.motion t.speed_kmh t.ignition in
      ground (
        arith,
        same_motion_iff m prev.motion,
        classify_motion-set prev.motion t.speed_kmh t.ignition,
      )

  motion_again :
      (prev : VehicleState F) (t : Telemetry F) (now : Time)
      → let m = (fresh_state prev t now).motion in
        motion_change m (classify_motion m t.speed_kmh t.ignition) t.timestamp ≡ []
  motion_again prev t now = rw (
    fresh_state-motion prev t now,
    classify_motion_idem prev.motion t.speed_kmh t.ignition,
    motion_change_same (classify_motion prev.motion t.speed_kmh t.ignition) t.timestamp,
  )

  fresh_changes_again :
      (prev : VehicleState F) (t : Telemetry F) (now : Time)
      → fresh_changes (fresh_state prev t now) t ≡ []
  unfolding fresh_state fresh_changes
  fresh_changes_again prev t now =
      rw (motion_again prev t now, ignition_change_again prev.ignition t.ignition t.timestamp)

  fresh_motion_again :
      (prev : VehicleState F) (t : Telemetry F) (now later : Time)
      → (fresh_state (fresh_state prev t now) t later).motion ≡ (fresh_state prev t now).motion
  fresh_motion_again prev t now later =
      let s = fresh_state prev t now in
      rw (
        fresh_state-motion s t later,
        fresh_state-motion prev t now,
        classify_motion_idem prev.motion t.speed_kmh t.ignition,
      )

  fresh_state_again :
      (prev : VehicleState F) (t : Telemetry F) (now later : Time)
      → fresh_state (fresh_state prev t now) t later
        ≡ record (fresh_state prev t now) { updated_at = later }
  unfolding fresh_state
  fresh_state_again prev t now later = λ i. record (fresh_state prev t now) {
    motion = fresh_motion_again prev t now later i;
    ignition = newer_again prev.ignition t.ignition i;
    updated_at = later;
  }

  fresh_not_late :
      (prev : VehicleState F) (t : Telemetry F) (now : Time)
      → is_late (fresh_state prev t now) t ≡ false
  unfolding fresh_state
  fresh_not_late prev t now = ground arith

  identified_again :
      (prev : VehicleState F) (t : Telemetry F) (now later : Time)
      → identified (identified prev t now) t later
        ≡ record (identified prev t now) { updated_at = later }
  identified_again prev t now later = ground arith

  -- A point that is applied a second time emits no transition, and changes nothing but the wall-clock
  -- stamp of the update.
  pub apply_again :
      (prev : VehicleState F) (t : Telemetry F) (now later : Time)
      → let once = (apply prev t now).0 in
        apply once t later ≡ (record once { updated_at = later }, [])
  unfolding apply
  apply_again prev t now later = elim (Bool-cases (is_late prev t)) [
    | inl late ↦ rw (late, late, identified_again prev t now later)
    | inr fresh ↦ rw (
      fresh,
      fresh_not_late prev t now,
      fresh_state_again prev t now later,
      fresh_changes_again prev t now,
    )
  ]
