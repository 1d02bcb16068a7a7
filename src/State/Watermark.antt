-- ===== src/State/Watermark.antt =====
-- The watermark of `Apply`: late points and `LastSeen` (internal/state/state.go).
use tide.Prelude.{
  max, Bool, true, false, ◌≡◌, refl, List, [], ◌∷◌, arith, ◌++◌, Option, some, none, ◌==◌,
  if◌then◌else◌, eq_refl, ◌≢◌,
}
use tide.Schemas.Clock.{Time}
use tide.Schemas.Runtime.{Runtime}
use tide.Schemas.Telemetry.{Telemetry}
use tide.State.{
  VehicleState, Transition, Motion, Presence, apply, is_late, fresh_state, fresh_changes,
  motion_change, ignition_change, presence_change, ignition_text, newer, known_motion,
}
use tide.State.Laws.{fresh_state-motion}

ignition_difference : Option Bool → Option Bool → Time → List Transition
ignition_difference old new at =
    if ignition_text old == ignition_text new
    then []
    else record {
      dimension = "ignition";
      before = ignition_text old;
      after = ignition_text new;
      at = at;
    }
      ∷ []

ignition_change_lem :
    (old new : Option Bool) (at : Time)
    → ignition_change old new at ≡ ignition_difference old (newer old new) at
unfolding ignition_change ignition_difference
ignition_change_lem old none at = rw (eq_refl (ignition_text old))
ignition_change_lem old (some on) at = refl

known_motion_set : (m : Motion) → m ≢ Motion.unset → known_motion m ≡ m
known_motion_set m h = ground arith

module _ {F : Type 0} ⦃r : Runtime F⦄ where
  -- The points of one vehicle in their order of arrival, all at one reading of the clock.
  pub apply_all : Time → VehicleState F → List (Telemetry F) → VehicleState F
  apply_all now s [] = s
  apply_all now s (t ∷ ts) = apply_all now (apply s t now).0 ts

  pub max_time : Time → List (Telemetry F) → Time
  max_time m [] = m
  max_time m (t ∷ ts) = max_time (max m t.timestamp) ts

  apply-last_seen :
      (s : VehicleState F) (t : Telemetry F) (now : Time)
      → (apply s t now).0.last_seen ≡ max s.last_seen t.timestamp
  unfolding apply fresh_state
  apply-last_seen s t now = ground arith

  -- The watermark is the latest event time that was ever applied, whatever the order of arrival.
  pub apply_all-last_seen :
      (now : Time) (s : VehicleState F) (ts : List (Telemetry F))
      → (apply_all now s ts).last_seen ≡ max_time s.last_seen ts
  unfolding apply_all max_time
  apply_all-last_seen now s [] = refl
  apply_all-last_seen now s (t ∷ ts) =
      rw (apply_all-last_seen now (apply s t now).0 ts, apply-last_seen s t now)

  -- What two beliefs say differently of the motion, the ignition and the presence.
  pub differences : VehicleState F → VehicleState F → Time → List Transition
  unfolding ignition_difference
  differences prev next at =
      motion_change prev.motion next.motion at
      ++ ignition_difference prev.ignition next.ignition at
      ++ presence_change prev.presence at

  fresh_changes-differences :
      (s : VehicleState F) (t : Telemetry F) (now : Time)
      → fresh_changes s t ≡ differences s (fresh_state s t now) t.timestamp
  unfolding fresh_changes differences fresh_state
  fresh_changes-differences s t now =
      rw (fresh_state-motion s t now, ignition_change_lem s.ignition t.ignition t.timestamp)

  -- A point that is not late emits exactly the differences between the beliefs before and after it, at
  -- its event time; after it the vehicle is online, at the reported position.
  pub apply_fresh :
      (s : VehicleState F) (t : Telemetry F) (now : Time)
      → is_late s t ≡ false
      → let (next, out) = apply s t now in
        (out ≡ differences s next t.timestamp)
        × (next.presence ≡ Presence.online)
        × (next.lat ≡ t.location.lat)
        × (next.lng ≡ t.location.lng)
        × (next.last_seen ≡ t.timestamp)
  unfolding apply
  apply_fresh s t now fresh = rw fresh (fresh_changes-differences s t now, refl, refl, refl, refl)

  -- A late point emits nothing, and a known motion, the position, the speed, the ignition and the
  -- watermark stay as they were.
  pub apply_late :
      (s : VehicleState F) (t : Telemetry F) (now : Time)
      → is_late s t ≡ true
      → s.motion ≢ Motion.unset
      → let (next, out) = apply s t now in
        (out ≡ [])
        × (next.motion ≡ s.motion)
        × (next.lat ≡ s.lat)
        × (next.lng ≡ s.lng)
        × (next.speed_kmh ≡ s.speed_kmh)
        × (next.ignition ≡ s.ignition)
        × (next.last_seen ≡ s.last_seen)
  unfolding apply
  apply_late s t now late known =
      rw late (refl, known_motion_set s.motion known, refl, refl, refl, refl, refl)
