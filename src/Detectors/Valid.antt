-- ===== src/Detectors/Valid.antt =====
-- Every event of `Detect` can be published (internal/detectors/detectors.go).
use mathlib.Core.Option.{get_or}
use tide.Prelude.{
  String, Bool, true, false, ◌≡◌, ◌≢◌, refl, arith, List, [], ◌++◌, not, ◌&&◌, ◌||◌, lookup, All,
  All-append, Bool-cases, inl, inr, eq_iff, ◌==◌, if◌then◌else◌, split,
}
use tide.Schemas.Runtime.{Runtime}
use tide.Schemas.Payload.{Fields}
use tide.Schemas.Telemetry.{Telemetry}
use tide.Schemas.Telemetry.Laws.{IsCanonical}
use tide.Schemas.Events.{Event, is_transition}
use tide.Schemas.Events.Laws.{IsWellFormed, deterministic_id-ne-nil}
use tide.State.{VehicleState, is_moving, is_idle}
use tide.Detectors.{
  Config, Tracker, SpeedingTrack, IdleTrack, TripTrack, mk_event, speeding_step, idle_step,
  trip_step, detect, speeding_switch, speeding_event, lasted, reached, since_or, is_over, is_off,
  trip_start, trip_end, trip_continue, trip_advance, new_speeding, new_idle, new_trip,
}

if-All {ℓ κ μ} :
    {A : Type ℓ} {B : Type κ} (P : B → Type μ) (b : Bool) (x y : A × List B)
    → All P x.1
    → All P y.1
    → All P (if b then x else y).1
if-All P true x y hx hy = hx
if-All P false x y hx hy = hy

-- What holds of every event that a detector can make of the point holds of all that it emits.
module _ {F : Type 0} ⦃r : Runtime F⦄ (P : Event F → Type 0) (t : Telemetry F) where
  abbrev pub Emitted : String → String → Type 0
  Emitted kind cause = (payload : Fields F) → P (mk_event kind t cause payload)

  speeding_switch-valid :
      (cfg : Config F) (st : SpeedingTrack) (over started : Bool)
      → Emitted "vehicle.speeding.started" "speeding"
      → Emitted "vehicle.speeding.continued" "speeding"
      → Emitted "vehicle.speeding.ended" "speeding"
      → All P (speeding_switch cfg t st over started).1
  unfolding speeding_switch speeding_event
  speeding_switch-valid cfg st true false a b c =
      elim (Bool-cases (lasted t.timestamp (since_or st.since t.timestamp) cfg.speed_for_secs)) [
        | inl long ↦ rw long (a _, tt)
        | inr short ↦ rw short tt
      ]
  speeding_switch-valid cfg st true true a b c =
      elim (Bool-cases (reached t.timestamp st.last_continued cfg.speed_continued_every)) [
        | inl due ↦ rw due (b _, tt)
        | inr early ↦ rw early tt
      ]
  speeding_switch-valid cfg st false true a b c = (c _, tt)
  speeding_switch-valid cfg st false false a b c = tt

  idle_step-valid :
      (cfg : Config F) (s : VehicleState F) (st : IdleTrack)
      → Emitted "vehicle.idling.started" "idling"
      → Emitted "vehicle.idling.ended" "idling"
      → All P (idle_step cfg t s st).1
  unfolding idle_step
  idle_step-valid cfg s st a b =
      let since = since_or st.since t.timestamp in
      elim (Bool-cases (is_idle s.motion)) [
        | inl idle ↦
            elim (Bool-cases (not st.started && lasted t.timestamp since cfg.idle_for_secs)) [
              | inl long ↦ rw (idle, long) (a _, tt)
              | inr short ↦ rw (idle, short) tt
            ]
        | inr busy ↦ elim (Bool-cases st.started) [
          | inl on ↦ rw (busy, on) (b _, tt)
          | inr off ↦ rw (busy, off) tt
        ]
      ]

  trip_start-valid :
      (moving : Bool) (st : TripTrack F)
      → Emitted "vehicle.trip.started" "trip"
      → All P (trip_start t moving st).1
  unfolding trip_start
  trip_start-valid moving st a = elim (Bool-cases (not st.active && moving)) [
    | inl go ↦ rw go (a _, tt)
    | inr stay ↦ rw stay tt
  ]

  trip_end-valid :
      (cfg : Config F) (st : TripTrack F)
      → Emitted "vehicle.trip.ended" "trip"
      → All P (trip_end cfg t st).1
  unfolding trip_end
  trip_end-valid cfg st a =
      elim (Bool-cases (is_off t.ignition || lasted t.timestamp st.last_move cfg.trip_end_secs)) [
        | inl over ↦ rw over (a _, tt)
        | inr on ↦ rw on tt
      ]

  trip_continue-valid :
      (cfg : Config F) (moving : Bool) (st : TripTrack F)
      → Emitted "vehicle.trip.ended" "trip"
      → All P (trip_continue cfg t moving st).1
  unfolding trip_continue
  trip_continue-valid cfg moving st a =
      if-All P st.active (trip_end cfg t (trip_advance t moving st)) (st, [])
        (trip_end-valid cfg (trip_advance t moving st) a) tt

  trip_step-valid :
      (cfg : Config F) (s : VehicleState F) (st : TripTrack F)
      → Emitted "vehicle.trip.started" "trip"
      → Emitted "vehicle.trip.ended" "trip"
      → All P (trip_step cfg t s st).1
  unfolding trip_step
  trip_step-valid cfg s st a b =
      let moving = is_moving s.motion in
      let st' = (trip_start t moving st).0 in
      All-append P (trip_start t moving st).1 (trip_continue cfg t moving st').1
        (trip_start-valid moving st a) (trip_continue-valid cfg moving st' b)

  pub detect-All :
      (s : VehicleState F) (tr : Tracker F)
      → ((kind cause : String)
          → (kind == "") ≡ false
          → is_transition kind ≡ true
          → Emitted kind cause)
      → All P (detect t s tr).1
  unfolding detect speeding_step is_transition split
  detect-All s tr emitted =
      let w = t.vehicle_id in
      let sp = get_or (lookup w tr.speeding) new_speeding in
      let id = get_or (lookup w tr.idling) new_idle in
      let trip = get_or (lookup w tr.trips) new_trip in
      let speeding =
        speeding_switch-valid tr.cfg sp (is_over tr.cfg t) sp.started
          (emitted "vehicle.speeding.started" "speeding" refl refl)
          (emitted "vehicle.speeding.continued" "speeding" refl refl)
          (emitted "vehicle.speeding.ended" "speeding" refl refl) in
      let idling =
        idle_step-valid tr.cfg s id (emitted "vehicle.idling.started" "idling" refl refl)
          (emitted "vehicle.idling.ended" "idling" refl refl) in
      let trips =
        trip_step-valid tr.cfg s trip (emitted "vehicle.trip.started" "trip" refl refl)
          (emitted "vehicle.trip.ended" "trip" refl refl) in
      All-append P (speeding_step tr.cfg t sp).1
        ((idle_step tr.cfg t s id).1 ++ (trip_step tr.cfg t s trip).1) speeding
        (All-append P (idle_step tr.cfg t s id).1 (trip_step tr.cfg t s trip).1 idling trips)

module _ {F : Type 0} ⦃r : Runtime F⦄ (t : Telemetry F) where
  pub detect-correlation :
      (s : VehicleState F) (tr : Tracker F)
      → All (λ e. e.correlation_id ≡ t.metadata.correlation_id) (detect t s tr).1
  unfolding mk_event
  detect-correlation s tr =
      detect-All (λ e. e.correlation_id ≡ t.metadata.correlation_id) t s tr
        (λ kind cause _ _ payload. refl)

module _ {F : Type 0} ⦃r : Runtime F⦄ (t : Telemetry F) (canonical : IsCanonical t)
    (correlated : t.metadata.correlation_id ≢ "") where
  mk_event-IsWellFormed :
      (kind cause : String) (payload : Fields F)
      → kind ≢ ""
      → is_transition kind ≡ true
      → IsWellFormed (mk_event kind t cause payload)
  unfolding mk_event
  mk_event-IsWellFormed kind cause payload given ends = record {
    id_given = deterministic_id-ne-nil r.rfc3339_nano kind t.vehicle_id t.timestamp cause;
    kind_given = given;
    tenant_given = canonical.tenant_given;
    vehicle_given = canonical.vehicle_given;
    kind_transition = ends;
    timestamp_given = canonical.timestamp_given;
    correlation_given = correlated;
    schema_current = refl;
  }

  -- Whatever the tracker and the state, `Detect` emits only events that pass `Validate`, for a canonical
  -- point that has a correlation identifier.
  pub detect-IsWellFormed :
      (s : VehicleState F) (tr : Tracker F) → All IsWellFormed (detect t s tr).1
  detect-IsWellFormed s tr = detect-All IsWellFormed t s tr (λ kind cause given ends payload.
      mk_event-IsWellFormed kind cause payload (λ e. ground (arith, eq_iff kind "")) ends)
