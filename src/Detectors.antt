-- ===== src/Detectors.antt =====
-- internal/detectors/detectors.go: speeding, idling and trips, from points and states to events.
pub mod Lifecycle
pub mod Trips
pub mod Valid
use mathlib.Core.Option.{get_or}
use tide.Prelude.{
  ℕ, ◌*◌, String, Bool, true, false, not, ◌||◌, ◌&&◌, if◌then◌else◌, Option, none, some, ℤ, pos,
  List, [], ◌∷◌, ◌++◌, leb_ℤ, Assoc, lookup, insert,
}
use tide.Schemas.Clock.{Time, Duration, zero_time, is_zero, sub, seconds, minute}
use tide.Schemas.Payload.{Value, Fields, put, text, num, field, end}
use tide.Schemas.Runtime.{Runtime}
use tide.Schemas.Telemetry.{Telemetry}
use tide.Schemas.Events.{Event, deterministic_id, current_schema_version}
use tide.State.{VehicleState, is_moving, is_idle}

pub record Config (F : Type 0) : Type 0 where
  pub speed_limit_kmh : F
  pub speed_for_secs : ℤ
  pub speed_continued_every : Duration
  pub idle_for_secs : ℤ
  pub trip_end_secs : ℤ

pub record SpeedingTrack : Type 0 where
  pub since : Time
  pub started : Bool
  pub last_continued : Time

pub record IdleTrack : Type 0 where
  pub since : Time
  pub started : Bool

pub record TripTrack (F : Type 0) : Type 0 where
  pub active : Bool
  pub id : String
  pub started_at : Time
  pub last_move : Time
  pub distance_km : F
  pub last_lat : F
  pub last_lng : F
  pub has_last : Bool

pub record Tracker (F : Type 0) : Type 0 where
  pub cfg : Config F
  pub speeding : Assoc SpeedingTrack
  pub idling : Assoc IdleTrack
  pub trips : Assoc (TripTrack F)

-- `t.Sub(u).Seconds() >= float64(secs)`, and `t.Sub(u) >= d`.
unfoldable pub lasted : Time → Time → ℤ → Bool
lasted t u secs = leb_ℤ (seconds secs) (sub t u)

unfoldable pub reached : Time → Time → Duration → Bool
reached t u d = leb_ℤ d (sub t u)

abbrev pub new_speeding : SpeedingTrack
new_speeding = record { since = zero_time; started = false; last_continued = zero_time }

abbrev pub new_idle : IdleTrack
new_idle = record { since = zero_time; started = false }

abbrev since_or : Time → Time → Time
since_or since now = if is_zero since then now else since

abbrev pub is_off : Option Bool → Bool
is_off none = false
is_off (some on) = not on

unfoldable pub new_tracker : {F : Type 0} → Config F → Tracker F
new_tracker cfg = record { cfg = cfg; speeding = []; idling = []; trips = [] }

module _ {F : Type 0} ⦃r : Runtime F⦄ where
  open r use {flt, fadd, fsub, fmul, fdiv, of_int, pi, sin, cos, asin, sqrt, round, rfc3339_nano}

  abbrev int : ℕ → F
  int n = of_int (pos n)

  unfoldable pub default_config : Config F
  default_config = record {
    speed_limit_kmh = int 100;
    speed_for_secs = pos 10;
    speed_continued_every = pos minute;
    idle_for_secs = pos 300;
    trip_end_secs = pos 300;
  }

  abbrev pub new_trip : TripTrack F
  new_trip = record {
    active = false;
    id = "";
    started_at = zero_time;
    last_move = zero_time;
    distance_km = int 0;
    last_lat = int 0;
    last_lng = int 0;
    has_last = false;
  }

  radians : F → F
  radians x = fdiv (fmul x pi) (int 180)

  unfoldable pub haversine_km : F → F → F → F → F
  unfolding radians
  haversine_km lat1 lng1 lat2 lng2 =
      let half_lat = sin (fdiv (radians (fsub lat2 lat1)) (int 2)) in
      let half_lng = sin (fdiv (radians (fsub lng2 lng1)) (int 2)) in
      let a =
        fadd (fmul half_lat half_lat)
          (fmul (fmul (fmul (cos (radians lat1)) (cos (radians lat2))) half_lng) half_lng) in
      fmul (int (2 * 6371)) (asin (sqrt a))

  unfoldable pub mk_event : String → Telemetry F → String → Fields F → Event F
  mk_event kind t cause payload = record {
    id = deterministic_id rfc3339_nano kind t.vehicle_id t.timestamp cause;
    kind = kind;
    tenant_id = t.tenant_id;
    vehicle_id = t.vehicle_id;
    timestamp = t.timestamp;
    rule_id = "";
    rule_version = "";
    correlation_id = t.metadata.correlation_id;
    causation_id = t.id;
    payload = put "lng" (num t.location.lng) (put "lat" (num t.location.lat) payload);
    schema_version = current_schema_version;
  }

  unfoldable pub speed_of : Telemetry F → F
  speed_of t = get_or t.speed_kmh (int 0)

  abbrev speeding_payload : Config F → Telemetry F → Fields F
  speeding_payload cfg t =
      field "speedKmh" (num (speed_of t)) (field "limitKmh" (num cfg.speed_limit_kmh) end)

  speeding_event : Config F → Telemetry F → String → Event F
  speeding_event cfg t kind = mk_event kind t "speeding" (speeding_payload cfg t)

  -- The four cases of the switch, by `over` and `st.started`.
  speeding_switch :
      Config F → Telemetry F → SpeedingTrack → Bool → Bool → SpeedingTrack × List (Event F)
  speeding_switch cfg t st true false =
      let now = t.timestamp in
      let since = since_or st.since now in
      if lasted now since cfg.speed_for_secs
      then (
        record { since = since; started = true; last_continued = now },
        speeding_event cfg t "vehicle.speeding.started" ∷ [],
      )
      else (record st { since = since }, [])
  speeding_switch cfg t st true true =
      if reached t.timestamp st.last_continued cfg.speed_continued_every
      then (
        record st { last_continued = t.timestamp },
        speeding_event cfg t "vehicle.speeding.continued" ∷ [],
      )
      else (st, [])
  speeding_switch cfg t st false true = (
    record st { started = false; since = zero_time },
    speeding_event cfg t "vehicle.speeding.ended" ∷ [],
  )
  speeding_switch cfg t st false false = (record st { since = zero_time }, [])

  abbrev pub is_over : Config F → Telemetry F → Bool
  is_over cfg t = flt cfg.speed_limit_kmh (speed_of t)

  -- `speedingDetect`, on the track of one vehicle.
  unfoldable pub speeding_step :
      Config F → Telemetry F → SpeedingTrack → SpeedingTrack × List (Event F)
  unfolding speeding_switch speeding_event
  speeding_step cfg t st = speeding_switch cfg t st (is_over cfg t) st.started

  -- `idleDetect`, on the track of one vehicle.
  unfoldable pub idle_step :
      Config F → Telemetry F → VehicleState F → IdleTrack → IdleTrack × List (Event F)
  idle_step cfg t s st =
      let since = since_or st.since t.timestamp in
      if is_idle s.motion
      then if not st.started && lasted t.timestamp since cfg.idle_for_secs
        then (
          record { since = since; started = true },
          mk_event "vehicle.idling.started" t "idling" end ∷ [],
        )
        else (record st { since = since }, [])
      else (
        new_idle,
        if st.started then mk_event "vehicle.idling.ended" t "idling" end ∷ [] else [],
      )

  abbrev trip_id : Telemetry F → String
  trip_id t = deterministic_id rfc3339_nano "trip" t.vehicle_id t.timestamp "start"

  -- `if !st.active && moving { ... }`
  trip_start : Telemetry F → Bool → TripTrack F → TripTrack F × List (Event F)
  trip_start t moving st =
      if not st.active && moving
      then (
        record st {
          active = true;
          id = trip_id t;
          started_at = t.timestamp;
          last_move = t.timestamp;
          has_last = false;
        },
        mk_event "vehicle.trip.started" t "trip" (field "tripId" (text (trip_id t)) end) ∷ [],
      )
      else (st, [])

  -- The position, the distance and the last move of a trip under way.
  trip_advance : Telemetry F → Bool → TripTrack F → TripTrack F
  trip_advance t moving st = record st {
    distance_km =
        if st.has_last
        then fadd st.distance_km
            (haversine_km st.last_lat st.last_lng t.location.lat t.location.lng)
        else st.distance_km;
    last_lat = t.location.lat;
    last_lng = t.location.lng;
    has_last = true;
    last_move = if moving then t.timestamp else st.last_move;
  }

  -- `math.Round(st.distanceKm*100) / 100`
  abbrev rounded_km : F → F
  rounded_km d = fdiv (round (fmul d (int 100))) (int 100)

  trip_end : Config F → Telemetry F → TripTrack F → TripTrack F × List (Event F)
  trip_end cfg t st =
      if is_off t.ignition || lasted t.timestamp st.last_move cfg.trip_end_secs
      then (
        record st { active = false },
        mk_event "vehicle.trip.ended" t "trip" (
              field "tripId" (text st.id)
                (field "distanceKm" (num (rounded_km st.distance_km)) end))
            ∷ [],
      )
      else (st, [])

  -- `if st.active { ... }`
  trip_continue : Config F → Telemetry F → Bool → TripTrack F → TripTrack F × List (Event F)
  unfolding trip_advance trip_end
  trip_continue cfg t moving st =
      if st.active then trip_end cfg t (trip_advance t moving st) else (st, [])

  -- `tripDetect`, on the track of one vehicle.
  unfoldable pub trip_step :
      Config F → Telemetry F → VehicleState F → TripTrack F → TripTrack F × List (Event F)
  unfolding trip_start trip_continue
  trip_step cfg t s st =
      let moving = is_moving s.motion in
      let (st', started) = trip_start t moving st in
      let (st'', ended) = trip_continue cfg t moving st' in (st'', started ++ ended)

  -- `Detect`: the three detectors on the tracks of the point's vehicle, made at its first point.
  unfoldable pub detect : Telemetry F → VehicleState F → Tracker F → Tracker F × List (Event F)
  detect t s tr =
      let v = t.vehicle_id in
      let (sp, speeding) = speeding_step tr.cfg t (get_or (lookup v tr.speeding) new_speeding) in
      let (id, idling) = idle_step tr.cfg t s (get_or (lookup v tr.idling) new_idle) in
      let (trip, trips) = trip_step tr.cfg t s (get_or (lookup v tr.trips) new_trip) in
      (
        record tr {
          speeding = insert v sp tr.speeding;
          idling = insert v id tr.idling;
          trips = insert v trip tr.trips;
        },
        speeding ++ (idling ++ trips),
      )
