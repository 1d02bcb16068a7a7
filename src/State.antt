-- ===== src/State.antt =====
-- internal/state/state.go: what is believed of a vehicle, and how one point changes it.
pub mod Laws
pub mod Redis
pub mod Watermark
pub mod Rebuild
pub mod Offline
use tide.Prelude.{
  ℕ, ◌*◌, String, Bool, true, false, ◌&&◌, ◌||◌, not, if◌then◌else◌, ◌==◌, Option, none, some, ℤ,
  pos, negsuc, zero, suc, List, [], ◌∷◌, ◌++◌, ltb_ℤ, Assoc, lookup, insert, map, wrap64, foldl,
}
use tide.Prelude.Sort.{sort_by}
use mathlib.Core.Option.{get_or}
use tide.Schemas.Clock.{Time, Duration, zero_time, is_zero, before, sub, nanos}
use tide.Schemas.Runtime.{Runtime}
use tide.Schemas.Telemetry.{Telemetry}

-- The strings of `Motion` and `Presence`; `unset` is the empty string.
pub data Motion : Type 0 where
  unset unknown moving idle stopped : Motion

pub data Presence : Type 0 where
  unset online offline : Presence

abbrev pub motion_text : Motion → String
motion_text Motion.unset = ""
motion_text unknown = "unknown"
motion_text moving = "moving"
motion_text idle = "idle"
motion_text stopped = "stopped"

abbrev pub is_unset : Motion → Bool
is_unset Motion.unset = true
is_unset _ = false

abbrev pub is_moving : Motion → Bool
is_moving moving = true
is_moving _ = false

abbrev pub is_idle : Motion → Bool
is_idle idle = true
is_idle _ = false

abbrev pub same_motion : Motion → Motion → Bool
same_motion Motion.unset Motion.unset = true
same_motion unknown unknown = true
same_motion moving moving = true
same_motion idle idle = true
same_motion stopped stopped = true
same_motion _ _ = false

abbrev pub is_offline : Presence → Bool
is_offline offline = true
is_offline _ = false

pub record VehicleState (F : Type 0) : Type 0 where
  pub tenant_id : String
  pub vehicle_id : String
  pub motion : Motion
  pub presence : Presence
  pub ignition : Option Bool
  pub speed_kmh : Option F
  pub lat : F
  pub lng : F
  pub last_seen : Time
  pub trip_id : String
  pub geofences : List String
  pub updated_at : Time

pub record Transition : Type 0 where
  pub dimension : String
  -- the fields `From` and `To`
  pub before : String
  pub after : String
  pub at : Time

abbrev pub default_cadence_secs : ℕ
default_cadence_secs = 300

abbrev pub offline_multiplier : ℕ
offline_multiplier = 3

abbrev pub ignition_text : Option Bool → String
ignition_text none = ""
ignition_text (some true) = "on"
ignition_text (some false) = "off"

-- `if prevStr != curStr` with the transition that it emits, for a point that reports the ignition.
pub ignition_change : Option Bool → Option Bool → Time → List Transition
ignition_change prev none at = []
ignition_change prev (some on) at =
    let was = ignition_text prev in
    let now = ignition_text (some on) in
    if was == now
    then []
    else record { dimension = "ignition"; before = was; after = now; at = at } ∷ []

abbrev pub newer {ℓ} : {A : Type ℓ} → Option A → Option A → Option A
newer old none = old
newer old (some a) = some a

abbrev pub known_motion : Motion → Motion
known_motion Motion.unset = unknown
known_motion m = m

abbrev pub known_presence : Presence → Presence
known_presence Presence.unset = online
known_presence p = p

-- The ignition decides between idle and stopped; without one the last value stands.
abbrev engine_motion : Option Bool → Motion → Motion
engine_motion none otherwise = otherwise
engine_motion (some true) otherwise = idle
engine_motion (some false) otherwise = stopped

abbrev pub motion_change : Motion → Motion → Time → List Transition
motion_change prev m at =
    if same_motion m prev
    then []
    else record { dimension = "motion"; before = motion_text prev; after = motion_text m; at = at }
      ∷ []

abbrev pub presence_change : Presence → Time → List Transition
presence_change prev at =
    if is_offline prev
    then record { dimension = "presence"; before = "offline"; after = "online"; at = at } ∷ []
    else []

-- `cadenceSecs*OfflineMultiplier` seconds as a `time.Duration`, in `int64` arithmetic.
unfoldable pub silence_limit : ℤ → Duration
silence_limit (pos (suc n)) = wrap64 (suc n * offline_multiplier * nanos)
silence_limit _ = wrap64 (default_cadence_secs * offline_multiplier * nanos)

module _ {F : Type 0} ⦃r : Runtime F⦄ where
  open r use {flt, fle, of_int}

  -- `VehicleState{}`
  abbrev pub zero_state : VehicleState F
  zero_state = record {
    tenant_id = "";
    vehicle_id = "";
    motion = Motion.unset;
    presence = Presence.unset;
    ignition = none;
    speed_kmh = none;
    lat = of_int (pos 0);
    lng = of_int (pos 0);
    last_seen = zero_time;
    trip_id = "";
    geofences = [];
    updated_at = zero_time;
  }

  -- `classifyMotion` once a speed is known: above 5 is moving, and leaving that needs less than 3.
  classify_speed : Motion → F → Option Bool → Motion
  classify_speed prev s ignition =
      if is_moving prev && fle (of_int (pos 3)) s
      then moving
      else if flt (of_int (pos 5)) s
      then moving
      else if flt s (of_int (pos 3))
      then engine_motion ignition stopped
      else engine_motion ignition (known_motion prev)

  unfoldable pub classify_motion : Motion → Option F → Option Bool → Motion
  unfolding classify_speed
  classify_motion prev none ignition = known_motion prev
  classify_motion prev (some s) ignition = classify_speed prev s ignition

  -- Older than the watermark.
  abbrev pub is_late : VehicleState F → Telemetry F → Bool
  is_late prev t = not (is_zero prev.last_seen) && before t.timestamp prev.last_seen

  -- What `Apply` sets whether or not the point is late.
  abbrev pub identified : VehicleState F → Telemetry F → Time → VehicleState F
  identified prev t now = record prev {
    motion = known_motion prev.motion;
    presence = known_presence prev.presence;
    tenant_id = t.tenant_id;
    vehicle_id = t.vehicle_id;
    updated_at = now;
  }

  -- What a point that is not late leaves behind.
  unfoldable pub fresh_state : VehicleState F → Telemetry F → Time → VehicleState F
  fresh_state prev t now =
      let next = identified prev t now in
      let m = classify_motion prev.motion t.speed_kmh t.ignition in
      record next {
        motion = if same_motion m prev.motion then next.motion else m;
        lat = t.location.lat;
        lng = t.location.lng;
        speed_kmh = t.speed_kmh;
        ignition = newer prev.ignition t.ignition;
        last_seen = t.timestamp;
        presence = online;
      }

  -- What it emits.
  pub fresh_changes : VehicleState F → Telemetry F → List Transition
  unfolding ignition_change
  fresh_changes prev t =
      motion_change prev.motion (classify_motion prev.motion t.speed_kmh t.ignition) t.timestamp
      ++ ignition_change prev.ignition t.ignition t.timestamp
      ++ presence_change prev.presence t.timestamp

  -- `Engine.Apply` at the wall-clock time `now`.
  unfoldable pub apply : VehicleState F → Telemetry F → Time → VehicleState F × List Transition
  unfolding fresh_state fresh_changes
  apply prev t now =
      if is_late prev t
      then (identified prev t now, [])
      else (fresh_state prev t now, fresh_changes prev t)

module _ {F : Type 0} where
  -- `CheckOffline`
  unfoldable pub check_offline : VehicleState F → ℤ → Time → VehicleState F × Option Transition
  check_offline s cadence_secs now =
      if is_zero s.last_seen || is_offline s.presence
      then (s, none)
      else if ltb_ℤ (silence_limit cadence_secs) (sub now s.last_seen)
      then (
        record s { presence = offline },
        some (record { dimension = "presence"; before = "online"; after = "offline"; at = now }),
      )
      else (s, none)

-- `MemoryStore`
pub record MemoryStore (F : Type 0) : Type 0 where
  pub states : Assoc (VehicleState F)

module _ {F : Type 0} where
  abbrev pub empty_store : MemoryStore F
  empty_store = record { states = [] }

  -- `Get`; a miss is `none`
  unfoldable pub get_state : String → MemoryStore F → Option (VehicleState F)
  get_state vehicle_id s = lookup vehicle_id s.states

  unfoldable pub set_state : VehicleState F → MemoryStore F → MemoryStore F
  set_state v s = record s { states = insert v.vehicle_id v s.states }

  unfoldable pub list_ids : MemoryStore F → List String
  list_ids s = map (λ e. e.0) s.states

  -- `RebuildFrom`: `byVehicle`, then for each vehicle the points in event-time order from the zero
  -- state. All of it at one reading of the clock, which only the stamps of the updates show.
  unfoldable pub add_to : Assoc (List (Telemetry F)) → Telemetry F → Assoc (List (Telemetry F))
  add_to groups t = insert t.vehicle_id (get_or (lookup t.vehicle_id groups) [] ++ (t ∷ [])) groups

  unfoldable pub by_vehicle : List (Telemetry F) → Assoc (List (Telemetry F))
  by_vehicle = foldl add_to []

  abbrev pub earlier : Telemetry F → Telemetry F → Bool
  earlier t u = before t.timestamp u.timestamp

module _ {F : Type 0} ⦃r : Runtime F⦄ where
  unfoldable pub replay_points : Time → List (Telemetry F) → VehicleState F
  replay_points now points =
      foldl (λ cur p. (apply cur p now).0) zero_state (sort_by earlier points)

  abbrev pub rebuilt : Time → String → List (Telemetry F) → VehicleState F
  rebuilt now vid points = record (replay_points now points) { vehicle_id = vid }

  unfoldable pub set_all : Time → Assoc (List (Telemetry F)) → MemoryStore F → MemoryStore F
  set_all now [] store = store
  set_all now ((vid, points) ∷ groups) store =
      set_all now groups (set_state (rebuilt now vid points) store)

  unfoldable pub rebuild_from : Time → MemoryStore F → List (Telemetry F) → MemoryStore F
  unfolding set_all by_vehicle
  rebuild_from now store log = set_all now (by_vehicle log) store
