-- ===== src/Pipeline.antt =====
-- internal/pipeline/pipeline.go: the one processing path, `Pipeline.Process`.
pub mod Memory
pub mod Laws
use mathlib.Core.Option.{get_or}
use tide.Prelude.{
  String, Bool, true, false, if◌then◌else◌, Option, none, some, List, [], ◌∷◌, ◌++◌, ◌+◌,
}
pub use tide.Prelude.Results.{Result, ok, err}
use tide.Schemas.Clock.{Time, hour, after}
use tide.Schemas.Runtime.{Runtime}
use tide.Schemas.Telemetry.{Telemetry, Invalid, validate, dedup_key}
use tide.Schemas.Events.{Event}
use tide.State.{VehicleState, apply, zero_state}

-- The fields of `Pipeline`, as operations on a world `W` that can fail with an `E`. `Geo` and `Rules` are
-- `none` where they are nil.
pub record Ports (F E W : Type 0) : Type 0 where
  pub seen : Time → String → W → Result E Bool × W
  pub append : Telemetry F → W → Option E × W
  pub get : String → W → Result E (Option (VehicleState F)) × W
  pub set : VehicleState F → W → Option E × W
  pub detect : Telemetry F → VehicleState F → W → List (Event F) × W
  pub geo : Option (Telemetry F → W → List (Event F) × W)
  pub rules : Option (Time → Telemetry F → VehicleState F → List (Event F) → W → List (Event F) × W)
  pub publish : Event F → W → Option E × W

-- The readings of the clock of one call.
pub record Clock : Type 0 where
  pub checked : Time
  pub seen : Time
  pub updated : Time
  pub evaluated : Time

pub data ProcessError (F E : Type 0) : Type 0 where
  invalid : Invalid → ProcessError F E
  too_far_in_future : ProcessError F E
  failed : E → ProcessError F E
  -- `PublishError`, with the events that were computed
  publish_failed : List (Event F) → E → ProcessError F E

-- `([]events.Event, bool, error)`
pub record Outcome (F E : Type 0) : Type 0 where
  pub events : List (Event F)
  pub dup : Bool
  pub error : Option (ProcessError F E)

abbrev pub max_future_skew : Time
max_future_skew = hour

module _ {F E W : Type 0} ⦃r : Runtime F⦄ (p : Ports F E W) (clock : Clock) where
  open p use {seen, append, get, set, detect, geo, rules, publish}

  abbrev stopped : ProcessError F E → Outcome F E
  stopped e = record { events = []; dup = false; error = some e }

  -- The loop over the events; the first error ends it.
  unfoldable pub publish_all : List (Event F) → W → Option E × W
  publish_all [] w = (none, w)
  publish_all (e ∷ es) w =
      let (failure, w') = publish e w in
      let rest = publish_all es w' in elim failure [ some x ↦ (some x, w') | none ↦ rest ]

  publish_events : List (Event F) → W → Outcome F E × W
  unfolding publish_all
  publish_events evs w =
      let (failure, w') = publish_all evs w in
      elim failure [
        | some x ↦ (record { events = evs; dup = false; error = some (publish_failed evs x) }, w')
        | none ↦ (record { events = evs; dup = false; error = none }, w')
      ]

  with_geo : Telemetry F → List (Event F) → W → List (Event F) × W
  with_geo t evs w = elim geo [
    | none ↦ (evs, w)
    | some evaluate ↦ let (more, w') = evaluate t w in (evs ++ more, w')
  ]

  with_rules : Telemetry F → VehicleState F → List (Event F) → W → List (Event F) × W
  with_rules t next evs w = elim rules [
    | none ↦ (evs, w)
    | some evaluate ↦ let (more, w') = evaluate clock.evaluated t next evs w in (evs ++ more, w')
  ]

  -- From the detectors on.
  derive : Telemetry F → VehicleState F → W → Outcome F E × W
  unfolding with_geo with_rules publish_events
  derive t next w =
      let (found, w₁) = detect t next w in
      let (placed, w₂) = with_geo t found w₁ in
      let (evs, w₃) = with_rules t next placed w₂ in publish_events evs w₃

  stored : Telemetry F → VehicleState F → W → Outcome F E × W
  unfolding derive
  stored t next w =
      let (failure, w') = set next w in
      elim failure [ some x ↦ (stopped (failed x), w') | none ↦ derive t next w' ]

  logged : Telemetry F → W → Outcome F E × W
  unfolding stored
  logged t w =
      let (prev, w') = get t.vehicle_id w in
      elim prev [
        | err x ↦ (stopped (failed x), w')
        | ok s ↦ stored t (apply (get_or s zero_state) t clock.updated).0 w'
      ]

  fresh : Telemetry F → W → Outcome F E × W
  unfolding logged
  fresh t w =
      let (failure, w') = append t w in
      elim failure [ some x ↦ (stopped (failed x), w') | none ↦ logged t w' ]

  checked : Telemetry F → Result E Bool → W → Outcome F E × W
  unfolding fresh
  checked t (err x) w = (stopped (failed x), w)
  checked t (ok true) w = (record { events = []; dup = true; error = none }, w)
  checked t (ok false) w = fresh t w

  abbrev pub is_future : Telemetry F → Bool
  is_future t = after t.timestamp (clock.checked + max_future_skew)

  unfoldable pub process : Telemetry F → W → Outcome F E × W
  unfolding checked
  process t w = elim (validate t) [
    | some x ↦ (stopped (invalid x), w)
    | none ↦
        if is_future t
        then (stopped too_far_in_future, w)
        else let (dup, w') = seen clock.seen (dedup_key t) w in checked t dup w'
  ]
