-- ===== src/Engine.antt =====
-- cmd/tide-engine/server.go: the sweep for silent vehicles and the heartbeat of the engine.
pub mod Laws
pub mod Silence
pub mod Again
use tide.Prelude.{String, Option, none, some, List, [], ◌∷◌, ℤ, pos, Result, ok, err}
use tide.Schemas.Clock.{Time}
use tide.Schemas.Payload.{field, text, end}
use tide.Schemas.Runtime.{Runtime}
use tide.Schemas.Events.{Event, deterministic_id, current_schema_version}
use tide.State.{VehicleState, Transition, check_offline}
use tide.Adapters.{HealthStatus}
use tide.Adapters.Registry
use tide.Adapters.Registry.{heartbeats}

-- What the engine takes from the bundle, as operations on a world `W` that can fail with an `E`: the store
-- of the states and the bus. `list_ids` is `none` where the store is no `Lister`.
pub record Bundle (F E W : Type 0) : Type 0 where
  pub list_ids : Option (W → Result E (List String) × W)
  pub get : String → W → Result E (Option (VehicleState F)) × W
  pub set : VehicleState F → W → Option E × W
  pub publish : Event F → W → Option E × W

module _ {F : Type 0} ⦃r : Runtime F⦄ where
  open r use {rfc3339_nano}

  unfoldable pub offline_event : Time → String → VehicleState F → Event F
  offline_event now id s = record {
    id = deterministic_id rfc3339_nano "vehicle.offline.started" id now "sweep";
    kind = "vehicle.offline.started";
    tenant_id = s.tenant_id;
    vehicle_id = id;
    timestamp = now;
    rule_id = "";
    rule_version = "";
    correlation_id = "sweep";
    causation_id = "";
    payload = end;
    schema_version = current_schema_version;
  }

  abbrev pub engine_heartbeat : Time → Event F
  engine_heartbeat now = record {
    id = "hb-tide-engine";
    kind = "tide.heartbeat.created";
    tenant_id = "system";
    vehicle_id = "tide-engine";
    timestamp = now;
    rule_id = "";
    rule_version = "";
    correlation_id = "hb";
    causation_id = "";
    payload = field "name" (text "tide-engine") (field "state" (text "HEALTHY") end);
    schema_version = current_schema_version;
  }

  module _ {E W : Type 0} (b : Bundle F E W) (now : Time) where
    open b use {list_ids, get, set, publish}

    -- A vehicle that `CheckOffline` takes offline: the errors of the store and of the bus are ignored.
    abbrev pub taken_offline : String → VehicleState F → VehicleState F × Option Transition → W → W
    taken_offline id s (next, none) w = w
    taken_offline id s (next, some _) w =
        let (_, w₁) = set next w in let (_, w₂) = publish (offline_event now id s) w₁ in w₂

    -- What is done with the answer of the store.
    abbrev pub swept : String → Result E (Option (VehicleState F)) → W → W
    swept id (err e) w = w
    swept id (ok none) w = w
    swept id (ok (some s)) w = taken_offline id s (check_offline s (pos 0) now) w

    unfoldable pub sweep_ids : List String → W → W
    sweep_ids [] w = w
    sweep_ids (id ∷ ids) w = let (answer, w') = get id w in sweep_ids ids (swept id answer w')

    abbrev pub sweep_listed : Result E (List String) → W → W
    sweep_listed (err e) w = w
    sweep_listed (ok ids) w = sweep_ids ids w

    -- `sweep`
    unfoldable pub sweep : W → W
    unfolding sweep_ids
    sweep w = elim list_ids [ none ↦ w | some list ↦ let (ids, w') = list w in sweep_listed ids w' ]

    -- `heartbeat`: the engine's own, then one for each source.
    unfoldable pub heartbeat :
        (Registry.Adapter → HealthStatus F) → (Registry.Adapter → F) → List Registry.Adapter → W → W
    heartbeat health elapsed regs w =
        let (_, w') = publish (engine_heartbeat now) w in
        heartbeats publish now health elapsed regs w'
