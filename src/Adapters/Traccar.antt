-- ===== src/Adapters/Traccar.antt =====
-- adapters/traccar/traccar.go: Traccar's positions as canonical telemetry. Its connection is in `Rest`.
pub mod Laws
use tide.Prelude.{
  ℕ, String, Bool, true, false, ◌<>◌, Option, none, some, ℤ, pos, List, [], ◌∷◌, Result, ok, err,
}
use tide.Schemas.Clock.{Time, zero_time}
use tide.Schemas.Payload.{Value, Fields, null, flag, num, text, array, object, field, end, get}
use tide.Schemas.Runtime.{Runtime}
use tide.Schemas.Telemetry.{Telemetry, Invalid, validate, current_schema_version}
use tide.Adapters.{HealthState, healthy, degraded}
use tide.Adapters.Rest.{Adapter, set_state}

pub record Position (F : Type 0) : Type 0 where
  pub id : ℤ
  pub device_id : ℤ
  pub protocol : String
  pub device_time : Time
  pub fix_time : Time
  pub latitude : F
  pub longitude : F
  -- in knots
  pub speed : F
  pub attributes : Option (Fields F)

pub data Error : Type 0 where
  unreadable : Error
  invalid : Invalid → Error

module _ {F : Type 0} where
  -- The cases of `any` that JSON gives; `toFloat` is `some` at a number only.
  abbrev pub to_bool : Option (Value F) → Option Bool
  to_bool (some (flag b)) = some b
  to_bool _ = none

  abbrev pub to_float : Option (Value F) → Option F
  to_float (some (num x)) = some x
  to_float _ = none

  abbrev pub attribute : String → Option (Fields F) → Option (Value F)
  attribute name none = none
  attribute name (some m) = get name m

  abbrev attributes_value : Option (Fields F) → Value F
  attributes_value none = null
  attributes_value (some m) = object m

  -- `if err := t.Validate(); err != nil { ... }`
  abbrev pub checked : Telemetry F → Option Invalid → Result Error (Telemetry F)
  checked t none = ok t
  checked t (some x) = err (invalid x)

-- `traccar-%d`
abbrev pub name_of : (ℤ → String) → ℤ → String
name_of print id = "traccar-" <> print id

module _ {F : Type 0} ⦃r : Runtime F⦄ where
  open r use {fmul, decimal, print_int}

  abbrev pub knots_to_kmh : F → F
  knots_to_kmh speed = fmul speed (decimal 1852 3)

  -- The literal of `PositionToTelemetry` with the attributes that it reads.
  unfoldable pub normalized : String → Position F → Time → Telemetry F
  normalized tenant p now = record {
    id = name_of print_int p.id;
    tenant_id = tenant;
    vehicle_id = name_of print_int p.device_id;
    device_id = name_of print_int p.device_id;
    timestamp = p.fix_time;
    received_at = now;
    processed_at = zero_time;
    location = record { lat = p.latitude; lng = p.longitude; altitude = none; accuracy = none };
    speed_kmh = some (knots_to_kmh p.speed);
    heading = none;
    ignition = to_bool (attribute "ignition" p.attributes);
    odometer_m = to_float (attribute "odometer" p.attributes);
    fuel_level_l = none;
    battery_volt = none;
    engine = none;
    sensors = none;
    raw = some (
        field "protocol" (text p.protocol)
          (field "attributes" (attributes_value p.attributes) end));
    source = record {
      provider = "traccar";
      protocol = "traccar-rest";
      device_id = print_int p.device_id;
    };
    metadata = record {
      correlation_id = name_of print_int p.id;
      schema_version = current_schema_version;
      sequence = none;
      quality = "good";
    };
  }

  unfoldable pub position_to_telemetry : String → Position F → Time → Result Error (Telemetry F)
  unfolding normalized
  position_to_telemetry tenant p now =
      checked (normalized tenant p now) (validate (normalized tenant p now))

  -- `HandleRaw`, with what `json.Unmarshal` makes of the payload.
  unfoldable pub handle_raw : Adapter → Option (Position F) → Time → Result Error (Telemetry F)
  unfolding position_to_telemetry
  handle_raw a none now = err unreadable
  handle_raw a (some p) now = position_to_telemetry a.tenant p now

-- One tick of the poll in `Subscribe`: what `fetchPositions` gave, and the handler over a world `W` for each
-- position, in order; the first error ends the subscription.
module _ {F E W : Type 0} (handler : Position F → W → Option E × W) where
  unfoldable pub handle_all : List (Position F) → W → Option E × W
  handle_all [] w = (none, w)
  handle_all (p ∷ ps) w =
      let (error, w') = handler p w in
      let rest = handle_all ps w' in elim error [ some e ↦ (some e, w') | none ↦ rest ]

  unfoldable pub poll : Option (List (Position F)) → Adapter → W → Option E × Adapter × W
  unfolding handle_all set_state
  poll none a w = (none, set_state degraded a, w)
  poll (some ps) a w = let (error, w') = handle_all ps w in (error, set_state healthy a, w')

  -- The loop, over the answers of the ticks until the context is done.
  unfoldable pub subscribe :
      List (Option (List (Position F))) → Adapter → W → Option E × Adapter × W
  unfolding poll
  subscribe [] a w = (none, a, w)
  subscribe (answer ∷ answers) a w =
      let (error, a', w') = poll answer a w in
      let rest = subscribe answers a' w' in elim error [ some e ↦ (some e, a', w') | none ↦ rest ]
