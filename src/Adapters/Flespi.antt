-- ===== src/Adapters/Flespi.antt =====
-- adapters/flespi/flespi.go: flespi's messages as canonical telemetry. Its connection is that of `Rest`.
pub mod Laws
use Prim.Native.Char.{code}
use Prim.Native.String
use tide.Prelude.{
  ℕ, String, Bool, true, false, not, ◌||◌, ◌<>◌, ◌==◌, eqb, if◌then◌else◌, is_some, Option, none,
  some, List, [], ◌∷◌, ◌++◌, Result, ok, err,
}
use tide.Schemas.Clock.{Time, zero_time}
use tide.Schemas.Payload.{Value, Fields, null, flag, num, text, array, object, get}
use tide.Schemas.Runtime.{Runtime}
use tide.Schemas.Telemetry.{Telemetry, Invalid, validate, current_schema_version}
use tide.Adapters.{Vehicle}
use tide.Adapters.Rest
use tide.Adapters.Rest.{Adapter, Client}

pub data Error : Type 0 where
  bad_json incomplete : Error
  invalid : Invalid → Error

-- `splitPath`: the loop over the bytes, with the parts so far and the one that is being read.
split_loop : List String → String → String → List String
split_loop out cur String.[] = out ++ (cur ∷ [])
split_loop out cur (String.◌∷◌ c p) = elim (eqb (code c) b'.') [
  | true ↦ split_loop (out ++ (cur ∷ [])) "" p
  | false ↦ split_loop out (cur <> String.◌∷◌ c String.[]) p
]

unfoldable pub split_path : String → List String
unfolding split_loop
split_path p = split_loop [] "" p

-- `joinKeys`: from the second key on, each behind a dot.
join_rest : String → List String → String
join_rest out [] = out
join_rest out (k ∷ ks) = join_rest (out <> "." <> k) ks

unfoldable pub join_keys : List String → String
unfolding join_rest
join_keys [] = ""
join_keys (k ∷ ks) = join_rest k ks

module _ {F : Type 0} where
  -- `asNum` at what JSON gives.
  abbrev pub as_num : Value F → Option F
  as_num (num x) = some x
  as_num _ = none

  abbrev pub as_text : Option (Value F) → String
  as_text (some (text s)) = s
  as_text _ = ""

  abbrev pub as_bool : Option (Value F) → Option Bool
  as_bool (some (flag b)) = some b
  as_bool _ = none

  abbrev pub as_object : Option (Value F) → Option (Fields F)
  as_object (some (object m)) = some m
  as_object _ = none

  abbrev pub as_num? : Option (Value F) → Option F
  as_num? none = none
  as_num? (some v) = as_num v

  -- `walk`, on the keys that are left, of which there is one: the flat remainder first, then one key down.
  walk : String → List String → Fields F → Option F
  unfolding join_keys
  walk k [] m = as_num? (get k m)
  walk k (next ∷ ks) m = elim (get (join_keys (k ∷ next ∷ ks)) m) [
    | some v ↦ as_num v
    | none ↦ elim (as_object (get k m)) [ none ↦ none | some inner ↦ walk next ks inner ]
  ]

  abbrev walk_all : List String → Fields F → Option F
  walk_all [] m = none
  walk_all (k ∷ ks) m = walk k ks m

  unfoldable pub num_at : Fields F → String → Option F
  unfolding split_path walk
  num_at doc path = walk_all (split_path path) doc

module _ {F : Type 0} ⦃r : Runtime F⦄ (print_unix_nano : Time → String) where
  -- The literal of `MessageToTelemetry` and the optional fields behind it. The identifier of the point is
  -- the device and the nanoseconds of the Unix time.
  unfoldable pub normalized : String → Fields F → String → F → F → Time → Telemetry F
  unfolding num_at
  normalized tenant doc ident lat lng now = record {
    id = "flespi-" <> ident <> "-" <> print_unix_nano now;
    tenant_id = tenant;
    vehicle_id = "flespi-" <> ident;
    device_id = "flespi-" <> ident;
    timestamp = now;
    received_at = now;
    processed_at = zero_time;
    location = record { lat = lat; lng = lng; altitude = none; accuracy = none };
    speed_kmh = num_at doc "position.speed";
    heading = none;
    ignition = as_bool (get "ignition" doc);
    odometer_m = none;
    fuel_level_l = none;
    battery_volt = none;
    engine = none;
    sensors = none;
    raw = some doc;
    source = record { provider = "flespi"; protocol = "flespi-mqtt"; device_id = ident };
    metadata = record {
      correlation_id = ident;
      schema_version = current_schema_version;
      sequence = none;
      quality = "degraded:no-timestamp";
    };
  }

  abbrev pub checked : Telemetry F → Option Invalid → Result Error (Telemetry F)
  checked t none = ok t
  checked t (some x) = err (invalid x)

  located : String → Fields F → String → Option F → Option F → Time → Result Error (Telemetry F)
  unfolding normalized
  located tenant doc ident (some lat) (some lng) now =
      let t = normalized tenant doc ident lat lng now in
      if ident == "" then err incomplete else checked t (validate t)
  located tenant doc ident (some lat) none now = err incomplete
  located tenant doc ident none lng now = err incomplete

  -- `MessageToTelemetry`, with what `json.Unmarshal` makes of the payload; JSON's `null` is the empty map.
  unfoldable pub message_to_telemetry :
      String → Option (Fields F) → Time → Result Error (Telemetry F)
  unfolding located num_at
  message_to_telemetry tenant none now = err bad_json
  message_to_telemetry tenant (some doc) now =
      located tenant doc (as_text (get "ident" doc)) (num_at doc "position.latitude")
        (num_at doc "position.longitude") now

  unfoldable pub handle_raw : Adapter → Option (Fields F) → Time → Result Error (Telemetry F)
  unfolding message_to_telemetry
  handle_raw a doc now = message_to_telemetry a.tenant doc now

-- The adapter: the connection of `Rest` with flespi's header and paths.
abbrev devices_path : String
devices_path = "/gw/devices"

unfoldable pub new : String → String → String → Adapter
new base_url token tenant = Rest.new base_url ("FlespiToken " <> token) tenant

abbrev pub disconnect : Adapter → Adapter
disconnect a = Rest.disconnect a

module _ {W : Type 0} (client : Client W) where
  -- `Connect`
  unfoldable pub connect : Adapter → W → (Option Rest.Error × Adapter) × W
  connect a w = Rest.connect client devices_path a w

  -- `ListVehicles`; the devices are the `result` of the body
  unfoldable pub list_vehicles : Adapter → W → Result Rest.Error (List Vehicle) × W
  list_vehicles a w = Rest.list_vehicles client devices_path a w

  -- `GetVehicle`
  unfoldable pub get_vehicle : String → Adapter → W → Result Rest.Error Vehicle × W
  get_vehicle id a w = Rest.get_vehicle client devices_path id a w
