-- ===== src/Tests/Sources.antt =====
-- Messages, connections and heartbeats of the adapters, and the theorems at them.
use mathlib.Core.Option.{get_or}
use tide.Prelude.{
  ℕ, ◌+◌, Option, ◌≡◌, ◌↔◌, false, none, some, pos, negsuc, [], ◌∷◌, refl, err, lookup, split,
  split_from, inr,
}
use tide.Schemas.Payload.{Fields, field, num, text, object, end, get}
use tide.Schemas.Telemetry.{Telemetry, validate}
use tide.EventBus.{MemoryBus}
use tide.Adapters.{HealthStatus, healthy, configured}
use tide.Adapters.Rest
use tide.Adapters.Traccar.{Position, handle_raw, position_to_telemetry, normalized}
use tide.Adapters.Live.{run, fetch_positions, deliver}
use tide.Adapters.Live.Laws.{run-refused}
use tide.Adapters.Flespi.{num_at}
use tide.Adapters.Flespi.Laws.{num_at_shapes, IsNestedAt, spelled}
use tide.Adapters.Registry
use tide.Adapters.Registry.{Environment, configure, heartbeat, heartbeats}
use tide.Adapters.Mqtt.Mapping.{MappingConfig, Host, panicked, map_payload, to_text, get_field}
use tide.Adapters.Mqtt.Mapping.Laws.{
  IsNegative, IsMappedOf, NamesVehicle, map_payload-panicked, map_payload-ok,
}
use tide.Adapters.Mqtt.Connection.{Net, connect, new}
use tide.Adapters.Mqtt.Connection.Laws.{Ends, connect-Ends}
use tide.Tests.{whole, ticks}

abbrev mapping : MappingConfig
mapping = record {
  broker = "tcp://broker";
  topics = "fleet/+" ∷ [];
  defaults = ("tenant", "acme") ∷ [];
  fields = ("lat", "lat") ∷ ("lng", "lng") ∷ [];
  speed_unit = "kmh";
  topic_vehicle_index = some (negsuc 0);
}

abbrev host : Host ℕ
host = record {
  parse_float = λ s. none;
  format_float = ticks;
  to_int = λ x. pos x;
  unix = λ n. 5;
  parse_time = λ layout s. none;
}

abbrev message : Fields ℕ
message = field "lat" (num 5) (field "lng" (num 6) end)

map_payload-panicked_example :
    (map_payload host mapping "corr" "fleet/truck" (some message) 9 ≡ err panicked) ↔ (
      (get_or (to_text host (get_field mapping message "vehicleId")) "" ≡ "")
      × IsNegative mapping.topic_vehicle_index)
map_payload-panicked_example = map_payload-panicked host mapping "corr" "fleet/truck" message 9

-- A broker that is never there.
abbrev nowhere : Net ℕ
nowhere = record {
  dial = λ w. (false, w + 1);
  pause = λ n w. (none, w);
  now = λ w. w;
  print_attempt = ticks;
  subscribe = λ t w. (false, w);
  disconnect = λ w. w;
}

connect-Ends_example : Ends nowhere (new mapping) (connect nowhere 10 (new mapping) 0)
connect-Ends_example = connect-Ends nowhere 0 (new mapping) 0

abbrev pub environment : Environment
environment = record {
  getenv = λ name. "set";
  mapping_at = λ path. some (some mapping);
  now = 3;
  base64 = λ s. s;
}

abbrev pub health : Registry.Adapter → HealthStatus ℕ
health a = record { state = healthy; message = ""; device_count = pos 0; msg_per_sec = 0 }

abbrev bus : MemoryBus ℕ
bus = record { events = [] }

abbrev seven : ℕ
seven = 7

-- A message with its position in a map of its own.
abbrev tracked : Fields ℕ
tracked =
    field "ident" (text "9")
      (field "position" (object (field "latitude" (num 5) (field "speed" (num seven) end))) end)

num_at_shapes_example : num_at tracked "position.speed" ≡ some seven
unfolding IsNestedAt spelled split split_from get
num_at_shapes_example =
    num_at_shapes tracked "position.speed" seven
      (inr (refl, field "latitude" (num 5) (field "speed" (num seven) end), refl, refl))

-- The same mapping, with the vehicle in the second part of the topic.
abbrev by_topic : MappingConfig
by_topic = record mapping { topic_vehicle_index = some (pos 1) }

abbrev truck_point : Telemetry ℕ
truck_point = record {
  id = "";
  tenant_id = "acme";
  vehicle_id = "truck";
  device_id = "truck";
  timestamp = 9;
  received_at = 9;
  processed_at = 0;
  location = record { lat = 5; lng = 6; altitude = none; accuracy = none };
  speed_kmh = none;
  heading = none;
  ignition = none;
  odometer_m = none;
  fuel_level_l = none;
  battery_volt = none;
  engine = none;
  sensors = none;
  raw = some message;
  source = record { provider = "mqtt"; protocol = "mqtt"; device_id = "truck" };
  metadata = record {
    correlation_id = "corr";
    schema_version = pos 1;
    sequence = none;
    quality = "degraded:no-timestamp";
  };
}

map_payload-ok_example :
    IsMappedOf host by_topic "corr" "truck" 9 truck_point
    × NamesVehicle host
        (some (pos 1))
        "fleet/truck"
        (get_or (to_text host (get_field by_topic message "vehicleId")) "")
        "truck"
unfolding map_payload validate split lookup get
map_payload-ok_example =
    map_payload-ok host by_topic "corr" "fleet/truck" message 9 {t = truck_point} refl

-- A Traccar whose world is the number of requests, with one position that is off the globe.
abbrev astray : Position ℕ
astray = record {
  id = pos 1;
  device_id = pos 2;
  protocol = "osmand";
  device_time = 5;
  fix_time = 5;
  latitude = 100;
  longitude = 6;
  speed = 0;
  attributes = none;
}

abbrev requests : Rest.Client ℕ
requests = record {
  get = λ url auth w. (some (200, ""), w + 1);
  decode_devices = λ body. none;
  print_id = λ id. "";
}

abbrev source : Rest.Adapter
source = record { base_url = "http://traccar"; auth = "Basic"; tenant = "acme"; state = healthy }

abbrev accept : Telemetry ℕ → ℕ → Option ℕ × ℕ
accept t w = (none, w)

run-refused_example :
    run requests
      (λ body. some (astray ∷ astray ∷ []))
      (λ p. some p)
      accept
      (9 ∷ 10 ∷ [])
      (record source { state = configured })
      0
    ≡ (record source { state = configured }, 2)
unfolding Rest.connect fetch_positions deliver handle_raw position_to_telemetry normalized validate
run-refused_example =
    run-refused requests (λ body. some (astray ∷ astray ∷ [])) (λ p. some p) accept 9 (10 ∷ [])
      (record source { state = configured }) source astray (astray ∷ []) 0 refl refl refl
