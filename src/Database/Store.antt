-- ===== src/Database/Store.antt =====
-- internal/store/pg.go: the rows that are written to the database and read from it, over a driver as a
-- parameter.
pub mod Server
pub mod Conditions
pub mod Rows
pub mod Laws
use mathlib.Core.Option.{get_or}
use tide.Prelude.{ℕ, String, Option, none, some, ℤ, List, [], ◌∷◌, ◌++◌, Result, ok, err}
use tide.Schemas.Clock.{Time}
use tide.Schemas.Payload.{Fields, end}
use tide.Schemas.Runtime.{Runtime}
use tide.Schemas.Telemetry.{Telemetry, dedup_key}
use tide.Schemas.Events.{Event}
use tide.Database.Queries.{Statement, recent_events, ring_text}

-- A row of the table of events; `none` is NULL, and JSON is a sequence of bytes, of a type `B`.
pub record EventRow (B : Type 0) : Type 0 where
  pub id : String
  pub kind : String
  pub tenant_id : String
  pub vehicle_id : String
  pub ts : Time
  pub rule_id : Option String
  pub rule_version : Option String
  pub correlation_id : String
  pub causation_id : Option String
  pub payload : B
  pub schema_version : ℤ

-- A row of the table of telemetry.
pub record PointRow (F B : Type 0) : Type 0 where
  pub id : String
  pub tenant_id : String
  pub vehicle_id : String
  pub device_id : String
  pub ts : Time
  pub received_at : Time
  pub processed_at : Time
  pub lat : F
  pub lng : F
  pub speed_kmh : Option F
  pub payload : B
  pub raw : B
  pub dedup_key : String

-- What is taken from `database/sql` and `encoding/json`, over a world `W` and with errors `X`.
pub record Driver (F B X W : Type 0) : Type 0 where
  -- `INSERT INTO telemetry … ON CONFLICT (tenant_id, dedup_key) DO NOTHING`
  pub insert_point : PointRow F B → W → Option X × W
  -- `INSERT INTO events … ON CONFLICT (id) DO NOTHING`
  pub insert_event : EventRow B → W → Option X × W
  -- `INSERT INTO geofences … ON CONFLICT (id) DO NOTHING`, by the id, the tenant, the name and the points
  pub insert_fence : String → String → String → String → W → Option X × W
  -- `QueryContext`: each row as `Scan` reads it, and the error at the end of the rows
  pub query : Statement → W → Result X (List (Result X (EventRow B)) × Option X)
  -- the map of the optional fields of a point
  pub encode_point : Telemetry F → B
  pub encode_raw : Option (Fields F) → B
  pub encode_payload : Fields F → B
  pub decode_payload : B → Option (Fields F)

pub data StoreError (X : Type 0) : Type 0 where
  driver : X → StoreError X
  -- the checks of the store itself
  refused : String → StoreError X

module _ {F B X W : Type 0} (db : Driver F B X W) where
  open db use {
    insert_point, insert_event, insert_fence, query, encode_point, encode_raw, encode_payload,
    decode_payload,
  }

  abbrev pub failure : Option X × W → Option (StoreError X) × W
  failure (none, w) = (none, w)
  failure (some x, w) = (some (driver x), w)

  abbrev pub point_row : ⦃r : Runtime F⦄ → Telemetry F → PointRow F B
  point_row t = record {
    id = t.id;
    tenant_id = t.tenant_id;
    vehicle_id = t.vehicle_id;
    device_id = t.device_id;
    ts = t.timestamp;
    received_at = t.received_at;
    processed_at = t.processed_at;
    lat = t.location.lat;
    lng = t.location.lng;
    speed_kmh = t.speed_kmh;
    payload = encode_point t;
    raw = encode_raw t.raw;
    dedup_key = dedup_key t;
  }

  -- `AppendTelemetry`
  unfoldable pub append_telemetry : ⦃r : Runtime F⦄ → Telemetry F → W → Option (StoreError X) × W
  append_telemetry t w = failure (insert_point (point_row t) w)

  unfoldable pub event_row : Event F → EventRow B
  event_row e = record {
    id = e.id;
    kind = e.kind;
    tenant_id = e.tenant_id;
    vehicle_id = e.vehicle_id;
    ts = e.timestamp;
    rule_id = some e.rule_id;
    rule_version = some e.rule_version;
    correlation_id = e.correlation_id;
    causation_id = some e.causation_id;
    payload = encode_payload e.payload;
    schema_version = e.schema_version;
  }

  -- `AppendEvent`
  unfoldable pub append_event : Event F → W → Option (StoreError X) × W
  append_event e w = failure (insert_event (event_row e) w)

  -- A row as an event: NULL is the empty text, and a payload that cannot be decoded is the nil map.
  unfoldable pub read_row : EventRow B → Event F
  read_row r = record {
    id = r.id;
    kind = r.kind;
    tenant_id = r.tenant_id;
    vehicle_id = r.vehicle_id;
    timestamp = r.ts;
    rule_id = get_or r.rule_id "";
    rule_version = get_or r.rule_version "";
    correlation_id = r.correlation_id;
    causation_id = get_or r.causation_id "";
    payload = get_or (decode_payload r.payload) end;
    schema_version = r.schema_version;
  }

  abbrev pub Found : Type 0
  Found = List (Event F) × Option (StoreError X)

  abbrev pub ended : Option X → Option (StoreError X)
  ended none = none
  ended (some x) = some (driver x)

  -- The loop over the rows, with what was read so far, which is given with the error at the end of the
  -- rows; nothing is given where a row cannot be scanned.
  unfoldable pub read_rows : List (Event F) → List (Result X (EventRow B)) → Option X → Found
  read_rows out [] end_error = (out, ended end_error)
  read_rows out (err x ∷ rows) end_error = ([], some (driver x))
  read_rows out (ok r ∷ rows) end_error = read_rows (out ++ (read_row r ∷ [])) rows end_error

  abbrev pub read_answer : Result X (List (Result X (EventRow B)) × Option X) → Found
  read_answer (err x) = ([], some (driver x))
  read_answer (ok (rows, end_error)) = read_rows [] rows end_error

  abbrev pub ask : Result String Statement → W → Found
  ask (err message) w = ([], some (refused message))
  ask (ok s) w = read_answer (query s w)

  -- `RecentEvents`, with `%d` of `fmt`
  unfoldable pub find_events : (ℕ → String) → String → String → String → ℤ → W → Found
  unfolding read_rows
  find_events print tenant vehicle kind limit w =
      ask (recent_events print tenant vehicle kind limit) w

  abbrev pub add_ring :
      String → String → String → Result String String → W → Option (StoreError X) × W
  add_ring tenant id name (err message) w = (some (refused message), w)
  add_ring tenant id name (ok points) w = failure (insert_fence id tenant name points w)

  -- `AddGeofence`, with `%f` of `fmt`
  unfoldable pub add_geofence :
      (F → String) → String → String → String → List (F × F) → W → Option (StoreError X) × W
  add_geofence print_float tenant id name ring w =
      add_ring tenant id name (ring_text print_float tenant id ring) w
