-- ===== src/Adapters/Registry.antt =====
-- adapters/registry/registry.go: the sources that the environment configures, and their heartbeats.
pub mod Laws
use tide.Prelude.{
  ℕ, ◌+◌, String, Bool, true, false, if◌then◌else◌, ◌==◌, ◌<>◌, ltb, Option, none, some, ℤ, pos,
  List, [], ◌∷◌, ◌++◌, map, Result, ok, err,
}
use tide.Schemas.Clock.{Time, Duration}
use tide.Schemas.Payload.{field, text, num, end}
use tide.Schemas.Runtime.{Runtime}
use tide.Schemas.Telemetry.{Telemetry}
use tide.Schemas.Events.{Event, current_schema_version}
use tide.Adapters.{
  HealthState, HealthStatus, configured, connecting, healthy, degraded, reconnecting, failed,
}
use tide.Adapters.Rest
use tide.Adapters.Mqtt.Mapping.{MappingConfig, Error, load_mapping}
use tide.Adapters.Mqtt.Connection

pub data Source : Type 0 where
  mqtt : Connection.Adapter → Source
  traccar : Rest.Adapter → Source

pub record Adapter : Type 0 where
  pub name : String
  -- the field `src`
  pub source : Source
  pub count : ℕ
  pub started : Time

-- What `Configure` reads: `os.Getenv`, a file as the YAML decoder reads it (`none` where there is no file),
-- the clock, and the base64 of a text.
pub record Environment : Type 0 where
  pub getenv : String → String
  pub mapping_at : String → Option (Option MappingConfig)
  pub now : Time
  pub base64 : String → String

abbrev pub or_default : String → String → String
or_default v d = if v == "" then d else v

module _ (env : Environment) where
  open env use {getenv, mapping_at, now, base64}

  abbrev pub default_tenant : String
  default_tenant = or_default (getenv "TIDE_TENANT") "default"

  abbrev mqtt_with : String → Result Error MappingConfig → List Adapter
  mqtt_with broker (err e) = []
  mqtt_with broker (ok mc) =
      record {
        name = "mqtt";
        source = mqtt (Connection.new (record mc { broker = broker }));
        count = 0;
        started = now;
      }
      ∷ []

  abbrev mqtt_at : String → Option (Option MappingConfig) → List Adapter
  mqtt_at broker none = []
  mqtt_at broker (some raw) = mqtt_with broker (load_mapping raw)

  unfoldable pub mqtt_sources : List Adapter
  mqtt_sources =
      let broker = getenv "TIDE_MQTT_BROKER" in
      if broker == ""
      then []
      else mqtt_at broker
          (mapping_at (or_default (getenv "TIDE_MQTT_MAPPING") "examples/mqtt-mapping.yaml"))

  unfoldable pub traccar_sources : List Adapter
  traccar_sources =
      let url = getenv "TIDE_TRACCAR_URL" in
      let login = getenv "TIDE_TRACCAR_USER" <> ":" <> getenv "TIDE_TRACCAR_PASSWORD" in
      if url == ""
      then []
      else record {
        name = "traccar";
        source = traccar (Rest.new url ("Basic " <> base64 login) default_tenant);
        count = 0;
        started = now;
      }
        ∷ []

  unfoldable pub configure : List Adapter
  unfolding mqtt_sources traccar_sources
  configure = mqtt_sources ++ traccar_sources

-- `emitting`: a point that the pipeline takes without an error is counted.
module _ {F E W : Type 0} (process : Telemetry F → W → Option E × W) where
  unfoldable pub emitting : Telemetry F → ℕ × W → Option E × (ℕ × W)
  emitting t (count, w) =
      let (error, w') = process t w in
      elim error [ some e ↦ (some e, (count, w')) | none ↦ (none, (count + 1, w')) ]

-- `string(st.State)`.
abbrev pub state_name : HealthState → String
state_name configured = "CONFIGURED"
state_name connecting = "CONNECTING"
state_name healthy = "HEALTHY"
state_name degraded = "DEGRADED"
state_name reconnecting = "RECONNECTING"
state_name failed = "FAILED"

module _ {F : Type 0} ⦃r : Runtime F⦄ where
  open r use {fle, fdiv, of_int}

  -- `rate`, from the seconds that have passed.
  abbrev pub rate : F → Adapter → F
  rate elapsed a =
      if fle elapsed (of_int (pos 0)) then of_int (pos 0) else fdiv (of_int (pos a.count)) elapsed

  -- One heartbeat, for the adapter's health and the seconds since its start.
  unfoldable pub heartbeat : Time → (Adapter → HealthStatus F) → (Adapter → F) → Adapter → Event F
  heartbeat now health elapsed a = record {
    id = "hb-" <> a.name;
    kind = "tide.heartbeat.created";
    tenant_id = "system";
    vehicle_id = a.name;
    timestamp = now;
    rule_id = "";
    rule_version = "";
    correlation_id = "hb";
    causation_id = "";
    payload = field "name" (text a.name) (
        field "state" (text (state_name (health a).state)) (
          field "message" (text (health a).message)
            (field "msgPerSec" (num (rate (elapsed a) a)) end)));
    schema_version = current_schema_version;
  }

  -- `Heartbeats`, over a bus whose errors are ignored.
  unfoldable pub heartbeats :
      {E W : Type 0}
      → (publish : Event F → W → Option E × W) → Time
      → (Adapter → HealthStatus F)
      → (Adapter → F)
      → List Adapter
      → W
      → W
  unfolding heartbeat
  heartbeats publish now health elapsed [] w = w
  heartbeats publish now health elapsed (a ∷ regs) w =
      let (_, w') = publish (heartbeat now health elapsed a) w in
      heartbeats publish now health elapsed regs w'
