-- ===== src/Adapters/Mqtt/Mapping.antt =====
-- adapters/mqtt/mapping.go: any JSON payload as canonical telemetry, by a configured mapping.
pub mod Laws
use mathlib.Core.Option.{get_or}
use tide.Prelude.{
  ℕ, zero, suc, String, Bool, true, false, not, ◌&&◌, ◌||◌, ◌<>◌, ◌==◌, ltb, if◌then◌else◌, Option,
  none, some, ℤ, pos, negsuc, List, [], ◌∷◌, length, Assoc, lookup, split, Result, ok, err, is_some,
}
use tide.Schemas.Clock.{Time, zero_time, is_zero}
use tide.Schemas.Payload.{Value, Fields, null, flag, num, text, array, object, get}
use tide.Schemas.Runtime.{Runtime}
use tide.Schemas.Telemetry.{Telemetry, Invalid, validate, current_schema_version}

pub record MappingConfig : Type 0 where
  pub broker : String
  pub topics : List String
  pub defaults : Assoc String
  pub fields : Assoc String
  pub speed_unit : String
  pub topic_vehicle_index : Option ℤ

pub data Error : Type 0 where
  unreadable no_broker bad_json no_identity : Error
  unknown_unit : String → Error
  invalid : Invalid → Error
  -- the index panic of a negative `topicVehicleIndex`
  panicked : Error

abbrev is_nil {ℓ} : {A : Type ℓ} → List A → Bool
is_nil [] = true
is_nil (_ ∷ _) = false

-- `LoadMapping`, with what `yaml.Unmarshal` makes of the data.
unfoldable pub load_mapping : Option MappingConfig → Result Error MappingConfig
load_mapping none = err unreadable
load_mapping (some c) =
    let unit = c.speed_unit in
    if c.broker == "" || is_nil c.topics
    then err no_broker
    else if unit == "" || unit == "kmh" || unit == "mph" || unit == "ms"
    then ok c
    else err (unknown_unit unit)

-- `m[k]` of a `map[string]string`.
abbrev pub text_at : String → Assoc String → String
text_at k m = get_or (lookup k m) ""

abbrev pub get_elem? {ℓ} : {A : Type ℓ} → List A → ℕ → Option A
get_elem? [] i = none
get_elem? (x ∷ xs) zero = some x
get_elem? (x ∷ xs) (suc i) = get_elem? xs i

-- What is taken from Go's libraries beyond `Runtime`.
pub record Host (F : Type 0) : Type 0 where
  -- `strconv.ParseFloat(strings.TrimSpace(s), 64)`
  pub parse_float : String → Option F
  -- `strconv.FormatFloat(x, 'f', -1, 64)`
  pub format_float : F → String
  -- `int64(x)`
  pub to_int : F → ℤ
  -- `time.Unix(n, 0)`
  pub unix : ℤ → Time
  -- `time.Parse(layout, s)`
  pub parse_time : String → String → Option Time

-- The vehicle from the topic, for a payload that does not name one.
unfoldable pub topic_vehicle : Option ℤ → String → Result Error (Option String)
topic_vehicle none topic = ok none
topic_vehicle (some (negsuc _)) topic = err panicked
topic_vehicle (some (pos i)) topic = ok (get_elem? (split b'/' topic) i)

unfoldable pub vehicle_id : MappingConfig → String → Option String → Result Error String
unfolding topic_vehicle
vehicle_id cfg topic named =
    let own = get_or named "" in
    let from_topic = topic_vehicle cfg.topic_vehicle_index topic in
    if own == ""
    then elim from_topic [ err e ↦ err e | ok found ↦ ok (get_or found own) ]
    else ok own

module _ {F : Type 0} where
  -- `lookup`: one map down for every segment.
  pub lookup_value : List String → Value F → Option (Value F)
  lookup_value [] v = some v
  lookup_value (seg ∷ segs) (object m) = elim (get seg m) [
    | none ↦ none
    | some v ↦ lookup_value segs v
  ]
  lookup_value (seg ∷ segs) v = none

  -- The closure `get` of `MapPayload`.
  unfoldable pub get_field : MappingConfig → Fields F → String → Option (Value F)
  unfolding lookup_value
  get_field cfg doc name = elim (lookup name cfg.fields) [
    | none ↦ none
    | some path ↦ lookup_value (split b'.' path) (object doc)
  ]

  module _ (host : Host F) where
    open host use {parse_float, format_float, parse_time}

    -- `toFloat` and `toString`, at what JSON gives.
    abbrev pub to_float : Option (Value F) → Option F
    to_float (some (num x)) = some x
    to_float (some (text s)) = parse_float s
    to_float _ = none

    abbrev pub to_text : Option (Value F) → Option String
    to_text (some (text s)) = some s
    to_text (some (num x)) = some (format_float x)
    to_text (some (flag true)) = some "true"
    to_text (some (flag false)) = some "false"
    to_text _ = none

    -- The first layout that fits.
    abbrev first_time : String → List String → Option Time
    first_time s [] = none
    first_time s (l ∷ ls) = elim (parse_time l s) [ some t ↦ some t | none ↦ first_time s ls ]

    abbrev pub parsed_time : Option String → Option Time
    parsed_time none = none
    parsed_time (some s) = first_time s (
        "2006-01-02T15:04:05.999999999Z07:00" ∷ "2006-01-02T15:04:05Z07:00" ∷ "2006-01-02T15:04:05"
        ∷ [])

module _ {F : Type 0} ⦃r : Runtime F⦄ (host : Host F) where
  open r use {flt, feq, fmul, of_int, decimal}
  open host use {to_int, unix}

  -- The speed in km/h.
  abbrev pub to_kmh : String → F → F
  to_kmh unit f =
      if unit == "mph"
      then fmul f (decimal 160934 5)
      else if unit == "ms"
      then fmul f (decimal 36 1)
      else f

  abbrev pub speed_of : String → Option F → Option F
  speed_of unit none = none
  speed_of unit (some f) = some (to_kmh unit f)

  abbrev pub ignition_of : Option (Value F) → Option Bool
  ignition_of (some (flag b)) = some b
  ignition_of (some (text s)) = some (s == "true" || s == "1" || s == "on")
  ignition_of (some (num x)) = some (not (feq x (of_int (pos 0))))
  ignition_of _ = none

  -- Epoch seconds, where no layout gave a time.
  abbrev epoch_time : Time → Option F → Time
  epoch_time t none = t
  epoch_time t (some f) =
      if is_zero t && flt (of_int (pos 1_000_000_000)) f then unix (to_int f) else t

  abbrev pub time_of : Option (Value F) → Time
  time_of v = epoch_time (get_or (parsed_time host (to_text host v)) zero_time) (to_float host v)

  abbrev pub sequence_of : Option F → Option ℤ
  sequence_of none = none
  sequence_of (some f) = some (to_int f)

  -- The telemetry that is built, for the vehicle and with the new correlation identifier.
  unfoldable pub mapped : MappingConfig → Fields F → String → String → Time → Telemetry F
  unfolding get_field
  mapped cfg doc corr_id vehicle now =
      let value = get_field cfg doc in
      let provider = text_at "provider" cfg.defaults in
      let t = time_of (value "timestamp") in
      record {
        id = "";
        tenant_id = text_at "tenant" cfg.defaults;
        vehicle_id = vehicle;
        device_id = vehicle;
        timestamp = if is_zero t then now else t;
        received_at = now;
        processed_at = zero_time;
        location = record {
          lat = get_or (to_float host (value "lat")) (of_int (pos 0));
          lng = get_or (to_float host (value "lng")) (of_int (pos 0));
          altitude = none;
          accuracy = none;
        };
        speed_kmh = speed_of cfg.speed_unit (to_float host (value "speed"));
        heading = none;
        ignition = ignition_of (value "ignition");
        odometer_m = none;
        fuel_level_l = none;
        battery_volt = none;
        engine = none;
        sensors = none;
        raw = some doc;
        source = record {
          provider = if provider == "" then "mqtt" else provider;
          protocol = "mqtt";
          device_id = vehicle;
        };
        metadata = record {
          correlation_id = corr_id;
          schema_version = current_schema_version;
          sequence = sequence_of (to_float host (value "sequence"));
          quality = if is_zero t then "degraded:no-timestamp" else "good";
        };
      }

  abbrev pub checked : Telemetry F → Option Invalid → Result Error (Telemetry F)
  checked t none = ok t
  checked t (some x) = err (invalid x)

  identified :
      MappingConfig → Fields F → String → Result Error String → Time → Result Error (Telemetry F)
  unfolding mapped
  identified cfg doc corr_id (err e) now = err e
  identified cfg doc corr_id (ok vehicle) now =
      let t = mapped cfg doc corr_id vehicle now in
      if t.tenant_id == "" || t.vehicle_id == "" then err no_identity else checked t (validate t)

  -- `MapPayload`, with what `json.Unmarshal` makes of the payload; JSON's `null` is the empty map.
  unfoldable pub map_payload :
      MappingConfig → String → String → Option (Fields F) → Time → Result Error (Telemetry F)
  unfolding identified vehicle_id get_field
  map_payload cfg corr_id topic none now = err bad_json
  map_payload cfg corr_id topic (some doc) now =
      identified cfg doc corr_id
        (vehicle_id cfg topic (to_text host (get_field cfg doc "vehicleId"))) now
