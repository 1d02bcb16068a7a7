-- ===== src/Schemas/Telemetry.antt =====
-- schemas/telemetry/telemetry.go: canonical telemetry, `Validate` and `DedupKey`.
pub mod Laws
use tide.Prelude.{
  ℕ, String, Bool, true, false, ◌||◌, not, if◌then◌else◌, ◌==◌, ◌<>◌, Option, none, some, ℤ, pos,
  neg, eqb_ℤ,
}
use tide.Schemas.Clock.{Time, is_zero}
use tide.Schemas.Payload.{Fields}
use tide.Schemas.Runtime.{Runtime}

abbrev pub current_schema_version : ℤ
current_schema_version = pos 1

pub record Location (F : Type 0) : Type 0 where
  pub lat : F
  pub lng : F
  pub altitude : Option F
  pub accuracy : Option F

pub record Source : Type 0 where
  pub provider : String
  pub protocol : String
  pub device_id : String

pub record Metadata : Type 0 where
  pub correlation_id : String
  pub schema_version : ℤ
  pub sequence : Option ℤ
  pub quality : String

pub record Telemetry (F : Type 0) : Type 0 where
  pub id : String
  pub tenant_id : String
  pub vehicle_id : String
  pub device_id : String
  pub timestamp : Time
  pub received_at : Time
  pub processed_at : Time
  pub location : Location F
  pub speed_kmh : Option F
  pub heading : Option F
  pub ignition : Option Bool
  pub odometer_m : Option F
  pub fuel_level_l : Option F
  pub battery_volt : Option F
  pub engine : Option (Fields F)
  pub sensors : Option (Fields F)
  pub raw : Option (Fields F)
  pub source : Source
  pub metadata : Metadata

pub data Invalid : Type 0 where
  tenant_required vehicle_required device_required timestamps_required : Invalid
  lat_out_of_range lng_out_of_range negative_speed bad_heading negative_fuel : Invalid
  unsupported_schema raw_required : Invalid

abbrev is_nil {ℓ} : {A : Type ℓ} → Option A → Bool
is_nil none = true
is_nil (some _) = false

module _ {F : Type 0} ⦃r : Runtime F⦄ where
  open r use {flt, fle, of_int}

  -- `p != nil && test(*p)`
  abbrev bad : (F → Bool) → Option F → Bool
  bad test none = false
  bad test (some x) = test x

  abbrev out_of_range : ℕ → F → Bool
  out_of_range limit x = flt x (of_int (neg limit)) || flt (of_int (pos limit)) x

  abbrev is_negative : F → Bool
  is_negative x = flt x (of_int (pos 0))

  unfoldable pub validate : Telemetry F → Option Invalid
  validate t =
      if tenant_id == ""
      then some tenant_required
      else if vehicle_id == ""
      then some vehicle_required
      else if device_id == ""
      then some device_required
      else if is_zero timestamp || is_zero received_at
      then some timestamps_required
      else if out_of_range 90 location.lat
      then some lat_out_of_range
      else if out_of_range 180 location.lng
      then some lng_out_of_range
      else if bad is_negative speed_kmh
      then some negative_speed
      else if bad (λ x. is_negative x || fle (of_int (pos 360)) x) heading
      then some bad_heading
      else if bad is_negative fuel_level_l
      then some negative_fuel
      else if not (eqb_ℤ metadata.schema_version current_schema_version)
      then some unsupported_schema
      else if is_nil raw
      then some raw_required
      else none
    where
      open t use {
        tenant_id, vehicle_id, device_id, timestamp, received_at, location, speed_kmh, heading,
        fuel_level_l, metadata, raw,
      }

  -- `%s|%s|seq:%d` of the sequence number, or else the event time and the hash of the payload.
  unfoldable pub dedup_key : Telemetry F → String
  dedup_key t = elim t.metadata.sequence [
    | some n ↦ t.source.provider <> "|" <> t.source.device_id <> "|seq:" <> r.print_int n
    | none ↦
        t.source.provider
        <> "|"
        <> t.source.device_id
        <> "|"
        <> r.rfc3339_nano t.timestamp
        <> "|"
        <> r.digest t.raw
  ]
