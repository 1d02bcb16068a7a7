-- ===== src/Schemas/Telemetry/Laws.antt =====
-- Which points pass `Validate` (schemas/telemetry/telemetry.go).
use tide.Prelude.{ℕ, ◌≡◌, ◌≢◌, ◌↔◌, false, eq_iff, arith, none, some, pos, neg, Option}
use tide.Schemas.Clock.{is_zero}
use tide.Schemas.Runtime.{Runtime}
use tide.Schemas.Telemetry.{Telemetry, validate, current_schema_version}

module _ {F : Type 0} ⦃r : Runtime F⦄ where
  open r use {flt, fle, of_int}

  -- neither below `- n` nor above `n`; a NaN, of which both comparisons fail, counts as such
  abbrev pub NotBeyond : ℕ → F → Type 0
  NotBeyond n x = (flt x (of_int (neg n)) ≡ false) × (flt (of_int (pos n)) x ≡ false)

  -- a field that is absent or passes the test
  abbrev pub Each : (F → Type 0) → Option F → Type 0
  Each P none = Unit {0}
  Each P (some x) = P x

  -- not below 0; a NaN counts as such
  abbrev pub NotNegative : F → Type 0
  NotNegative x = flt x (of_int (pos 0)) ≡ false

  -- neither below 0 nor from 360 on; a NaN counts as such
  abbrev pub NotOffCircle : F → Type 0
  NotOffCircle x = NotNegative x × (fle (of_int (pos 360)) x ≡ false)

  pub record IsCanonical (t : Telemetry F) : Type 0 where
    pub tenant_given : t.tenant_id ≢ ""
    pub vehicle_given : t.vehicle_id ≢ ""
    pub device_given : t.device_id ≢ ""
    pub timestamp_given : is_zero t.timestamp ≡ false
    pub received_given : is_zero t.received_at ≡ false
    pub lat_fits : NotBeyond 90 t.location.lat
    pub lng_fits : NotBeyond 180 t.location.lng
    pub speed_fits : Each NotNegative t.speed_kmh
    pub heading_fits : Each NotOffCircle t.heading
    pub fuel_fits : Each NotNegative t.fuel_level_l
    pub schema_current : t.metadata.schema_version ≡ current_schema_version
    pub raw_kept : t.raw ≢ none

  IsCanonical-of_validate : (t : Telemetry F) → validate t ≡ none → IsCanonical t
  unfolding validate
  IsCanonical-of_validate t h =
      ground (arith, eq_iff t.tenant_id "", eq_iff t.vehicle_id "", eq_iff t.device_id "")

  validate_of_IsCanonical : (t : Telemetry F) → IsCanonical t → validate t ≡ none
  unfolding validate
  validate_of_IsCanonical t c =
      ground (arith, eq_iff t.tenant_id "", eq_iff t.vehicle_id "", eq_iff t.device_id "")

  -- `Validate` accepts exactly the canonical points: the identifiers and both times are given, the
  -- latitude is neither below -90 nor above 90 and the longitude neither below -180 nor above 180, no
  -- speed or fuel level is below 0, no heading is below 0 or at least 360, the schema version is the
  -- current one, and the raw payload is kept. The comparisons are the float ones, which all fail of a
  -- NaN, so that a NaN is never a reason to refuse a point.
  pub validate-none_iff : (t : Telemetry F) → (validate t ≡ none) ↔ IsCanonical t
  validate-none_iff t = (IsCanonical-of_validate t, validate_of_IsCanonical t)
