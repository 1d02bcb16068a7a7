-- ===== src/Adapters/Traccar/Laws.antt =====
-- What becomes of a Traccar position (adapters/traccar/traccar.go).
use tide.Prelude.{ℤ, String, ◌≡◌, ◌≢◌, refl, arith, Option, none, some, ok, eq_iff}
use text.Mathlib.TextLemmas.{append-eq-nil_iff}
use tide.Schemas.Clock.{Time}
use tide.Schemas.Runtime.{Runtime}
use tide.Schemas.Telemetry.{Telemetry, Invalid, validate}
use tide.Schemas.Telemetry.Laws.{IsCanonical, validate-none_iff}
use tide.Adapters.Traccar.{
  Position, position_to_telemetry, normalized, checked, name_of, knots_to_kmh,
}

name_of-ne-nil : (print : ℤ → String) (id : ℤ) → name_of print id ≢ ""
name_of-ne-nil print id h = ground (arith, (append-eq-nil_iff.0 h).0, eq_iff "traccar-" "")

module _ {F : Type 0} where
  pub checked-ok :
      (t : Telemetry F) (found : Option Invalid) {t' : Telemetry F}
      → checked t found ≡ ok t'
      → (found ≡ none) × (t ≡ t')
  checked-ok t none h = (refl, cc h)
  checked-ok t (some x) h = absurd (cc h)

module _ {F : Type 0} ⦃r : Runtime F⦄ where
  -- A position that is accepted is canonical and carries a correlation identifier, so that its events can
  -- be published; it is of the tenant, at the time of the fix, and its speed is converted from knots.
  pub position_to_telemetry-IsCanonical :
      (tenant : String) (p : Position F) (now : Time) {t : Telemetry F}
      → position_to_telemetry tenant p now ≡ ok t
      → IsCanonical t
        × (t.metadata.correlation_id ≢ "")
        × (t.tenant_id ≡ tenant)
        × (t.timestamp ≡ p.fix_time)
        × (t.speed_kmh ≡ some (knots_to_kmh p.speed))
  unfolding position_to_telemetry normalized
  position_to_telemetry-IsCanonical tenant p now h =
      let n = normalized tenant p now in
      let (valid, same) = checked-ok n (validate n) h in
      rw (← same) ((validate-none_iff n).0 valid, name_of-ne-nil r.print_int p.id, refl, refl, refl)
