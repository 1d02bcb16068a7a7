-- ===== src/Schemas/Events/Laws.antt =====
-- Which events pass `Validate` (schemas/events/events.go).
use text.Mathlib.TextLemmas.{append-eq-nil_iff}
use tide.Prelude.{String, ◌≡◌, ◌≢◌, true, false, eq_iff, arith, none}
use tide.Schemas.Clock.{Time, is_zero}
use tide.Schemas.Events.{Event, deterministic_id, is_transition, validate, current_schema_version}

-- An identifier is never empty: it holds its separators.
pub deterministic_id-ne-nil :
    (format : Time → String) (kind v : String) (ts : Time) (cause : String)
    → deterministic_id format kind v ts cause ≢ ""
unfolding deterministic_id
deterministic_id-ne-nil format kind v ts cause h =
    let tail = (append-eq-nil_iff.0 h).1 in
    ground (arith, (append-eq-nil_iff.0 tail).0, eq_iff ":" "")

-- What an event must hold to be published.
pub record IsWellFormed {F : Type 0} (e : Event F) : Type 0 where
  pub id_given : e.id ≢ ""
  pub kind_given : e.kind ≢ ""
  pub tenant_given : e.tenant_id ≢ ""
  pub vehicle_given : e.vehicle_id ≢ ""
  pub kind_transition : is_transition e.kind ≡ true
  pub timestamp_given : is_zero e.timestamp ≡ false
  pub correlation_given : e.correlation_id ≢ ""
  pub schema_current : e.schema_version ≡ current_schema_version

pub validate_of_IsWellFormed : {F : Type 0} (e : Event F) → IsWellFormed e → validate e ≡ none
unfolding validate
validate_of_IsWellFormed e w = ground (
  arith,
  eq_iff e.id "",
  eq_iff e.kind "",
  eq_iff e.tenant_id "",
  eq_iff e.vehicle_id "",
  eq_iff e.correlation_id "",
)

pub IsWellFormed-of_validate : {F : Type 0} (e : Event F) → validate e ≡ none → IsWellFormed e
unfolding validate
IsWellFormed-of_validate e h = ground (
  arith,
  eq_iff e.id "",
  eq_iff e.kind "",
  eq_iff e.tenant_id "",
  eq_iff e.vehicle_id "",
  eq_iff e.correlation_id "",
)
