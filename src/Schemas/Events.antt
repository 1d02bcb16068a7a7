-- ===== src/Schemas/Events.antt =====
-- schemas/events/events.go: the event contract, its identifiers and `Validate`.
pub mod Laws
use tide.Prelude.{
  String, Bool, ◌&&◌, ◌||◌, not, if◌then◌else◌, ◌==◌, ◌<>◌, Option, none, some, ℤ, pos, eqb, eqb_ℤ,
  List, [], ◌∷◌, length, last_or, ltb, split,
}
use tide.Schemas.Clock.{Time, is_zero}
use tide.Schemas.Payload.{Fields}

abbrev pub current_schema_version : ℤ
current_schema_version = pos 1

pub record Event (F : Type 0) : Type 0 where
  pub id : String
  -- the field `Type`
  pub kind : String
  pub tenant_id : String
  pub vehicle_id : String
  pub timestamp : Time
  pub rule_id : String
  pub rule_version : String
  pub correlation_id : String
  pub causation_id : String
  pub payload : Fields F
  pub schema_version : ℤ

-- `%s:%s:%s:%s`; the event time is written by the format that is given.
unfoldable pub deterministic_id : (Time → String) → String → String → Time → String → String
deterministic_id format kind vehicle_id ts cause =
    kind <> ":" <> vehicle_id <> ":" <> format ts <> ":" <> cause

unfoldable pub valid_suffix : String → Bool
valid_suffix s =
    s == "started"
    || s == "continued"
    || s == "ended"
    || s == "entered"
    || s == "exited"
    || s == "created"

unfoldable pub is_transition : String → Bool
unfolding valid_suffix
is_transition kind =
    let parts = split b'.' kind in not (ltb (length parts) 2) && valid_suffix (last_or "" parts)

pub data Invalid : Type 0 where
  ids_required bad_suffix timestamp_required correlation_required unsupported_schema : Invalid

module _ {F : Type 0} where
  unfoldable pub validate : Event F → Option Invalid
  validate e =
      if id == "" || kind == "" || tenant_id == "" || vehicle_id == ""
      then some ids_required
      else if not (is_transition kind)
      then some bad_suffix
      else if is_zero timestamp
      then some timestamp_required
      else if correlation_id == ""
      then some correlation_required
      else if not (eqb_ℤ schema_version current_schema_version)
      then some unsupported_schema
      else none
    where
      open e use {id, kind, tenant_id, vehicle_id, timestamp, correlation_id, schema_version}

  unfoldable pub subject : Event F → String
  subject e = "tide.events." <> e.tenant_id <> "." <> e.kind
