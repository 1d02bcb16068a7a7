-- ===== src/Api/Events.antt =====
-- The queries of internal/api/server.go: `handleEvents`, `handleVehicle` and `handleTriggers`.
pub mod Laws
use tide.Prelude.{
  String, Bool, true, false, not, ◌&&◌, ◌||◌, if◌then◌else◌, ◌==◌, Option, none, some, List, [],
  ◌∷◌, Result, ok, err, split, Assoc, lookup,
}
use tide.Schemas.Events.{Event}
use tide.EventBus.{MemoryBus, snapshot}
use tide.State.{VehicleState}
use tide.Rules.{Engine, Trigger, triggers_of}
use tide.Api.Replies.{Reply, refused, answered, internal_error}

-- The parameters of the URL.
pub record Query : Type 0 where
  pub tenant : String
  pub vehicle : String
  -- the parameter `type`
  pub kind : String

-- `GET /v1/vehicles/{id}/state`, by the path behind `/v1/vehicles/`.
abbrev state_path : List String → Option String
state_path (id ∷ what ∷ []) = if not (what == "state") || id == "" then none else some id
state_path _ = none

module _ {F : Type 0} where
  abbrev pub matches : Query → Event F → Bool
  matches q e =
      e.tenant_id == q.tenant
      && (q.vehicle == "" || e.vehicle_id == q.vehicle)
      && (q.kind == "" || e.kind == q.kind)

  -- The loop over the snapshot of the bus.
  unfoldable pub matching : Query → List (Event F) → List (Event F)
  matching q [] = []
  matching q (e ∷ es) = if matches q e then e ∷ matching q es else matching q es

  -- What `RecentEvents` of `PG` gives, where there is a `PG`, with errors `E`.
  abbrev recent : {E : Type 0} → Result E (List (Event F)) → Reply (List (Event F))
  recent (err x) = internal_error
  recent (ok es) = answered 200 es

  -- `handleEvents`: from Postgres, or else from the memory bus, where they are there.
  unfoldable pub handle_events :
      {E : Type 0}
      → Option (Query → Result E (List (Event F)))
      → Option (MemoryBus F)
      → Query
      → Reply (List (Event F))
  unfolding matching
  handle_events (some recent_events) bus q =
      if q.tenant == "" then refused 400 "tenant required" else recent (recent_events q)
  handle_events none (some bus) q =
      if q.tenant == ""
      then refused 400 "tenant required"
      else answered 200 (matching q (snapshot bus))
  handle_events none none q =
      if q.tenant == "" then refused 400 "tenant required" else answered 200 []

  abbrev found : {E : Type 0} → Result E (Option (VehicleState F)) → Reply (VehicleState F)
  found (err x) = internal_error
  found (ok none) = refused 404 "unknown vehicle"
  found (ok (some s)) = answered 200 s

  abbrev vehicle_at :
      {E : Type 0}
      → (String → Result E (Option (VehicleState F)))
      → Option String
      → Reply (VehicleState F)
  vehicle_at get none = refused 404 "404 page not found"
  vehicle_at get (some id) = found (get id)

  -- `handleVehicle`, over the `Get` of the store of states.
  unfoldable pub handle_vehicle :
      {E : Type 0} → (String → Result E (Option (VehicleState F))) → String → Reply (VehicleState F)
  handle_vehicle get rest = vehicle_at get (state_path (split b'/' rest))

  abbrev pub handle_triggers : Engine F → Reply (List (Trigger F))
  handle_triggers engine = answered 200 (triggers_of engine)
