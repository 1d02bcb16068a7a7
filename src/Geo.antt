-- ===== src/Geo.antt =====
-- internal/geo/geo.go: geofences, the bounding-box filter and the membership tracker.
pub mod Tracks
pub mod Laws
use mathlib.Core.Option.{get_or}
use tide.Prelude.{
  String, Bool, true, false, not, ◌&&◌, if◌then◌else◌, ◌==◌, List, [], ◌∷◌, ◌++◌, pos, neg, foldl,
  last_or, Assoc, lookup, insert, any, flat_fold,
}
use tide.Schemas.Payload.{field, text, num, end}
use tide.Schemas.Runtime.{Runtime}
use tide.Schemas.Telemetry.{Telemetry}
use tide.Schemas.Events.{Event, deterministic_id, current_schema_version}

pub record Point (F : Type 0) : Type 0 where
  pub lat : F
  pub lng : F

pub record Geofence (F : Type 0) : Type 0 where
  pub id : String
  pub tenant_id : String
  pub name : String
  pub polygon : List (Point F)

pub record Tracker (F : Type 0) : Type 0 where
  pub fences : List (Geofence F)
  pub members : Assoc (Assoc Bool)

abbrev pub differ : Bool → Bool → Bool
differ true b = not b
differ false b = b

pub record Bounds (F : Type 0) : Type 0 where
  pub min_lat : F
  pub max_lat : F
  pub min_lng : F
  pub max_lng : F

abbrev pub was_inside : String → Assoc Bool → Bool
was_inside id mem = get_or (lookup id mem) false

module _ {F : Type 0} where
  unfoldable pub new_tracker : List (Geofence F) → Tracker F
  new_tracker fences = record { fences = fences; members = [] }

  unfoldable pub set_fences : List (Geofence F) → Tracker F → Tracker F
  set_fences fences t = record t { fences = fences }

module _ {F : Type 0} ⦃r : Runtime F⦄ where
  open r use {flt, fle, fadd, fsub, fmul, fdiv, of_int, rfc3339_nano}

  -- Whether the ray from `p` crosses the edge from vertex `j` to vertex `i`.
  unfoldable pub crosses : Point F → Point F → Point F → Bool
  crosses p i j =
      differ (flt p.lat i.lat) (flt p.lat j.lat)
      && flt p.lng
          (fadd (fdiv (fmul (fsub j.lng i.lng) (fsub p.lat i.lat)) (fsub j.lat i.lat)) i.lng)

  -- The loop of `Contains` from vertex `i` on, with the vertex before it.
  ray_cast : Point F → Bool → Point F → List (Point F) → Bool
  ray_cast p inside j [] = inside
  ray_cast p inside j (i ∷ rest) = ray_cast p (differ (crosses p i j) inside) i rest

  unfoldable pub contains : Geofence F → Point F → Bool
  unfolding ray_cast
  contains g p = elim g.polygon [ [] ↦ false | v ∷ vs ↦ ray_cast p false (last_or v vs) (v ∷ vs) ]

  -- One round of the loop over the vertices.
  unfoldable pub widen : Bounds F → Point F → Bounds F
  widen b v = record {
    min_lat = if flt v.lat b.min_lat then v.lat else b.min_lat;
    max_lat = if flt b.max_lat v.lat then v.lat else b.max_lat;
    min_lng = if flt v.lng b.min_lng then v.lng else b.min_lng;
    max_lng = if flt b.max_lng v.lng then v.lng else b.max_lng;
  }

  abbrev no_bounds : Bounds F
  no_bounds = record {
    min_lat = of_int (pos 90);
    max_lat = of_int (neg 90);
    min_lng = of_int (pos 180);
    max_lng = of_int (neg 180);
  }

  unfoldable pub is_candidate : Point F → Geofence F → Bool
  unfolding widen
  is_candidate p g =
      let b = foldl widen no_bounds g.polygon in
      fle b.min_lat p.lat && fle p.lat b.max_lat && fle b.min_lng p.lng && fle p.lng b.max_lng

  unfoldable pub candidate_filter : List (Geofence F) → Point F → List (Geofence F)
  candidate_filter [] p = []
  candidate_filter (g ∷ fences) p =
      if is_candidate p g then g ∷ candidate_filter fences p else candidate_filter fences p

  -- The event literals of `Evaluate` and `exitEvent`.
  unfoldable pub fence_event : String → Telemetry F → Geofence F → Event F
  fence_event kind tel g = record {
    id = deterministic_id rfc3339_nano kind tel.vehicle_id tel.timestamp g.id;
    kind = kind;
    tenant_id = tel.tenant_id;
    vehicle_id = tel.vehicle_id;
    timestamp = tel.timestamp;
    rule_id = "";
    rule_version = "";
    correlation_id = tel.metadata.correlation_id;
    causation_id = tel.id;
    payload = field "geofenceId" (text g.id) (
        field "geofenceName" (text g.name)
          (field "lat" (num tel.location.lat) (field "lng" (num tel.location.lng) end)));
    schema_version = current_schema_version;
  }

  abbrev pub entered : Telemetry F → Geofence F → Event F
  entered = fence_event "vehicle.geofence.entered"

  abbrev pub exited : Telemetry F → Geofence F → Event F
  exited = fence_event "vehicle.geofence.exited"

  abbrev pub position : Telemetry F → Point F
  position tel = record { lat = tel.location.lat; lng = tel.location.lng }

  -- One candidate fence of the first loop.
  visit : Telemetry F → Assoc Bool → Geofence F → Assoc Bool × List (Event F)
  visit tel mem g =
      let inside = contains g (position tel) in
      let was = was_inside g.id mem in
      if inside && not was
      then (insert g.id true mem, entered tel g ∷ [])
      else if not inside && was
      then (insert g.id false mem, exited tel g ∷ [])
      else (mem, [])

  -- One fence of the second loop: left if the point is outside its bounding box.
  leave : Telemetry F → Assoc Bool → Geofence F → Assoc Bool × List (Event F)
  leave tel mem g =
      if not (was_inside g.id mem)
      then (mem, [])
      else if any (λ c. c.id == g.id) (candidate_filter (g ∷ []) (position tel))
      then (mem, [])
      else (insert g.id false mem, exited tel g ∷ [])

  -- `Evaluate`
  unfoldable pub evaluate : Telemetry F → Tracker F → Tracker F × List (Event F)
  unfolding visit leave
  evaluate tel t =
      let mem = get_or (lookup tel.vehicle_id t.members) [] in
      let (mem₁, visits) = flat_fold (visit tel) mem (candidate_filter t.fences (position tel)) in
      let (mem₂, exits) = flat_fold (leave tel) mem₁ t.fences in
      (record t { members = insert tel.vehicle_id mem₂ t.members }, visits ++ exits)
