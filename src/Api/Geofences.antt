-- ===== src/Api/Geofences.antt =====
-- The geofences of internal/api/server.go: `GeofenceStore` and `handleGeofences`.
pub mod Laws
use tide.Prelude.{
  ℕ, length, ltb, String, Bool, true, false, ◌||◌, if◌then◌else◌, ◌==◌, Option, none, some, List,
  [], ◌∷◌, ◌++◌,
}
use tide.Geo.{Geofence, Tracker, set_fences}
use tide.Api.Replies.{Reply, refused, answered, method_not_allowed}

-- The fences that are held, over the floats `F`.
pub record GeofenceStore (F : Type 0) : Type 0 where
  pub fences : List (Geofence F)

-- What the server holds of geofences: the store, the tracker that evaluates them, and the world of the
-- database.
pub record Held (F W : Type 0) : Type 0 where
  pub store : GeofenceStore F
  pub tracker : Tracker F
  pub world : W

module _ {F : Type 0} where
  unfoldable pub new_geofence_store : GeofenceStore F
  new_geofence_store = record { fences = [] }

  abbrev pub is_incomplete : Geofence F → Bool
  is_incomplete f = f.id == "" || f.tenant_id == "" || ltb (length f.polygon) 3

  abbrev pub list : GeofenceStore F → List (Geofence F)
  list s = s.fences

-- `AddGeofence` of `PG`, where there is one, and the text of an error.
module _ {F W : Type 0} (pg : Option (Geofence F → W → Option String × W)) where
  abbrev pub kept : Geofence F → W → Option String × W
  kept f w = elim pg [ none ↦ (none, w) | some add_geofence ↦ add_geofence f w ]

  -- `Add`.
  unfoldable pub add : Geofence F → GeofenceStore F → W → Option String × GeofenceStore F × W
  add f s w =
      let (failure, w') = kept f w in
      if is_incomplete f
      then (some "geofence needs id, tenantId, 3+ points", s, w)
      else (failure, record s { fences = s.fences ++ (f ∷ []) }, w')

  -- What follows `Add` in `handleGeofences`.
  abbrev activated :
      Option String × GeofenceStore F × W → Tracker F → Reply (List (Geofence F)) × Held F W
  activated (some msg, s, w) t = (refused 422 msg, record { store = s; tracker = t; world = w })
  activated (none, s, w) t =
      (answered 201 [], record { store = s; tracker = set_fences (list s) t; world = w })

  unfoldable pub post_geofence : Geofence F → Held F W → Reply (List (Geofence F)) × Held F W
  unfolding add
  post_geofence f h = activated (add f h.store h.world) h.tracker

  abbrev pub post_body : Option (Geofence F) → Held F W → Reply (List (Geofence F)) × Held F W
  post_body none h = (refused 400 "invalid JSON", h)
  post_body (some f) h = post_geofence f h

  -- `handleGeofences`, with what the body is decoded to.
  unfoldable pub handle_geofences :
      String → Option (Geofence F) → Held F W → Reply (List (Geofence F)) × Held F W
  unfolding post_geofence
  handle_geofences method body h =
      if method == "GET"
      then (answered 200 (list h.store), h)
      else if method == "POST"
      then post_body body h
      else (method_not_allowed, h)
