-- ===== src/Api/Connections.antt =====
-- The connections of internal/api/server.go: the registry of heartbeats and the hub of the WebSockets.
pub mod Laws
use tide.Prelude.{
  ℕ, ◌*◌, String, Bool, true, false, if◌then◌else◌, ltb_ℤ, ℤ, pos, Option, none, some, List, [],
  ◌∷◌, ◌++◌, map, Assoc, insert,
}
use tide.Schemas.Clock.{Time, sub, nanos}
use tide.Schemas.Events.{Event}
use tide.Adapters.{HealthStatus}
use tide.Adapters.Registry.{state_name}

pub record RegistryEntry (F : Type 0) : Type 0 where
  pub status : HealthStatus F
  -- the field `At`
  pub seen : Time

-- The map of `AdapterRegistry`. The order of Go's iteration over it is not modelled.
pub record AdapterRegistry (F : Type 0) : Type 0 where
  pub entries : Assoc (RegistryEntry F)

-- What the connections screen shows of one source.
pub record Connection (F : Type 0) : Type 0 where
  pub name : String
  pub state : String
  -- `none` for the entry of the HTTP ingestion
  pub status : Option (HealthStatus F)
  pub last_seen : Time

module _ {F : Type 0} where
  unfoldable pub new_adapter_registry : AdapterRegistry F
  new_adapter_registry = record { entries = [] }

  unfoldable pub set : String → HealthStatus F → Time → AdapterRegistry F → AdapterRegistry F
  set name s now r = record r {
    entries = insert name (record { status = s; seen = now }) r.entries;
  }

  abbrev pub is_stale : Time → RegistryEntry F → Bool
  is_stale now e = ltb_ℤ (pos (90 * nanos)) (sub now e.seen)

  abbrev pub shown : Time → String × RegistryEntry F → Connection F
  shown now (name, e) = record {
    name = name;
    state = if is_stale now e then "STALE" else state_name e.status.state;
    status = some e.status;
    last_seen = e.seen;
  }

  -- `List`.
  unfoldable pub list : Time → AdapterRegistry F → List (Connection F)
  list now r = map (shown now) r.entries

  abbrev pub http_ingestion : Time → Connection F
  http_ingestion now = record {
    name = "http-ingestion";
    state = "HEALTHY";
    status = none;
    last_seen = now;
  }

  -- `handleConnections`.
  unfoldable pub handle_connections : Time → AdapterRegistry F → List (Connection F)
  unfolding list
  handle_connections now r = list now r ++ (http_ingestion now ∷ [])

-- `Hub`: the set of the open connections, of a type `C`; what a write to one of them does to the world `W`,
-- and whether it succeeded within its deadline.
pub record Hub (C : Type 0) : Type 0 where
  pub conns : List C

module _ {C : Type 0} (same : C → C → Bool) where
  abbrev without : C → List C → List C
  without c [] = []
  without c (d ∷ ds) = if same d c then without c ds else d ∷ without c ds

  -- `Add` and `Remove`.
  unfoldable pub connect : C → Hub C → Hub C
  connect c h = record h { conns = without c h.conns ++ (c ∷ []) }

  unfoldable pub disconnect : C → Hub C → Hub C
  disconnect c h = record h { conns = without c h.conns }

module _ {C F W : Type 0} (write_json : C → Event F → W → Bool × W) (close : C → W → W) where
  -- The loop of `Broadcast`: the connections that are left.
  write_all : Event F → List C → W → List C × W
  write_all e [] w = ([], w)
  write_all e (c ∷ cs) w =
      let (written, w₁) = write_json c e w in
      let w₂ = if written then w₁ else close c w₁ in
      let (left, w₃) = write_all e cs w₂ in (if written then c ∷ left else left, w₃)

  unfoldable pub broadcast : Event F → Hub C → W → Hub C × W
  unfolding write_all
  broadcast e h w = let (left, w') = write_all e h.conns w in (record h { conns = left }, w')
