-- ===== src/Database/Store/Server.antt =====
-- The documented behaviour of the database that internal/store/pg.go writes to and reads from.
use mathlib.Core.List.{Memᴰ}
use mathlib.Core.Option.{get_or}
use tide.Prelude.{
  ℕ, ◌+◌, String, true, ◌<>◌, ◌==◌, if◌then◌else◌, ◌≡◌, ◌⊎◌, none, ℤ, pos, ltb_ℤ, List, [], ◌∷◌,
  ◌++◌, map, foldl, length, any, ok,
}
use tide.Schemas.Clock.{Time}
use tide.Schemas.Payload.{end}
use tide.Schemas.Events.{Event}
use tide.Database.Queries.{Statement, text, selection, limited}
use tide.Database.Store.{Driver, EventRow, append_event}

-- The conditions that a query may have besides the tenant.
pub data Column : Type 0 where
  vehicle_id kind : Column

abbrev column_text : Column → String
column_text vehicle_id = "vehicle_id"
column_text kind = "\"type\""

module _ (print : ℕ → String) where
  abbrev pub with_condition : Statement → Column × String → Statement
  with_condition s (c, v) = record {
    query = s.query <> " AND " <> column_text c <> " = $" <> print (length s.arguments + 1);
    arguments = s.arguments ++ (text v ∷ []);
  }

  -- `SELECT … FROM events WHERE tenant_id = $1 AND … ORDER BY ts DESC LIMIT …` and its arguments
  abbrev pub select : String → List (Column × String) → ℤ → Statement
  select tenant conditions limit =
      limited print limit (
        foldl with_condition (record { query = selection; arguments = text tenant ∷ [] })
          conditions)

module _ {B : Type 0} where
  abbrev pub column : Column → EventRow B → String
  column vehicle_id r = r.vehicle_id
  column kind r = r.kind

  abbrev pub Meets : List (Column × String) → EventRow B → Type 0
  Meets [] r = Unit
  Meets ((c, v) ∷ conditions) r = (column c r ≡ v) × Meets conditions r

  -- The table after an insert that does nothing where the identifier is there.
  unfoldable pub put : EventRow B → List (EventRow B) → List (EventRow B)
  put r rows = if any (λ (old : EventRow B). old.id == r.id) rows then rows else rows ++ (r ∷ [])

-- the conditions of `RecentEvents`, where a value is given for them
abbrev pub given : Column → String → List (Column × String)
given c v = if v == "" then [] else (c, v) ∷ []

abbrev pub conditions_of : String → String → List (Column × String)
conditions_of vehicle type = given vehicle_id vehicle ++ given kind type

-- The documented behaviour of the database while it can be reached: the insert of a row that its columns
-- can hold, and the rows of a query, which are those that meet its conditions, all of them where there are
-- fewer than its limit.
pub record IsServer {F B X W : Type 0} (db : Driver F B X W) (print : ℕ → String)
    (table : W → List (EventRow B)) : Type 1 where
  -- a time in the resolution of TIMESTAMPTZ, and a text of JSON as JSONB gives it back
  pub micro : Time → Time
  pub normal : B → B
  -- rows that the columns can hold: the payload is JSON, the texts and the time are in range
  pub IsStorable : EventRow B → Type 0
  pub inserted :
      (r : EventRow B) (w : W)
      → IsStorable r
      → table (db.insert_event r w).1
        ≡ put (record r { ts = micro r.ts; payload = normal r.payload }) (table w)
  -- the rows for a tenant, a vehicle, a type and a limit
  pub selected : String → String → String → ℤ → W → List (EventRow B)
  pub answered :
      (tenant vehicle type : String) (limit : ℤ) (w : W)
      → db.query (select print tenant (conditions_of vehicle type) limit) w
        ≡ ok (map (λ r. ok r) (selected tenant vehicle type limit w), none)
  pub sound :
      (tenant vehicle type : String) (limit : ℤ) (w : W) (r : EventRow B)
      → Memᴰ r (selected tenant vehicle type limit w)
      → Memᴰ r (table w) × (r.tenant_id ≡ tenant) × Meets (conditions_of vehicle type) r
  pub complete :
      (tenant vehicle type : String) (limit : ℤ) (w : W) (r : EventRow B)
      → ltb_ℤ (pos (length (selected tenant vehicle type limit w))) limit ≡ true
      → Memᴰ r (table w)
      → r.tenant_id ≡ tenant
      → Meets (conditions_of vehicle type) r
      → Memᴰ r (selected tenant vehicle type limit w)

module _ {F B X W : Type 0} (db : Driver F B X W) where
  -- The events one after the other, whatever the database answers.
  abbrev pub append_events : List (Event F) → W → W
  append_events [] w = w
  append_events (e ∷ es) w = append_events es (append_event db e w).1

  -- The event that is given back for one that was written, by what the columns make of times and payloads.
  abbrev pub given_back : (Time → Time) → (B → B) → Event F → Event F
  given_back micro normal e = record e {
    timestamp = micro e.timestamp;
    payload = get_or (db.decode_payload (normal (db.encode_payload e.payload))) end;
  }

module _ {F B : Type 0} (row : Event F → EventRow B) where
  abbrev pub put_events : List (Event F) → List (EventRow B) → List (EventRow B)
  put_events [] rows = rows
  put_events (e ∷ es) rows = put_events es (put (row e) rows)

-- Of two events with the same identifier, neither is other than the other.
abbrev pub SameIds : {F : Type 0} → List (Event F) → Type 0
SameIds {F} es = (d e : Event F) → Memᴰ d es → Memᴰ e es → d.id ≡ e.id → d ≡ e

-- an event of the tenant, and of the vehicle and the type where they are given
abbrev pub Asked : {F : Type 0} → String → String → String → Event F → Type 0
Asked tenant vehicle type e =
    (e.tenant_id ≡ tenant)
    × ((vehicle ≡ "") ⊎ (e.vehicle_id ≡ vehicle))
    × ((type ≡ "") ⊎ (e.kind ≡ type))
