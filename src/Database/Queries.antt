-- ===== src/Database/Queries.antt =====
-- internal/store/pg.go: the text and the arguments of the query for events, and the ring of a geofence.
pub mod Laws
use tide.Prelude.{
  ℕ, suc, ◌+◌, ltb, String, Bool, true, false, ◌||◌, if◌then◌else◌, ◌==◌, ◌<>◌, ℤ, pos, leb_ℤ,
  ltb_ℤ, List, [], ◌∷◌, ◌++◌, length, Result, ok, err,
}

pub data Argument : Type 0 where
  text : String → Argument
  number : ℤ → Argument

pub record Statement : Type 0 where
  pub query : String
  pub arguments : List Argument

abbrev pub selection : String
selection =
    "SELECT id, \"type\", tenant_id, vehicle_id, ts, rule_id, rule_version, correlation_id, causation_id, payload, schema_version\n\t      FROM events WHERE tenant_id = $1"

abbrev pub clamped : ℤ → ℤ
clamped limit = if leb_ℤ limit (pos 0) || ltb_ℤ (pos 500) limit then pos 100 else limit

module _ (print : ℕ → String) where
  -- A further condition, where a value is given for it.
  abbrev pub narrowed : String → String → Statement → Statement
  narrowed column given s = if given == "" then s else record {
    query = s.query <> " AND " <> column <> " = $" <> print (length s.arguments + 1);
    arguments = s.arguments ++ (text given ∷ []);
  }

  abbrev pub limited : ℤ → Statement → Statement
  limited limit s = record {
    query = s.query <> " ORDER BY ts DESC LIMIT $" <> print (length s.arguments + 1);
    arguments = s.arguments ++ (number limit ∷ []);
  }

  -- `RecentEvents`, up to the call of the database.
  unfoldable pub recent_events : String → String → String → ℤ → Result String Statement
  recent_events tenant vehicle kind limit =
      if tenant == ""
      then err "store: tenant required"
      else ok (
          limited (clamped limit) (
            narrowed "\"type\"" kind (
              narrowed "vehicle_id" vehicle
                (record { query = selection; arguments = text tenant ∷ [] }))))

module _ {F : Type 0} (print_float : F → String) where
  -- `%f %f`
  abbrev pub print_pair : F × F → String
  print_pair (x, y) = print_float x <> " " <> print_float y

  abbrev pub comma_pairs : List (F × F) → String
  comma_pairs [] = ""
  comma_pairs (p ∷ ps) = "," <> print_pair p <> comma_pairs ps

  -- The text of the polygon in `AddGeofence`, whose first point is repeated at the end.
  unfoldable pub ring_text : String → String → List (F × F) → Result String String
  ring_text tenant id [] = err "store: geofence needs tenant, id, 3+ points"
  ring_text tenant id (p ∷ ps) =
      if tenant == "" || id == "" || ltb (length (p ∷ ps)) 3
      then err "store: geofence needs tenant, id, 3+ points"
      else ok (print_pair p <> comma_pairs ps <> "," <> print_pair p)
