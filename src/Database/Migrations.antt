-- ===== src/Database/Migrations.antt =====
-- internal/db/migrator.go: the migrations in lexical order, each of them once.
pub mod Laws
use tide.Prelude.{
  ℕ, String, Bool, true, false, ◌||◌, if◌then◌else◌, eqb, Option, none, some, List, [], ◌∷◌, ◌++◌,
  any, Result, ok, err,
}

-- A migration file: its name, and what its name begins with, up to the first underscore.
pub record Migration : Type 0 where
  pub name : String
  pub version : String

-- The database over a world `W`, with errors `E`, and the number formats of `fmt`.
pub record Database (E W : Type 0) : Type 0 where
  -- `CREATE TABLE IF NOT EXISTS schema_migrations`
  pub ensure : W → Option E × W
  -- `SELECT version FROM schema_migrations`
  pub versions : W → Result E (List ℕ)
  -- the text of a file is run
  pub run : Migration → W → Option E × W
  -- `INSERT INTO schema_migrations … ON CONFLICT DO NOTHING`
  pub record_version : ℕ → W → Option E × W
  -- `%04d`
  pub print_version : ℕ → String
  -- `Sscanf` with `%d`
  pub parse_version : String → Option ℕ

pub data MigrateError (E : Type 0) : Type 0 where
  failed : E → MigrateError E
  bad_version : String → MigrateError E

module _ {E W : Type 0} (db : Database E W) (same : String → String → Bool) where
  open db use {ensure, versions, run, record_version, print_version, parse_version}

  abbrev pub is_applied : List ℕ → Migration → Bool
  is_applied vs m = any (λ v. same (print_version v) m.version) vs

  -- The files that are not recorded, in their order.
  unfoldable pub not_recorded : List ℕ → List Migration → List Migration
  not_recorded vs [] = []
  not_recorded vs (m ∷ ms) =
      let rest = not_recorded vs ms in if is_applied vs m then rest else m ∷ rest

  abbrev pub pending_of : List Migration → Result E (List ℕ) → Result E (List Migration)
  pending_of files (err e) = err e
  pending_of files (ok vs) = ok (not_recorded vs files)

  abbrev pub pending_after : List Migration → Option E × W → Result E (List Migration) × W
  pending_after files (some e, w) = (err e, w)
  pending_after files (none, w) = (pending_of files (versions w), w)

  -- `Pending`, with the embedded files in the order of their names.
  unfoldable pub pending : List Migration → W → Result E (List Migration) × W
  unfolding not_recorded
  pending files w = pending_after files (ensure w)

  -- One file: its text is run, its version is read, and the version is recorded.
  abbrev pub noted : Option E × W → Option (MigrateError E) × W
  noted (none, w) = (none, w)
  noted (some e, w) = (some (failed e), w)

  abbrev pub numbered : Migration → Option ℕ → W → Option (MigrateError E) × W
  numbered m none w = (some (bad_version m.name), w)
  numbered m (some v) w = noted (record_version v w)

  abbrev pub after_run : Migration → Option E × W → Option (MigrateError E) × W
  after_run m (some e, w) = (some (failed e), w)
  after_run m (none, w) = numbered m (parse_version m.version) w

  unfoldable pub apply_one : Migration → W → Option (MigrateError E) × W
  apply_one m w = after_run m (run m w)

  -- The loop of `ApplyPending`: the names that were applied, also where an error ends it.
  abbrev pub Applied : Type 0
  Applied = (List String × Option (MigrateError E)) × W

  abbrev pub apply_rest : String → (W → Applied) → Option (MigrateError E) × W → Applied
  apply_rest name rest (some e, w) = (([], some e), w)
  apply_rest name rest (none, w) = let ((names, error), w') = rest w in ((name ∷ names, error), w')

  unfoldable pub apply_all : List Migration → W → Applied
  unfolding apply_one
  apply_all [] w = (([], none), w)
  apply_all (m ∷ ms) w = apply_rest m.name (apply_all ms) (apply_one m w)

  abbrev pub apply_found : Result E (List Migration) → W → Applied
  apply_found (err e) w = (([], some (failed e)), w)
  apply_found (ok ms) w = apply_all ms w

  -- `ApplyPending`.
  unfoldable pub apply_pending : List Migration → W → Applied
  unfolding pending apply_all
  apply_pending files w = let (found, w') = pending files w in apply_found found w'
