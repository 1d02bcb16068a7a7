-- ===== src/Database/Migrations/Laws.antt =====
-- That the migrations are applied once (internal/db/migrator.go).
use mathlib.Core.List.{Memᴰ}
use tide.Prelude.{
  ℕ, ◌≡◌, ◌||◌, String, Bool, true, false, Option, none, some, List, [], ◌∷◌, All, ok,
}
use tide.Database.Migrations.{Migration, Database, MigrateError, Applied, is_applied, apply_pending}

module _ {E W : Type 0} (db : Database E W) (same : String → String → Bool) where
  open db use {ensure, versions, run, record_version, print_version, parse_version}

  -- What the program relies on of the database: the versions can be read, neither the table's creation nor
  -- a migration touches them, and a version that is recorded is there from then on with all the others.
  pub record IsSound (recorded : W → List ℕ) : Type 0 where
    pub versions_read : (w : W) → versions w ≡ ok (recorded w)
    pub ensure_keeps : (w : W) → recorded (ensure w).1 ≡ recorded w
    pub run_keeps : (m : Migration) (w : W) → recorded (run m w).1 ≡ recorded w
    pub record_adds :
        (v : ℕ) (m : Migration) (w : W)
        → (record_version v w).0 ≡ none
        → is_applied db same (recorded (record_version v w).1) m
          ≡ (same (print_version v) m.version || is_applied db same (recorded w) m)

  -- a file whose name begins with its version in the format that is compared
  abbrev pub IsNumbered : Migration → Type 0
  IsNumbered m =
      (v : ℕ) → parse_version m.version ≡ some v → same (print_version v) m.version ≡ true

  module _ (recorded : W → List ℕ) (sound : IsSound recorded) where
    open sound use {versions_read, ensure_keeps, run_keeps, record_adds}

    abbrev AppliedIn : W → Migration → Type 0
    AppliedIn w m = is_applied db same (recorded w) m ≡ true

    -- what is applied stays so, and the file is applied if it is numbered
    abbrev Advances : Migration → List ℕ → Option (MigrateError E) × W → Type 0
    Advances m vs (some e, w') = Unit {0}
    Advances m vs (none, w') =
        (IsNumbered m → AppliedIn w' m)
        × ((n : Migration) → is_applied db same vs n ≡ true → AppliedIn w' n)

    -- where no error ended it: the files are applied, and so is what was applied before
    abbrev AllApplied : List Migration → List ℕ → Applied db same → Type 0
    AllApplied ms vs ((names, some e), w') = Unit {0}
    AllApplied ms vs ((names, none), w') =
        All (AppliedIn w') ms × ((n : Migration) → is_applied db same vs n ≡ true → AppliedIn w' n)

    abbrev prefixed : String → Applied db same → Applied db same
    prefixed name ((names, error), w) = ((name ∷ names, error), w)

    -- What a call runs in a world where every file is applied, unless it cannot ask the database.
    abbrev pub RunsNothing : Option E → List String × Option (MigrateError E) → Type 0
    RunsNothing (some e) out = Unit {0}
    RunsNothing none out = out ≡ ([], none)

    -- Where there was no error, the next call runs nothing.
    abbrev pub IsSettled : List Migration → Applied db same → Type 0
    IsSettled files ((names, some e), w') = Unit {0}
    IsSettled files ((names, none), w') =
        RunsNothing (ensure w').0 (apply_pending db same files w').0

    -- A file that is run was not recorded before the call: its name, and that of every other one that ran.
    abbrev pub WereNew : List ℕ → List Migration → List String → Type 0
    WereNew vs files names =
        All
          (λ (name : String).
            (m : Migration) × Memᴰ m files × (m.name ≡ name) × (is_applied db same vs m ≡ false))
          names
