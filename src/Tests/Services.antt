-- ===== src/Tests/Services.antt =====
-- A database of migrations, queries and the rules at the start, and the theorems at them.
use tide.Prelude.{
  eqb, suc, ℕ, ◌==◌, String, Bool, Option, none, some, List, [], ◌∷◌, ok, if◌then◌else◌,
}
use tide.Database.Migrations.{Migration, Database}
use tide.Commands.{Posted, replied, post_batches}
use tide.Commands.Laws.{Delivers, logged, post_batches-Delivers}
use tide.Tests.{ticks}

-- The versions that are recorded are the world.
abbrev database : Database ℕ (List ℕ)
database = record {
  ensure = λ w. (none, w);
  versions = λ w. ok w;
  run = λ m w. (none, w);
  record_version = λ v w. (none, v ∷ w);
  print_version = ticks;
  parse_version = λ s. if s == "i" then some 1 else some 2;
}

abbrev same : String → String → Bool
same a b = a == b

abbrev init : Migration
init = record { name = "i_init.sql"; version = "i" }

abbrev events : Migration
events = record { name = "ii_events.sql"; version = "ii" }

-- The numbers below `n`, from the greatest one on.
abbrev below : ℕ → List ℕ
below ℕ.zero = []
below (ℕ.suc n) = n ∷ below n

-- An API that takes one batch and is then out of service.
abbrev api : List ℕ → ℕ → Posted × ℕ
api batch w = (replied (if eqb w 0 then 202 else 503), suc w)

post_batches-Delivers_example :
    Delivers
      (below 150)
      (post_batches (logged api) (below 150) (record { world = 0; batches = [] }))
post_batches-Delivers_example = post_batches-Delivers api (below 150) 0
