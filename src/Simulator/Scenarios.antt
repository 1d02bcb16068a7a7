-- ===== src/Simulator/Scenarios.antt =====
-- simulator/simulator.go: the scenarios that are built into the program.
pub mod Laws
use tide.Prelude.{String, ◌<>◌, Bool, Option, none, some, List, [], map}
use tide.Prelude.Sort.{sort_by}

-- `embed.FS`, with files of bytes of a type `B`, and what is taken from Go's strings.
pub record Embedded (B : Type 0) : Type 0 where
  -- `ReadFile`
  pub read_file : String → Option B
  -- `ReadDir` of "scenarios", as the names of its entries
  pub read_dir : Option (List String)
  -- `strings.TrimSuffix`
  pub trim_suffix : String → String → String
  -- the order on texts
  pub str_lt : String → String → Bool

module _ {B : Type 0} (fs : Embedded B) where
  open fs use {read_file, read_dir, trim_suffix, str_lt}

  -- `Get`: `none` is the unknown scenario.
  unfoldable pub get : String → Option B
  get name = read_file ("scenarios/" <> trim_suffix name ".yaml" <> ".yaml")

  abbrev pub names_in : Option (List String) → List String
  names_in none = []
  names_in (some entries) = sort_by str_lt (map (λ e. trim_suffix e ".yaml") entries)

  -- `Names`
  unfoldable pub names : List String
  names = names_in read_dir
