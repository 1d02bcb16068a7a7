-- ===== src/Simulator.antt =====
-- simulator/: FleetSim, the generator of telemetry and the faults that are put into it.
pub mod Generators
pub mod Faults
pub mod Scenarios
use tide.Prelude.{ℤ}

-- `rand.Rand` of `math/rand`, as a stream with a state `S`.
pub record Rand (F S : Type 0) : Type 0 where
  -- `rand.New(rand.NewSource(seed))`
  pub seeded : ℤ → S
  -- `Float64`
  pub float : S → F × S
  -- `NormFloat64`
  pub normal : S → F × S
