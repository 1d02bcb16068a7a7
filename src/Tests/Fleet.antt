-- ===== src/Tests/Fleet.antt =====
-- A scenario and a stream of random numbers, and the theorems at them.
use tide.Prelude.{ℕ, ◌+◌, pos, [], ◌∷◌}
use tide.Schemas.Telemetry.{Telemetry}
use tide.Simulator.{Rand}
use tide.Simulator.Generators.{Scenario}
use tide.Simulator.Faults.{Config}
use tide.Tests.{whole}

-- A stream that counts its draws.
abbrev rand : Rand ℕ ℕ
rand = record { seeded = λ seed. 0; float = λ s. (s, s + 1); normal = λ s. (s, s + 1) }

abbrev plan : Scenario ℕ
plan = record {
  name = "mixed";
  seed = pos 3;
  step_secs = pos 10;
  duration_secs = pos 30;
  start_lat = 1;
  start_lng = 1;
  spread_km = 1;
  mix = ("normal", 1) ∷ [];
}

abbrev rough : Config ℕ
rough = record {
  duplicate_rate = 3;
  late_rate = 2;
  late_by = "";
  missing_rate = 1;
  out_of_order_rate = 5;
  gps_drift_m = 4;
  offline_vehicles = 0;
}
