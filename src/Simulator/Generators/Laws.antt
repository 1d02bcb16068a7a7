-- ===== src/Simulator/Generators/Laws.antt =====
-- Which points a scenario gives (simulator/generators/generate.go).
use tide.Prelude.{ℕ, ◌≤◌, ◌<◌, ◌≡◌, ◌<>◌, String, pos}
use tide.Schemas.Runtime.{Runtime}
use tide.Schemas.Telemetry.{Telemetry, dedup_key}
use tide.Simulator.{Rand}
use tide.Simulator.Generators.{print_padded}

module _ {F S : Type 0} ⦃r : Runtime F⦄ (rand : Rand F S) where
  open r use {print_int}

  abbrev pub vehicle_name : ℕ → String
  vehicle_name v = "sim-" <> print_padded print_int v

  -- the dedup key of the point with the sequence number
  abbrev pub key_of : String → ℕ → String
  key_of vehicle n = "fleetsim" <> "|" <> vehicle <> "|seq:" <> print_int (pos n)

  -- a point of the tenant, for one of the vehicles below the number, with a sequence number up to the
  -- number of steps
  pub record IsSimulated (tenant : String) (vehicles steps : ℕ) (t : Telemetry F) : Type 0 where
    pub vehicle : ℕ
    pub number : ℕ
    pub vehicle_lt : vehicle < vehicles
    pub number_given : 1 ≤ number
    pub number_le : number ≤ steps
    pub same_tenant : t.tenant_id ≡ tenant
    pub same_vehicle : t.vehicle_id ≡ vehicle_name vehicle
    pub same_key : dedup_key t ≡ key_of (vehicle_name vehicle) number
