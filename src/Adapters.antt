-- ===== src/Adapters.antt =====
-- adapters/adapters.go: the contract of the sources of telemetry.
pub mod Rest
pub mod Traccar
pub mod Flespi
pub mod Mqtt
pub mod Registry
pub mod Live
use tide.Prelude.{ℤ, String, Bool}

-- The strings of `HealthState`.
pub data HealthState : Type 0 where
  configured connecting healthy degraded reconnecting failed : HealthState

pub record HealthStatus (F : Type 0) : Type 0 where
  pub state : HealthState
  pub message : String
  pub device_count : ℤ
  pub msg_per_sec : F

pub record Capabilities : Type 0 where
  pub live_telemetry : Bool
  pub historical_data : Bool
  pub device_list : Bool
  pub events : Bool
  pub webhooks : Bool
  pub commands : Bool

pub record Vehicle : Type 0 where
  pub provider_id : String
  pub name : String

abbrev pub is_healthy : HealthState → Bool
is_healthy healthy = Bool.true
is_healthy _ = Bool.false
