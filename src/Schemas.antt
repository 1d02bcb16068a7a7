-- ===== src/Schemas.antt =====
-- The contracts of schemas/telemetry/telemetry.go and schemas/events/events.go, and what they stand on.
pub mod Payload
pub mod Clock
pub mod Runtime
pub mod Telemetry
pub mod Events
