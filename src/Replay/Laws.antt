-- ===== src/Replay/Laws.antt =====
-- A replay forgets the order in which the points were recorded (internal/replay/replay.go).
use tide.Prelude.{List}
use tide.Schemas.Runtime.{Runtime}
use tide.Schemas.Telemetry.{Telemetry}
