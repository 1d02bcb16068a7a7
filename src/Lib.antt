-- ===== src/Lib.antt =====
-- TIDE's telemetry core: what the program does between a point that arrives and the events that it
-- publishes, modelled from the Go sources, with the theorems that make it correct.
--
-- The program maps provider data to canonical telemetry, and one function, `Pipeline.Process`
-- (internal/pipeline/pipeline.go), takes every point through validation, deduplication, the log, the
-- state of its vehicle, the detectors, the geofences and the rules to the event bus. Each of these is a
-- component behind an interface; here the interfaces are the record `Ports` over a world that each call
-- passes on, and `Pipeline.Memory` fills them with the memory implementations as `NewTestPipeline` does.
--
-- - Prelude: tests on numbers, lists, integers over the native numbers, association lists and a stable sort.
-- - Schemas: schemas/telemetry/telemetry.go and schemas/events/events.go. Payload is `map[string]any`,
--   Clock is `time.Time` and `time.Duration` in nanoseconds, and Runtime is what is taken from Go's
--   floats, `math`, time formats and hashing, as an interface without laws.
-- - Dedup: internal/dedup/dedup.go.
-- - State: internal/state/state.go.
-- - Detectors: internal/detectors/detectors.go.
-- - Geo: internal/geo/geo.go.
-- - EventBus: internal/eventbus/eventbus.go. Nats is its NATSBus over a connection, and Subscription the loop
--   of SubscribeResilient as a step relation, since what NATS answers and when the context ends are open.
-- - Tenants: internal/tenants/tenants.go.
-- - Pipeline: internal/pipeline/pipeline.go.
-- - Rules: internal/rules/rules.go. The order of the rules is that of the list, since a Go map has none.
-- - Replay: internal/replay/replay.go.
-- - Webhooks: internal/webhooks/webhooks.go and ssrf.go; the network, the resolver and the dialler
--   are parameters. Guard has the checks of the guarded client at redirects and at connections.
-- - Adapters: adapters/adapters.go, with a module per provider. Rest is the connection that
--   adapters/traccar/traccar.go and adapters/flespi/flespi.go share, Traccar and Flespi are their mappings,
--   Mqtt.Mapping is adapters/mqtt/mapping.go and Mqtt.Connection adapters/mqtt/mqtt.go, and Registry is
--   adapters/registry/registry.go, which puts them before the pipeline. Live is the path of Traccar's
--   positions, from the poll to the pipeline.
-- - Api: the rate limiter of internal/api/security.go, with its middleware in Throttle; in its children the
--   handlers of internal/api/server.go (Ingest, which also has internal/ingest/http.go, Events, Geofences,
--   Connections) and of internal/api/simulate.go (Simulate). Forward is cmd/tide-api/server.go: what the API
--   does with the messages of NATS.
-- - Engine: cmd/tide-engine/server.go, the sweep for silent vehicles and the heartbeats.
-- - Simulator: simulator/generators/generate.go and simulator/faults/faults.go, over a stream of random
--   numbers as a state, and in Scenarios simulator/simulator.go, over the files that are built in.
-- - Database: internal/db/migrator.go, the texts of the queries of internal/store/pg.go, and in Store the
--   rows that it writes and reads over a driver as a parameter, with the documented behaviour of the
--   database in Store.Server.
-- - Redis: the Redis client as a parameter. State.Redis and Dedup.Redis are the stores over it, of
--   internal/state/state.go and internal/dedup/dedup.go.
-- - Boot: the log of telemetry and the rules of internal/boot/boot.go. Hot is the choice between the stores
--   in Redis and those in memory; Services is the choice of the database and of the bus.
-- - Health: the probes of internal/health/checks.go.
-- - Commands: the batches of cmd/tide/simulate.go, and the comparison of two replays in cmd/tide/replay.go.
-- - Config: internal/config/config.go.
-- - Tests: concrete points, requests and worlds with the theorems at them, by area.
--
-- An adapter turns what its provider sends into telemetry and hands it to the pipeline, as `handleIngest`
-- does with what is posted; a simulation run takes generated points through the same pipeline. A service
-- outside the program (an HTTP or MQTT client, the database, `crypto/rand`, the YAML and JSON decoders) is
-- a parameter: a function over the world, or the value that a decoder gives.
--
-- Go names are kept in the spelling of this language: `Apply` is `apply`, `CheckOffline` is
-- `check_offline`. A string enum is a data type with a constructor for the empty string. A pointer is an
-- `Option`, a map is an association list with unique keys, and an error is a value. The mutexes are left
-- out where every operation holds its own from start to end. The wall clock is an argument. Durations are
-- computed with the wrap-around of `int64`, and `Sub` saturates as in Go; the times of generated points
-- and the delay of a late one are the exception, and do not reach its ends. Every loop is over a list or
-- counts the attempts that are left, but for the loop of the MQTT connection, which takes fuel and needs ten
-- rounds at most, and the loop over the batches, whose fuel is the number of points.
--
-- Not modelled: the clients of Redis, NATS and PostgreSQL, which are parameters; the routes, headers and
-- WebSockets of the servers; the tracing of internal/observability; `Run` of the registry for MQTT; the rest
-- of the commands, which read flags and start servers; the TypeScript SDK. The order in which Go goes
-- through a map is not modelled, nor are data races: a handler runs from start to end.
pub mod Prelude
pub mod Schemas
pub mod Redis
pub mod Dedup
pub mod State
pub mod Detectors
pub mod EventBus
pub mod Pipeline
pub mod Tenants
pub mod Geo
pub mod Rules
pub mod Replay
pub mod Webhooks
pub mod Api
pub mod Simulator
pub mod Config
pub mod Database
pub mod Boot
pub mod Commands
pub mod Health
pub mod Engine
pub mod Adapters
mod Tests
