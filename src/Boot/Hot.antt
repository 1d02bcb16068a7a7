-- ===== src/Boot/Hot.antt =====
-- `Build` of internal/boot/boot.go: where the hot state and the deduplication are kept.
use tide.Prelude.{List, Bool, true, false, if◌then◌else◌, Option, none, some, pos, Result, ok, err}
use tide.Schemas.Clock.{Time}
use tide.Redis.{Client}
use tide.Dedup
use tide.Dedup.Redis as DedupRedis
use tide.State
use tide.State.{VehicleState, empty_store}
use tide.State.Redis as StateRedis
use tide.State.Redis.{Codec, StoreError}
use tide.Pipeline.{Ports}
use tide.Schemas.Telemetry.{Telemetry}
use tide.Schemas.Events.{Event}

-- The stores of the process, the Redis server, and everything else.
pub record Hot (F S W : Type 0) : Type 0 where
  pub states : State.MemoryStore F
  pub dedup : Dedup.MemoryStore
  pub redis : S
  pub rest : W

module _ {F S W : Type 0} where
  -- An operation on everything else.
  abbrev pub lifted : {A : Type 0} → (W → A × W) → Hot F S W → A × Hot F S W
  lifted f h = let (a, w) = f h.rest in (a, record h { rest = w })

  -- An operation on the Redis server.
  abbrev pub on_redis : {A : Type 0} → (S → A × S) → Hot F S W → A × Hot F S W
  on_redis f h = let (a, s) = f h.redis in (a, record h { redis = s })

  unfoldable pub fresh_hot : S → W → Hot F S W
  fresh_hot s w = record {
    states = empty_store;
    dedup = Dedup.new_store (pos 0);
    redis = s;
    rest = w;
  }

module _ {F E S W : Type 0} (p : Ports F E W) where
  abbrev pub lifted_geo :
      Option (Telemetry F → W → List (Event F) × W)
      → Option (Telemetry F → Hot F S W → List (Event F) × Hot F S W)
  lifted_geo none = none
  lifted_geo (some f) = some (λ t. lifted (f t))

  abbrev pub lifted_rules :
      Option (Time → Telemetry F → VehicleState F → List (Event F) → W → List (Event F) × W)
      → Option (
          Time
          → Telemetry F
          → VehicleState F
          → List (Event F)
          → Hot F S W
          → List (Event F) × Hot F S W)
  lifted_rules none = none
  lifted_rules (some f) = some (λ at t s evs. lifted (f at t s evs))

  -- The stores of the process.
  unfoldable pub memory_backed : Ports F E (Hot F S W)
  memory_backed = record {
    seen = λ at key h. let (dup, m) = Dedup.seen at key h.dedup in (ok dup, record h { dedup = m });
    append = λ t. lifted (p.append t);
    get = λ id h. (ok (State.get_state id h.states), h);
    set = λ s h. (none, record h { states = State.set_state s h.states });
    detect = λ t s. lifted (p.detect t s);
    geo = lifted_geo p.geo;
    rules = lifted_rules p.rules;
    publish = λ e. lifted (p.publish e);
  }

  module _ {X B : Type 0} (client : Client X B S) (one : B) (codec : Codec F B)
      (fault : StoreError X → E) where
    abbrev pub faulty : {A : Type 0} → Result (StoreError X) A × Hot F S W → Result E A × Hot F S W
    faulty (err x, h) = (err (fault x), h)
    faulty (ok a, h) = (ok a, h)

    abbrev pub seen_reply : Result X Bool × Hot F S W → Result E Bool × Hot F S W
    seen_reply (err x, h) = (err (fault (StateRedis.redis x)), h)
    seen_reply (ok a, h) = (ok a, h)

    abbrev pub set_reply : Option (StoreError X) × Hot F S W → Option E × Hot F S W
    set_reply (none, h) = (none, h)
    set_reply (some x, h) = (some (fault x), h)

    -- The stores in Redis; the window of the deduplication is a day.
    unfoldable pub redis_backed : Ports F E (Hot F S W)
    redis_backed = record {
      seen = λ at key h.
          seen_reply (on_redis (DedupRedis.seen client one (DedupRedis.ttl_or_day 0) at key) h);
      append = λ t. lifted (p.append t);
      get = λ id h. faulty (on_redis (StateRedis.get_state client codec id) h);
      set = λ s h. set_reply (on_redis (StateRedis.set_state client codec s) h);
      detect = λ t s. lifted (p.detect t s);
      geo = lifted_geo p.geo;
      rules = lifted_rules p.rules;
      publish = λ e. lifted (p.publish e);
    }

    abbrev pub answered : {A : Type 0} → Result (StoreError X) A → Bool
    answered (err x) = false
    answered (ok a) = true

    -- `pingRedis`: a read that gives no error.
    unfoldable pub ping_redis : Hot F S W → Bool × Hot F S W
    ping_redis h =
        let (answer, h') = on_redis (StateRedis.get_state client codec "__boot_ping__") h in
        (answered answer, h')

    -- The stores that `Build` chooses.
    unfoldable pub build_hot : Hot F S W → Ports F E (Hot F S W) × Hot F S W
    unfolding memory_backed redis_backed ping_redis
    build_hot h = let (up, h') = ping_redis h in (if up then redis_backed else memory_backed, h')
