-- ===== src/Api/Forward.antt =====
-- cmd/tide-api/server.go: what the API does with the messages of NATS, the health of its bus and the limit
-- of its environment.
pub mod Laws
use tide.Prelude.{
  ℕ, ◌*◌, String, Bool, true, false, ◌&&◌, ◌||◌, if◌then◌else◌, ◌==◌, ltb_ℤ, ℤ, pos, Option, none,
  some, List, [], ◌∷◌,
}
use tide.Schemas.Clock.{Time, sub, minute}
use tide.Schemas.Payload.{Value, Fields, text, get}
use tide.Schemas.Runtime.{Runtime}
use tide.Schemas.Events.{Event}
use tide.Adapters.{
  HealthState, HealthStatus, configured, connecting, healthy, degraded, reconnecting, failed,
}
use tide.Api.{RateLimiter, new_rate_limiter}
use tide.Api.Connections.{AdapterRegistry, set}

-- `adapters.HealthState(state)`, where every other text counts as configured.
abbrev pub state_of : String → HealthState
state_of s =
    if s == "HEALTHY"
    then healthy
    else if s == "CONNECTING"
    then connecting
    else if s == "DEGRADED"
    then degraded
    else if s == "RECONNECTING"
    then reconnecting
    else if s == "FAILED"
    then failed
    else configured

-- `v.(string)`, with the empty text where the assertion fails.
abbrev pub string_of : {F : Type 0} → Option (Value F) → String
string_of (some (text s)) = s
string_of _ = ""

module _ {F : Type 0} ⦃r : Runtime F⦄ where
  open r use {of_int}

  abbrev pub status_with : HealthState → String → HealthStatus F
  status_with state message = record {
    state = state;
    message = message;
    device_count = pos 0;
    msg_per_sec = of_int (pos 0);
  }

  -- `heartbeatStatus`
  unfoldable pub heartbeat_status : String → String → HealthStatus F
  heartbeat_status state message = status_with (state_of state) message

  module _ {W : Type 0} (inject : Event F → W → W) (now : Time) where
    abbrev pub beat : Fields F → AdapterRegistry F → AdapterRegistry F
    beat payload registry =
        let name = string_of (get "name" payload) in
        let state = string_of (get "state" payload) in
        if name == ""
        then registry
        else set name (heartbeat_status state "via tide.heartbeat") now registry

    abbrev pub take : Event F → AdapterRegistry F × W → AdapterRegistry F × W
    take e (registry, w) =
        if e.kind == "tide.heartbeat.created"
        then (beat e.payload registry, w)
        else (registry, inject e w)

    -- The function that `runAPI` subscribes with, for a message as the JSON decoder reads it.
    unfoldable pub receive : Option (Event F) → AdapterRegistry F × W → AdapterRegistry F × W
    receive none s = s
    receive (some e) s = take e s

  -- The tick of the bus health, by what `LastError` gives: `none` for its zero time.
  unfoldable pub watch_bus : Time → Option (Time × String) → AdapterRegistry F → AdapterRegistry F
  watch_bus now none registry = set "eventbus" (status_with healthy "") now registry
  watch_bus now (some (at, message)) registry =
      if ltb_ℤ (sub now at) (pos (10 * minute))
      then set "eventbus" (status_with degraded message) now registry
      else set "eventbus" (status_with healthy "") now registry

-- `rateLimiterFromEnv` for the trimmed text, with `strconv.Atoi`: `none` leaves the default to `New`.
unfoldable pub rate_limiter_from_env : (String → Option ℤ) → String → Option RateLimiter
rate_limiter_from_env atoi v = if v == "" then none else elim (atoi v) [
  | none ↦ none
  | some n ↦ if ltb_ℤ n (pos 0) then none else some (new_rate_limiter n minute)
]

-- The limiter that `New` takes.
unfoldable pub limiter_or_default : Option RateLimiter → RateLimiter
limiter_or_default none = new_rate_limiter (pos 600) minute
limiter_or_default (some l) = l
