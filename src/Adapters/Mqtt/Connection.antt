-- ===== src/Adapters/Mqtt/Connection.antt =====
-- adapters/mqtt/mqtt.go: the connection, with exponential backoff, and the raw entry point.
pub mod Laws
use mathlib.Core.Option.{get_or}
use tide.Prelude.{
  ℕ, zero, suc, ◌+◌, ◌*◌, ◌<>◌, ltb, String, Bool, true, false, if◌then◌else◌, Option, none, some,
  ℤ, pos, List, [], ◌∷◌, Result, ok, err,
}
use tide.Schemas.Clock.{Time, zero_time, nanos}
use tide.Schemas.Payload.{Fields}
use tide.Schemas.Runtime.{Runtime}
use tide.Schemas.Telemetry.{Telemetry}
use tide.Adapters.{HealthState, configured, connecting, healthy, degraded, reconnecting, failed}
use tide.Adapters.Mqtt.Mapping.{MappingConfig, Host, map_payload, Error}

pub record Adapter : Type 0 where
  pub cfg : MappingConfig
  pub state : HealthState
  pub message : String
  pub count : ℕ
  pub start : Time

unfoldable pub new : MappingConfig → Adapter
new cfg = record { cfg = cfg; state = configured; message = ""; count = 0; start = zero_time }

unfoldable pub set_state : HealthState → String → Adapter → Adapter
set_state s msg a = record a { state = s; message = msg }

-- What one attempt to connect or one pause comes to.
pub record Net (W : Type 0) : Type 0 where
  -- the client's `Connect`, and whether it succeeded in time
  pub dial : W → Bool × W
  -- a pause of at least the given nanoseconds and less than twice as long; the error of the context, if it
  -- is done first
  pub pause : ℕ → W → Option String × W
  pub now : W → Time
  -- `attempt %d`
  pub print_attempt : ℕ → String
  -- `Subscribe` to a topic, and whether it was acknowledged in time
  pub subscribe : String → W → Bool × W
  -- `Disconnect` of the client, if it is connected
  pub disconnect : W → W

pub data ConnectError : Type 0 where
  cancelled : String → ConnectError
  broker_unreachable : ConnectError

abbrev first_backoff : ℕ
first_backoff = 500_000_000

abbrev pub next_backoff : ℕ → ℕ
next_backoff b = if ltb (30 * nanos) (b * 2) then 30 * nanos else b * 2

-- How a run of the loop ends; `running` is a run that the fuel did not carry to its end.
pub data Ending : Type 0 where
  connected running : Ending
  stopped : ConnectError → Ending

module _ {W : Type 0} (net : Net W) where
  open net use {dial, pause, now, print_attempt, subscribe, disconnect}

  -- The loop of `Connect` from one attempt on.
  connect_from : ℕ → ℕ → ℕ → Adapter → W → Ending × Adapter × W
  unfolding set_state
  connect_from zero attempt backoff a w = (running, a, w)
  connect_from (suc fuel) attempt backoff a w =
      let (up, w₁) = dial w in
      let (done, w₂) = pause backoff w₁ in
      let waiting = set_state reconnecting (print_attempt (attempt + 1)) a in
      let rest = connect_from fuel (attempt + 1) (next_backoff backoff) waiting w₂ in
      if up
      then (connected, set_state healthy "" (record a { start = now w₁ }), w₁)
      else elim done [
        | some msg ↦ (stopped (cancelled msg), set_state failed msg a, w₂)
        | none ↦
            if ltb 8 attempt
            then (stopped broker_unreachable, set_state failed "broker unreachable" a, w₂)
            else rest
      ]

  -- `Connect`, on fuel.
  unfoldable pub connect : ℕ → Adapter → W → Ending × Adapter × W
  unfolding connect_from set_state
  connect fuel a w = connect_from fuel 0 first_backoff (set_state connecting "" a) w

  unfoldable pub close : Adapter → W → Adapter × W
  unfolding set_state
  close a w = (set_state configured "" a, disconnect w)

  -- `Subscribe`: the topics in order, up to the first that is refused, which is returned.
  unfoldable pub subscribe_all : List String → Adapter → W → Option String × Adapter × W
  unfolding set_state
  subscribe_all [] a w = (none, a, w)
  subscribe_all (t ∷ ts) a w =
      let (acknowledged, w') = subscribe t w in
      let rest = subscribe_all ts a w' in
      if acknowledged then rest else (some t, set_state degraded ("subscribe failed: " <> t) a, w')

-- The callback of a subscription: a message that the handler takes is counted.
abbrev pub counted {ℓ} : {E : Type ℓ} → Option E → Adapter → Adapter
counted none a = record a { count = a.count + 1 }
counted (some _) a = a

pub data HandleError (E : Type 0) : Type 0 where
  unmapped : Error → HandleError E
  not_emitted : E → HandleError E

module _ {E : Type 0} where
  emitted : {W : Type 0} → Option E × W → Option (HandleError E) × W
  emitted (none, w) = (none, w)
  emitted (some e, w) = (some (not_emitted e), w)

module _ {F E W : Type 0} ⦃r : Runtime F⦄ (host : Host F)
    (emit : Telemetry F → W → Option E × W) where
  handle_mapped : Result Error (Telemetry F) → W → Option (HandleError E) × W
  unfolding emitted
  handle_mapped (err e) w = (some (unmapped e), w)
  handle_mapped (ok t) w = emitted (emit t w)

  -- `HandleRaw`.
  unfoldable pub handle_raw :
      Adapter → String → String → Option (Fields F) → Time → W → Option (HandleError E) × W
  unfolding handle_mapped
  handle_raw a corr_id topic doc now w =
      handle_mapped (map_payload host a.cfg corr_id topic doc now) w
