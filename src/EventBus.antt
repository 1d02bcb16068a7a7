-- ===== src/EventBus.antt =====
-- internal/eventbus/eventbus.go: the buses that events are published on.
pub mod Laws
pub mod Nats
pub mod Subscription
use tide.Prelude.{
  ℕ, String, Bool, true, false, if◌then◌else◌, Option, none, some, List, [], ◌∷◌, ◌++◌, ◌&&◌,
}
use tide.Schemas.Clock.{Time}
use tide.Schemas.Events.{Event, Invalid, validate}

-- `MemoryBus`
pub record MemoryBus (F : Type 0) : Type 0 where
  pub events : List (Event F)

module _ {F : Type 0} where
  -- An event that does not pass `Validate` is refused.
  unfoldable pub publish_memory : Event F → MemoryBus F → Option Invalid × MemoryBus F
  publish_memory e bus = elim (validate e) [
    | some err ↦ (some err, bus)
    | none ↦ (none, record bus { events = bus.events ++ (e ∷ []) })
  ]

  unfoldable pub reset : MemoryBus F → MemoryBus F
  reset bus = record { events = [] }

  abbrev pub snapshot : MemoryBus F → List (Event F)
  snapshot bus = bus.events

-- A bus with errors `E` over a world `W`, as the interface `Bus`.
abbrev pub Bus : Type 0 → Type 0 → Type 0 → Type 0
Bus F E W = Event F → W → Option E × W

abbrev pub or_else {ℓ} : {A : Type ℓ} → Option A → Option A → Option A
or_else none o = o
or_else (some a) o = some a

module _ {F E W : Type 0} where
  -- `FanOut.Publish`, with the first error so far.
  fan_out_from : Option E → List (Bus F E W) → Bus F E W
  fan_out_from first [] e w = (first, w)
  fan_out_from first (c ∷ children) e w =
      let (err, w') = c e w in fan_out_from (or_else first err) children e w'

  unfoldable pub fan_out : List (Bus F E W) → Bus F E W
  unfolding fan_out_from
  fan_out = fan_out_from none

-- `ResilientBus`: its connection of type `C`, and what is recorded of the last failure.
pub record Resilient (C E : Type 0) : Type 0 where
  pub conn : C
  pub last_error : Option (Time × E)

pub data Dialled (C E : Type 0) : Type 0 where
  connected : C → Dialled C E
  refused : E → Dialled C E

-- The transport that a connection stands for, over the world `W`: `NATSBus` in production.
pub record Transport (F C E W : Type 0) : Type 0 where
  pub dial : W → Dialled C E × W
  pub close : C → W → W
  pub send : C → Event F → W → Option E × W

module _ {F C E W : Type 0} (net : Transport F C E W) (now : Time) where
  open net use {dial, close, send}

  -- `fail`
  failed : Resilient C E → E → W → Option E × (Resilient C E × W)
  failed b err w = (some err, (record b { last_error = some (now, err) }, w))

  retried : Resilient C E → Event F → Dialled C E → W → Option E × (Resilient C E × W)
  unfolding failed
  retried b e (refused err) w = failed b err w
  retried b e (connected conn) w =
      let b' = record b { conn = conn } in
      let (err, w') = send conn e (close b.conn w) in
      elim err [ none ↦ (none, (b', w')) | some x ↦ failed b' x w' ]

  -- `Publish`: one redial and one retry after a failure.
  unfoldable pub publish_resilient : Event F → Resilient C E × W → Option E × (Resilient C E × W)
  unfolding retried
  publish_resilient e (b, w) =
      let (err, w') = send b.conn e w in
      elim err [
        | none ↦ (none, (b, w'))
        | some _ ↦ let (found, w'') = dial w' in retried b e found w''
      ]
