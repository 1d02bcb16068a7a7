-- ===== src/Adapters/Registry/Laws.antt =====
-- The heartbeats and the counters of adapters/registry/registry.go.
use mathlib.Core.List.{append_assoc, append-nil}
use text.Mathlib.TextLemmas.{append-eq-nil_iff}
use tide.Adapters.Mqtt.Mapping.{MappingConfig, Error, load_mapping}
use tide.Prelude.{
  ℕ, ◌+◌, ◌≡◌, ◌≢◌, false, Bool-cases, Option-cases, inl, inr, refl, sym, ap, ◌∙◌, arith, Option,
  none, some, List, [], ◌∷◌, ◌++◌, map, All, All-append, String, ◌==◌, Result, ok, err, split,
}
use tide.Schemas.Clock.{Time, is_zero}
use tide.Schemas.Runtime.{Runtime}
use tide.Schemas.Telemetry.{Telemetry}
use tide.Schemas.Events.{Event, is_transition, valid_suffix}
use tide.Schemas.Events.Laws.{IsWellFormed, validate_of_IsWellFormed}
use tide.EventBus.{MemoryBus, publish_memory}
use tide.Adapters.{HealthStatus}
use tide.Adapters.Registry.{
  Adapter, Environment, configure, mqtt_sources, traccar_sources, mqtt_with, or_default, heartbeat,
  heartbeats, emitting,
}

abbrev pub IsNamed : Adapter → Type 0
IsNamed a = a.name ≢ ""

mqtt_with-IsNamed :
    (env : Environment) (broker : String) (c : Result Error MappingConfig)
    → All IsNamed (mqtt_with env broker c)
mqtt_with-IsNamed env broker (err e) = tt
mqtt_with-IsNamed env broker (ok mc) = ((λ e. absurd (cc e)), tt)

mqtt_sources-IsNamed : (env : Environment) → All IsNamed (mqtt_sources env)
unfolding mqtt_sources
mqtt_sources-IsNamed env =
    let broker = env.getenv "TIDE_MQTT_BROKER" in
    let file =
      env.mapping_at (or_default (env.getenv "TIDE_MQTT_MAPPING") "examples/mqtt-mapping.yaml") in
    elim (Bool-cases (broker == "")) [
      | inl off ↦ rw off tt
      | inr on ↦ elim (Option-cases file) [
        | inl missing ↦ rw (on, missing) tt
        | inr (raw, read) ↦ rw (on, read) (mqtt_with-IsNamed env broker (load_mapping raw))
      ]
    ]

traccar_sources-IsNamed : (env : Environment) → All IsNamed (traccar_sources env)
unfolding traccar_sources
traccar_sources-IsNamed env = elim (Bool-cases (env.getenv "TIDE_TRACCAR_URL" == "")) [
  | inl off ↦ rw off tt
  | inr on ↦ rw on ((λ e. absurd (cc e)), tt)
]

pub configure-IsNamed : (env : Environment) → All IsNamed (configure env)
unfolding configure
configure-IsNamed env =
    All-append IsNamed (mqtt_sources env) (traccar_sources env) (mqtt_sources-IsNamed env)
      (traccar_sources-IsNamed env)

module _ {F : Type 0} ⦃r : Runtime F⦄ where
  pub heartbeat-IsWellFormed :
      (now : Time) (health : Adapter → HealthStatus F) (elapsed : Adapter → F) (a : Adapter)
      → is_zero now ≡ false
      → IsNamed a
      → IsWellFormed (heartbeat now health elapsed a)
  unfolding heartbeat is_transition valid_suffix split
  heartbeat-IsWellFormed now health elapsed a given named = record {
    id_given = (λ e. named ((append-eq-nil_iff.0 e).1));
    kind_given = (λ e. absurd (cc e));
    tenant_given = (λ e. absurd (cc e));
    vehicle_given = named;
    kind_transition = refl;
    timestamp_given = given;
    correlation_given = (λ e. absurd (cc e));
    schema_current = refl;
  }

  -- a publish of a well-formed event on the memory bus
  publish_memory-appends :
      (e : Event F) (bus : MemoryBus F)
      → IsWellFormed e
      → (publish_memory e bus).1 ≡ record bus { events = bus.events ++ (e ∷ []) }
  unfolding publish_memory
  publish_memory-appends e bus w = rw (validate_of_IsWellFormed e w, publish_memory) refl

  heartbeats-appends :
      (now : Time) (health : Adapter → HealthStatus F) (elapsed : Adapter → F) (regs : List Adapter)
      (bus : MemoryBus F)
      → is_zero now ≡ false
      → All IsNamed regs
      → (heartbeats publish_memory now health elapsed regs bus).events
        ≡ bus.events ++ map (heartbeat now health elapsed) regs
  unfolding heartbeats
  heartbeats-appends now health elapsed [] bus given named = sym (append-nil bus.events)
  heartbeats-appends now health elapsed (a ∷ regs) bus given (named, rest) =
      let e = heartbeat now health elapsed a in
      let bus' = (publish_memory e bus).1 in
      let w = heartbeat-IsWellFormed now health elapsed a given named in
      heartbeats-appends now health elapsed regs bus' given rest
      ∙ ap (λ (b : MemoryBus F). b.events ++ map (heartbeat now health elapsed) regs)
          (publish_memory-appends e bus w)
      ∙ append_assoc bus.events (e ∷ []) (map (heartbeat now health elapsed) regs)

  -- Every source that the environment configures gets one heartbeat on the memory bus, in order: none of
  -- them is refused.
  pub heartbeats-configure :
      (env : Environment) (now : Time) (health : Adapter → HealthStatus F) (elapsed : Adapter → F)
      (bus : MemoryBus F)
      → is_zero now ≡ false
      → (heartbeats publish_memory now health elapsed (configure env) bus).events
        ≡ bus.events ++ map (heartbeat now health elapsed) (configure env)
  heartbeats-configure env now health elapsed bus given =
      heartbeats-appends now health elapsed (configure env) bus given (configure-IsNamed env)

module _ {F E W : Type 0} (process : Telemetry F → W → Option E × W) where
  -- the points one after the other, with the counter of the adapter
  abbrev pub emit_all : List (Telemetry F) → ℕ × W → ℕ × W
  emit_all [] s = s
  emit_all (t ∷ ts) s = emit_all ts (emitting process t s).1

  abbrev pub taken : Telemetry F → W → ℕ
  taken t w = elim (process t w).0 [ none ↦ 1 | some _ ↦ 0 ]

  -- the points that the pipeline takes without an error, when it is given all of them in turn
  abbrev pub accepted : List (Telemetry F) → W → ℕ
  accepted [] w = 0
  accepted (t ∷ ts) w = taken t w + accepted ts (process t w).1

  emitting_lem :
      (t : Telemetry F) (count : ℕ) (w : W)
      → (emitting process t (count, w)).1 ≡ (count + taken t w, (process t w).1)
  unfolding emitting
  emitting_lem t count w = elim (Option-cases (process t w).0) [
    | inl fine ↦ rw (fine, emitting, taken) refl
    | inr (e, refused) ↦
        rw (refused, emitting, taken) (ap (λ (n : ℕ). (n, (process t w).1)) (omega arith))
  ]

  -- The counter of an adapter grows by exactly the points that the pipeline took without an error.
  pub emitting-counts :
      (ts : List (Telemetry F)) (count : ℕ) (w : W)
      → (emit_all ts (count, w)).0 ≡ count + accepted ts w
  emitting-counts [] count w = omega arith
  emitting-counts (t ∷ ts) count w =
      let w' = (process t w).1 in
      let rest = emitting-counts ts (count + taken t w) w' in
      ap (λ s. (emit_all ts s).0) (emitting_lem t count w) ∙ rest ∙ omega arith
