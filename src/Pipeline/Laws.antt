-- ===== src/Pipeline/Laws.antt =====
-- What `Process` does with rejected, repeated and new points (internal/pipeline/pipeline.go).
use mathlib.Core.Option.{get_or}
use mathlib.Core.List.{append_assoc, append-nil}
use tide.Prelude.{
  Bool, true, false, ◌≡◌, ◌≢◌, refl, ◌∙◌, sym, Option, none, some, List, [], ◌∷◌, ◌++◌, arith, All,
  All-mono, Option-cases, inl, inr, ltb_ℤ, ◌⊎◌, ap,
}
use tide.Schemas.Clock.{sub}
use tide.Schemas.Runtime.{Runtime}
use tide.Schemas.Telemetry.{Telemetry, validate, dedup_key}
use tide.Schemas.Telemetry.Laws.{IsCanonical, validate-none_iff}
use tide.Schemas.Events.{Event}
use tide.Schemas.Events
use tide.Schemas.Events.Laws.{IsWellFormed, validate_of_IsWellFormed, IsWellFormed-of_validate}
use tide.Dedup
use tide.Dedup.Laws.{seen_twice}
use tide.State.{VehicleState, apply, zero_state, get_state, set_state}
use tide.Detectors.{detect}
use tide.Detectors.Valid.{detect-IsWellFormed, detect-correlation}
use tide.EventBus.{MemoryBus, publish_memory}
use tide.Pipeline.{
  Ports, Clock, ProcessError, process, is_future, ok, publish_all, publish_events, checked,
  publish_failed,
}
use tide.Pipeline.Memory.{World, memory_ports}

abbrev pub is_publish_error : {F E : Type 0} → Option (ProcessError F E) → Bool
is_publish_error (some (publish_failed _ _)) = true
is_publish_error _ = false

module _ {F E W : Type 0} ⦃r : Runtime F⦄ (p : Ports F E W) (clock : Clock) where
  -- A point that fails `Validate` or lies more than the allowed skew in the future is refused with that
  -- reason before any store is touched.
  pub process-refused :
      (t : Telemetry F) (w : W)
      → (validate t ≢ none) ⊎ (is_future p clock t ≡ true)
      → ((process p clock t w).1 ≡ w)
        × ((process p clock t w).0.error ≢ none)
        × ((process p clock t w).0.events ≡ [])
        × ((process p clock t w).0.dup ≡ false)
  unfolding process
  process-refused t w h = ground arith

  -- A duplicate is absorbed: it yields no events and no error, and nothing but the dedup store's own
  -- answer changes the world; the log, the states, the detectors and the bus are not asked.
  pub process-duplicate :
      (t : Telemetry F) (w w' : W)
      → validate t ≡ none
      → is_future p clock t ≡ false
      → p.seen clock.seen (dedup_key t) w ≡ (ok true, w')
      → process p clock t w ≡ (record { events = []; dup = true; error = none }, w')
  unfolding process
  process-duplicate t w w' valid past dup = rw (valid, process) (rw (past, dup))

module _ {F E W : Type 0} ⦃r : Runtime F⦄ (p : Ports F E W) (clock : Clock) where
  publish_all_next :
      (e : Event F) (es : List (Event F)) (w : W) {w' : W}
      → p.publish e w ≡ (none, w')
      → publish_all p clock (e ∷ es) w ≡ publish_all p clock es w'
  unfolding publish_all
  publish_all_next e es w h = ground arith

  publish_all_stops :
      (e : Event F) (es : List (Event F)) (w : W) {x : E} {w' : W}
      → p.publish e w ≡ (some x, w')
      → publish_all p clock (e ∷ es) w ≡ (some x, w')
  unfolding publish_all
  publish_all_stops e es w h = ground arith

  publish_events_done :
      (es : List (Event F)) (w : W) {w' : W}
      → publish_all p clock es w ≡ (none, w')
      → publish_events p clock es w ≡ (record { events = es; dup = false; error = none }, w')
  unfolding publish_events
  publish_events_done es w h = ground arith

  publish_events_stopped :
      (es : List (Event F)) (w : W) {x : E} {w' : W}
      → publish_all p clock es w ≡ (some x, w')
      → publish_events p clock es w
        ≡ (record { events = es; dup = false; error = some (publish_failed es x) }, w')
  unfolding publish_events
  publish_events_stopped es w h = ground arith

module _ {F : Type 0} ⦃r : Runtime F⦄ where
  publish_memory_lem :
      (e : Event F) (bus : MemoryBus F)
      → IsWellFormed e
      → publish_memory e bus ≡ (none, record { events = bus.events ++ (e ∷ []) })
  unfolding publish_memory
  publish_memory_lem e bus h = rw (validate_of_IsWellFormed e h, publish_memory)

  publish_memory_refused :
      (e : Event F) (bus : MemoryBus F)
      → ¬ IsWellFormed e
      → (x : Events.Invalid) × (publish_memory e bus ≡ (some x, bus))
  unfolding publish_memory
  publish_memory_refused e bus h = elim (Option-cases (Events.validate e)) [
    | inl valid ↦ absurd (h (IsWellFormed-of_validate e valid))
    | inr (x, bad) ↦ (x, rw (bad, publish_memory))
  ]

  abbrev pub with_events : World F → List (Event F) → World F
  with_events w es = record w { bus = record { events = w.bus.events ++ es } }

  stored_bus :
      (w : World F) (e : Event F) {x : Option Events.Invalid} {bus : MemoryBus F}
      → publish_memory e w.bus ≡ (x, bus)
      → memory_ports.publish e w ≡ (x, record w { bus = bus })
  stored_bus w e h = ap (λ out. (out.0, record w { bus = out.1 })) h

  -- Publishing well-formed events on the memory bus appends them all, in their order.
  publish_all-memory :
      (clock : Clock) (es : List (Event F)) (w : World F)
      → All IsWellFormed es
      → publish_all memory_ports clock es w ≡ (none, with_events w es)
  unfolding publish_all
  publish_all-memory clock [] w h =
      ap (λ l. (none, record w { bus = record { events = l } })) (sym (append-nil w.bus.events))
  publish_all-memory clock (e ∷ es) w (h, hs) =
      publish_all_next memory_ports clock e es w (stored_bus w e (publish_memory_lem e w.bus h))
      ∙ publish_all-memory clock es (with_events w (e ∷ [])) hs
      ∙ ap (λ l. (none, record w { bus = record { events = l } }))
          (append_assoc w.bus.events (e ∷ []) es)

  -- What a point that is let through does to the world, whether or not its events can be published.
  abbrev pub next_state : Clock → Telemetry F → World F → VehicleState F
  next_state clock t w =
      (apply (get_or (get_state t.vehicle_id w.states) zero_state) t clock.updated).0

  abbrev pub derived : Clock → Telemetry F → World F → List (Event F)
  derived clock t w = (detect t (next_state clock t w) w.detectors).1

  abbrev pub absorbed : Clock → Telemetry F → World F → World F
  absorbed clock t w = record w {
    dedup = (Dedup.seen clock.seen (dedup_key t) w.dedup).1;
    states = set_state (next_state clock t w) w.states;
    log = w.log ++ (t ∷ []);
    detectors = (detect t (next_state clock t w) w.detectors).0;
  }

  process_reaches :
      (clock : Clock) (t : Telemetry F) (w : World F)
      → validate t ≡ none
      → is_future memory_ports clock t ≡ false
      → (Dedup.seen clock.seen (dedup_key t) w.dedup).0 ≡ false
      → process memory_ports clock t w
        ≡ publish_events memory_ports clock (derived clock t w) (absorbed clock t w)
  unfolding process
  process_reaches clock t w valid past new = rw (valid, process) (rw (past, new, checked))

  -- In the pipeline over the memory stores, without geofences and without rules (`NewTestPipeline`), a
  -- canonical point that has a correlation identifier, lies no further in the future than the allowed
  -- skew and is no duplicate for the dedup store is processed to the end: it is appended to the log,
  -- folded into the state of its vehicle, run through the detectors, and all the events that they find
  -- are published in order and returned, without an error.
  pub process_accepted :
      (clock : Clock) (t : Telemetry F) (w : World F)
      → IsCanonical t
      → t.metadata.correlation_id ≢ ""
      → is_future memory_ports clock t ≡ false
      → (Dedup.seen clock.seen (dedup_key t) w.dedup).0 ≡ false
      → let evs = derived clock t w in
        process memory_ports clock t w
        ≡ (record { events = evs; dup = false; error = none }, with_events (absorbed clock t w) evs)
  process_accepted clock t w canonical correlated past new =
      let evs = derived clock t w in
      process_reaches clock t w ((validate-none_iff t).1 canonical) past new
      ∙ publish_events_done memory_ports clock evs (absorbed clock t w) (
          publish_all-memory clock evs (absorbed clock t w)
            (detect-IsWellFormed t canonical correlated (next_state clock t w) w.detectors))

  -- In the pipeline over the memory stores, without geofences and without rules: when a canonical point
  -- that has a correlation identifier, lies no further in the future than the allowed skew and is no
  -- duplicate has been processed, then a second delivery directly after it, with nothing in between, of
  -- the same point or of any valid point with the same dedup key that is itself no further in the future
  -- than the skew, within the window of the store, is a duplicate and changes nothing at all: no event,
  -- no log entry, no state, no detector and no bus is touched.
  pub process_redelivered :
      (clock again : Clock) (t t' : Telemetry F) (w : World F)
      → IsCanonical t
      → t.metadata.correlation_id ≢ ""
      → is_future memory_ports clock t ≡ false
      → (Dedup.seen clock.seen (dedup_key t) w.dedup).0 ≡ false
      → validate t' ≡ none
      → is_future memory_ports again t' ≡ false
      → dedup_key t' ≡ dedup_key t
      → ltb_ℤ (sub again.seen clock.seen) w.dedup.ttl ≡ true
      → let w' = (process memory_ports clock t w).1 in
        process memory_ports again t' w' ≡ (record { events = []; dup = true; error = none }, w')
  process_redelivered clock again t t' w canonical correlated past new valid past' same within =
      let w' = with_events (absorbed clock t w) (derived clock t w) in
      rw (process_accepted clock t w canonical correlated past new) (
        process-duplicate memory_ports again t' w' w' valid past' (
          ap (λ (o : Bool × Dedup.MemoryStore). (ok o.0, record w' { dedup = o.1 }))
            (rw same (seen_twice w.dedup clock.seen again.seen (dedup_key t) new within))))

  unpublished :
      (clock : Clock) (es : List (Event F)) (w : World F)
      → es ≢ []
      → All (λ e. e.correlation_id ≡ "") es
      → (x : Events.Invalid) × (publish_all memory_ports clock es w ≡ (some x, w))
  unpublished clock [] w some_event h = absurd (some_event refl)
  unpublished clock (e ∷ es) w some_event (missing, hs) =
      let (x, refused) = publish_memory_refused e w.bus (λ wf. wf.correlation_given missing) in
      (x, publish_all_stops memory_ports clock e es w (stored_bus w e refused))

  correlation_missing :
      (clock : Clock) (t : Telemetry F) (w : World F)
      → t.metadata.correlation_id ≡ ""
      → All (λ e. e.correlation_id ≡ "") (derived clock t w)
  correlation_missing clock t w missing =
      All-mono (λ e. e.correlation_id ≡ t.metadata.correlation_id) (λ e. e.correlation_id ≡ "")
        (derived clock t w) (λ e h. h ∙ missing)
        (detect-correlation t (next_state clock t w) w.detectors)

  -- In the pipeline over the memory stores, without geofences and without rules: where a canonical point
  -- without a correlation identifier is no duplicate, lies no further in the future than the allowed
  -- skew, and makes the detectors find at least one event, it is logged and folded into its vehicle's
  -- state and detectors, but the call fails with a publish error and the bus gets none of the events.
  pub process_uncorrelated :
      (clock : Clock) (t : Telemetry F) (w : World F)
      → IsCanonical t
      → t.metadata.correlation_id ≡ ""
      → is_future memory_ports clock t ≡ false
      → (Dedup.seen clock.seen (dedup_key t) w.dedup).0 ≡ false
      → derived clock t w ≢ []
      → ((process memory_ports clock t w).1 ≡ absorbed clock t w)
        × (is_publish_error (process memory_ports clock t w).0.error ≡ true)
        × ((process memory_ports clock t w).1.bus ≡ w.bus)
  process_uncorrelated clock t w canonical missing past new found =
      let evs = derived clock t w in
      let (x, stop) =
        unpublished clock evs (absorbed clock t w) found (correlation_missing clock t w missing) in
      let done =
        process_reaches clock t w ((validate-none_iff t).1 canonical) past new
        ∙ publish_events_stopped memory_ports clock evs (absorbed clock t w) stop in
      (ap (λ o. o.1) done, ap (λ o. is_publish_error o.0.error) done, ap (λ o. o.1.bus) done)
