-- ===== src/EventBus/Laws.antt =====
-- What the buses promise (internal/eventbus/eventbus.go).
use tide.Prelude.{
  ◌≡◌, refl, Option, none, some, List, [], ◌∷◌, All, All-append, arith, inl, inr, Option-cases,
}
use tide.Schemas.Clock.{Time}
use tide.Schemas.Events.{Event, validate}
use tide.Schemas.Events.Laws.{IsWellFormed, IsWellFormed-of_validate}
use tide.EventBus.{
  MemoryBus, publish_memory, Bus, fan_out, fan_out_from, or_else, Resilient, Transport, connected,
  publish_resilient,
}

or_else_assoc : {A : Type 0} (a b c : Option A) → or_else (or_else a b) c ≡ or_else a (or_else b c)
or_else_assoc none b c = refl
or_else_assoc (some x) b c = refl

module _ {F : Type 0} where
  -- A memory bus that holds well-formed events only still does after any publish.
  pub publish_memory-IsWellFormed :
      (e : Event F) (bus : MemoryBus F)
      → All IsWellFormed bus.events
      → All IsWellFormed (publish_memory e bus).1.events
  unfolding publish_memory
  publish_memory-IsWellFormed e bus h = elim (Option-cases (validate e)) [
    | inl ok ↦
        rw (ok, publish_memory)
          (All-append IsWellFormed bus.events (e ∷ []) h (IsWellFormed-of_validate e ok, tt))
    | inr (err, bad) ↦ rw (bad, publish_memory) h
  ]

module _ {F E W : Type 0} where
  -- The children one after the other, each on the world that the one before it left.
  abbrev pub world_after : List (Bus F E W) → Event F → W → W
  world_after [] e w = w
  world_after (c ∷ children) e w = world_after children e (c e w).1

  abbrev pub first_error : List (Bus F E W) → Event F → W → Option E
  first_error [] e w = none
  first_error (c ∷ children) e w = or_else (c e w).0 (first_error children e (c e w).1)

  fan_out_from_lem :
      (first : Option E) (children : List (Bus F E W)) (e : Event F) (w : W)
      → fan_out_from first children e w
        ≡ (or_else first (first_error children e w), world_after children e w)
  unfolding fan_out_from
  fan_out_from_lem none [] e w = refl
  fan_out_from_lem (some x) [] e w = refl
  fan_out_from_lem first (c ∷ children) e w =
      rw (fan_out_from_lem (or_else first (c e w).0) children e (c e w).1, or_else_assoc)

  -- A fan-out publishes to every child, whichever of them fail, and returns the first error.
  pub fan_out_lem :
      (children : List (Bus F E W)) (e : Event F) (w : W)
      → fan_out children e w ≡ (first_error children e w, world_after children e w)
  unfolding fan_out
  fan_out_lem children e w = fan_out_from_lem none children e w

module _ {F C E W : Type 0} (net : Transport F C E W) (now : Time) where
  -- A resilient publish that reports an error has recorded that error with its time; one that succeeds
  -- leaves the record of the last failure alone.
  pub publish_resilient-records :
      (e : Event F) (b : Resilient C E) (w : W)
      → let (err, (b', w')) = publish_resilient net now e (b, w) in
        b'.last_error ≡ elim err [ none ↦ b.last_error | some x ↦ some (now, x) ]
  unfolding publish_resilient
  publish_resilient-records e b w = ground arith

  -- An outage ends with the dependency's: where the old connection fails but a redial and a send on the
  -- new connection work, the publish succeeds and the new connection is kept.
  pub publish_resilient-recovers :
      (e : Event F) (b : Resilient C E) (w : W) {x : E} {conn : C} {w₁ w₂ w₃ : W}
      → net.send b.conn e w ≡ (some x, w₁)
      → net.dial w₁ ≡ (connected conn, w₂)
      → net.send conn e (net.close b.conn w₂) ≡ (none, w₃)
      → publish_resilient net now e (b, w) ≡ (none, (record b { conn = conn }, w₃))
  unfolding publish_resilient
  publish_resilient-recovers e b w h₁ h₂ h₃ = ground arith
