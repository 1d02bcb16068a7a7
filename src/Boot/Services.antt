-- ===== src/Boot/Services.antt =====
-- `Build` of internal/boot/boot.go: the database and the buses, by what the services answer at the start.
pub mod Laws
use tide.Prelude.{String, Option, none, some, List, [], ◌∷◌}
use tide.Schemas.Clock.{Time}
use tide.Schemas.Events.{Event, Invalid}
use tide.EventBus.{
  MemoryBus, Bus, fan_out, publish_memory, Resilient, Transport, Dialled, connected, refused,
  publish_resilient,
}

-- `store.Open` and `Migrator.ApplyPending` with the data source of the configuration, over a world `W`:
-- a store of type `P`, and the files that were applied, with the error that ended it.
pub record Postgres (P E W : Type 0) : Type 0 where
  pub open_store : W → Option P × W
  pub apply_pending : W → (List String × Option E) × W
  pub close : P → W → W

module _ {P E W : Type 0} (db : Postgres P E W) where
  open db use {open_store, apply_pending, close}

  abbrev pub migrated : P → (List String × Option E) × W → Option P × W
  migrated pg ((applied, some e), w) = (none, close pg w)
  migrated pg ((applied, none), w) = (some pg, w)

  abbrev pub opened : Option P × W → Option P × W
  opened (none, w) = (none, w)
  opened (some pg, w) = migrated pg (apply_pending w)

  -- The store of the bundle: none where it cannot be opened or its migrations fail.
  unfoldable pub build_store : W → Option P × W
  build_store w = opened (open_store w)

-- The memory bus of the bundle, its NATS bus where there is one, and everything else.
pub record Buses (F C E W : Type 0) : Type 0 where
  pub mem : MemoryBus F
  pub nats : Option (Resilient C E)
  pub rest : W

pub data BusError (E : Type 0) : Type 0 where
  memory : Invalid → BusError E
  transport : E → BusError E

abbrev pub memory_failed : {E : Type 0} → Option Invalid → Option (BusError E)
memory_failed none = none
memory_failed (some x) = some (memory x)

module _ {F C E W : Type 0} where
  -- The memory bus, as a bus on all of it.
  abbrev pub to_memory : Bus F (BusError E) (Buses F C E W)
  to_memory e b =
      let (error, mem) = publish_memory e b.mem in (memory_failed error, record b { mem = mem })

  abbrev pub sent_on :
      Buses F C E W → Option E × (Resilient C E × W) → Option (BusError E) × Buses F C E W
  sent_on b (none, (r, w)) = (none, record b { nats = some r; rest = w })
  sent_on b (some x, (r, w)) = (some (transport x), record b { nats = some r; rest = w })

module _ {F C E W : Type 0} (net : Transport F C E W) (now : Time) where
  -- The NATS bus, as a bus on all of it.
  abbrev pub over_nats :
      Event F → Option (Resilient C E) → Buses F C E W → Option (BusError E) × Buses F C E W
  over_nats e none b = (none, b)
  over_nats e (some r) b = sent_on b (publish_resilient net now e (r, b.rest))

  abbrev pub to_nats : Bus F (BusError E) (Buses F C E W)
  to_nats e b = over_nats e b.nats b

  -- The bus of the pipeline: the fan-out to NATS and the memory, or the memory alone.
  abbrev pub bus_for : Dialled C E × W → Bus F (BusError E) (Buses F C E W) × Buses F C E W
  bus_for (refused x, w) =
      (to_memory, record { mem = record { events = [] }; nats = none; rest = w })
  bus_for (connected conn, w) = (
    fan_out (to_nats ∷ to_memory ∷ []),
    record {
      mem = record { events = [] };
      nats = some (record { conn = conn; last_error = none });
      rest = w;
    },
  )

  unfoldable pub build_bus : W → Bus F (BusError E) (Buses F C E W) × Buses F C E W
  build_bus w = bus_for (net.dial w)
