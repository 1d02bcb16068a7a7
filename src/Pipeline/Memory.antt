-- ===== src/Pipeline/Memory.antt =====
-- `NewTestPipeline` and `MemoryLog` (internal/pipeline/pipeline.go): the pipeline over the memory stores,
-- without geofences and rules.
use tide.Prelude.{none, List, [], ◌∷◌, ◌++◌, pos}
use tide.Schemas.Runtime.{Runtime}
use tide.Schemas.Telemetry.{Telemetry}
use tide.Schemas.Events.{Invalid}
use tide.Dedup
use tide.State
use tide.State.{get_state, set_state, empty_store}
use tide.Detectors.{Tracker, detect, new_tracker, default_config}
use tide.EventBus.{MemoryBus, publish_memory}
use tide.Pipeline.{Ports, ok}

pub record World (F : Type 0) : Type 0 where
  pub dedup : Dedup.MemoryStore
  pub states : State.MemoryStore F
  pub log : List (Telemetry F)
  pub bus : MemoryBus F
  pub detectors : Tracker F

module _ {F : Type 0} ⦃r : Runtime F⦄ where
  unfoldable pub new_test_pipeline : World F
  new_test_pipeline = record {
    dedup = Dedup.new_store (pos 0);
    states = empty_store;
    log = [];
    bus = record { events = [] };
    detectors = new_tracker default_config;
  }

  abbrev pub memory_ports : Ports F Invalid (World F)
  memory_ports = record {
    seen = λ now key w.
        let (dup, store) = Dedup.seen now key w.dedup in (ok dup, record w { dedup = store });
    append = λ t w. (none, record w { log = w.log ++ (t ∷ []) });
    get = λ vehicle_id w. (ok (get_state vehicle_id w.states), w);
    set = λ s w. (none, record w { states = set_state s w.states });
    detect = λ t s w.
        let (tracker, evs) = detect t s w.detectors in (evs, record w { detectors = tracker });
    geo = none;
    rules = none;
    publish =
        λ e w. let (failure, bus) = publish_memory e w.bus in (failure, record w { bus = bus });
  }
