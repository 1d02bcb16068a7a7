-- ===== src/Tests/Processes.antt =====
-- The processes and their stores, and the theorems at them.
use tide.Prelude.{ℕ, ◌+◌, ◌*◌, ◌≡◌, refl, String, some, List, [], ◌∷◌, lookup, All, map}
use tide.Schemas.Clock.{Time, minute}
use tide.Schemas.Events.{Event}
use tide.State.{VehicleState, Presence, zero_state, get_state}
use tide.EventBus.{MemoryBus, publish_memory}
use tide.Engine
use tide.Engine.{sweep}
use tide.Engine.Laws.{Fleet, over_memory, send_all}
use tide.Engine.Silence.{judged_maybe, silent_events, sweep_silent}
use tide.Adapters.{healthy}
use tide.Adapters.Registry.{configure}
use tide.Api.Connections.{new_adapter_registry}
use tide.Adapters.Registry
use tide.Api.Forward.Laws.{wired, receive_all, IsReadBack, shown_last, heartbeat-receive_all}
use tide.Tests.{whole}
use tide.Tests.Sources.{environment, health}

abbrev silent : VehicleState ℕ
silent = record zero_state {
  tenant_id = "acme";
  vehicle_id = "truck";
  presence = Presence.online;
  last_seen = 5;
}

abbrev recent : VehicleState ℕ
recent = record silent { vehicle_id = "van"; last_seen = 19 * minute }

abbrev fleet : Fleet ℕ (MemoryBus ℕ)
fleet = record {
  store = record { states = ("truck", silent) ∷ ("van", recent) ∷ [] };
  bus = record { events = [] };
}

abbrev sweep_time : Time
sweep_time = 20 * minute

sweep_silent_example :
    let w' = sweep (over_memory publish_memory) sweep_time fleet in
    ((id : String) → get_state id w'.store ≡ judged_maybe sweep_time (get_state id fleet.store))
    × (w'.bus ≡ send_all publish_memory (silent_events sweep_time fleet.store.states) fleet.bus)
unfolding lookup
sweep_silent_example =
    sweep_silent publish_memory sweep_time fleet (refl, (refl, tt)) (refl, (refl, tt))

read_back :
    (regs : List Registry.Adapter)
    → All (λ a. IsReadBack {F = ℕ} (λ e. e) some (Registry.heartbeat 9 health (λ a. 2) a)) regs
read_back [] = tt
read_back (a ∷ regs) = ((_, refl, refl, refl, refl), read_back regs)

heartbeat-receive_all_example :
    let sent = Engine.heartbeat (wired (λ e. e)) 9 health (λ a. 2) (configure environment) [] in
    let (registry, w) = receive_all some (λ e n. n + 1) 30 sent (new_adapter_registry, 0) in
    ((name : String)
      → lookup name registry.entries
        ≡ shown_last 30 name
            (("tide-engine", healthy)
              ∷ map (λ a. (a.name, (health a).state)) (configure environment))
            (lookup name new_adapter_registry.entries))
    × (w ≡ 0)
heartbeat-receive_all_example =
    heartbeat-receive_all (λ (e : Event ℕ). e) some (λ e n. n + 1) 9 30 refl health (λ a. 2)
      environment new_adapter_registry 0 (_, refl, refl, refl, refl)
      (read_back (configure environment))
