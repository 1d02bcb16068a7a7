-- ===== src/Tests/Handlers.antt =====
-- Requests to the handlers of internal/api, and the theorems at them.
use mathlib.Core.List.{Memᴰ}
use tide.Prelude.{
  List, ℕ, ◌+◌, ◌≤◌, ◌≡◌, ◌≢◌, ◌↔◌, String, true, false, Option, none, some, pos, [], ◌∷◌, ◌++◌,
  length, refl, ok,
}
use tide.Schemas.Telemetry.{Telemetry, validate}
use tide.Schemas.Events.{Event}
use tide.EventBus.{MemoryBus}
use tide.Geo.{Geofence, Tracker, new_tracker}
use tide.Geo.Tracks.{track}
use tide.Geo.Laws.{is_inside, evaluate_all, evaluate_all-track}
use tide.Pipeline
use tide.Pipeline.{Ports}
use tide.Api.Replies.{status}
use tide.Api.Ingest.{Decoder, Surroundings, Summary, handle_ingest, admit, unpacked}
use tide.Api.Ingest.Laws as Ingest
use tide.Api.Simulate.Laws as Simulate
use tide.Api.Ingest.Laws.{handle_ingest-accepted}
use tide.Api.Events.{Query, handle_events}
use tide.Api.Events.Laws.{handle_events_iff, Asked}
use tide.Api.Geofences.{Held, post_geofence, is_incomplete, kept}
use tide.Api.Geofences.Laws.{post_geofence_lem}
use tide.Api.Simulate.{SimRequest, SimStatus, run_all, running, take, max_sim_points, Started}
use tide.Api.Simulate.Laws.{run_all-Ends, Ends}
use tide.Simulator.Faults.{Config}
use tide.Simulator.Generators.{Scenario}
use tide.Tests.{whole, first, second, clock}

-- A pipeline that takes every point, over a count of the points as the world.
abbrev taking : Ports ℕ ℕ ℕ
taking = record {
  seen = λ at key w. (ok false, w);
  append = λ t w. (none, w + 1);
  get = λ id w. (ok none, w);
  set = λ s w. (none, w);
  detect = λ t s w. ([], w);
  geo = none;
  rules = none;
  publish = λ e w. (none, w);
}

abbrev around : Surroundings ℕ ℕ
around = record {
  now = λ w. 10;
  new_id = λ w. ("minted", w);
  clock = λ w. clock;
  broadcast = λ e w. w;
  append_event = none;
  append_telemetry = none;
}

-- Message 0 is a batch of two points; every other message is the one point.
abbrev decoder : Decoder ℕ ℕ
decoder = record {
  batch = λ raw. elim raw [ ℕ.zero ↦ some (1 ∷ 2 ∷ []) | ℕ.suc _ ↦ none ];
  telemetry = λ raw. ok (record first { id = "" });
  print_invalid = λ e. "invalid";
}

abbrev post : String
post = "POST"

abbrev answer : Summary
answer = record { accepted = 2; events = 0 }

handle_ingest-accepted_example :
    let batch = unpacked decoder (0 ∷ []) in
    (post ≡ "POST")
    × (answer.accepted ≡ length batch)
    × Ingest.AllTaken decoder around taking (around.now 0) batch 0
unfolding handle_ingest admit validate Pipeline.process
handle_ingest-accepted_example = handle_ingest-accepted decoder around taking post 0 0 answer refl

abbrev entered : Event ℕ
entered = record {
  id = "e";
  kind = "vehicle.trip.started";
  tenant_id = "acme";
  vehicle_id = "truck";
  timestamp = 5;
  rule_id = "";
  rule_version = "";
  correlation_id = "c";
  causation_id = "a";
  payload = tide.Schemas.Payload.end;
  schema_version = pos 1;
}

abbrev foreign : Event ℕ
foreign = record entered { tenant_id = "other" }

abbrev bus : MemoryBus ℕ
bus = record { events = entered ∷ foreign ∷ [] }

abbrev query : Query
query = record { tenant = "acme"; vehicle = "truck"; kind = "" }

handle_events_iff_example :
    Memᴰ foreign (entered ∷ []) ↔ (Memᴰ foreign (entered ∷ foreign ∷ []) × Asked query foreign)
unfolding handle_events
handle_events_iff_example = handle_events_iff bus query 200 (entered ∷ []) refl foreign

abbrev yard : Geofence ℕ
yard = record {
  id = "yard";
  tenant_id = "acme";
  name = "Yard";
  polygon =
      record { lat = 0; lng = 0 } ∷ record { lat = 0; lng = 9 } ∷ record { lat = 9; lng = 9 } ∷ [];
}

abbrev watching : Tracker ℕ
watching = new_tracker (yard ∷ [])

abbrev at_yard : List (Telemetry ℕ)
at_yard =
    record first { location = record first.location { lat = 4; lng = 9 } }
    ∷ record second { location = record second.location { lat = 5; lng = 2 } }
    ∷ second
    ∷ []

evaluate_all-track_example :
    track "truck" "yard"
      (some (is_inside "truck" "yard" watching))
      (evaluate_all watching at_yard).1
    ≡ some (is_inside "truck" "yard" (evaluate_all watching at_yard).0)
evaluate_all-track_example = evaluate_all-track "truck" "yard" watching at_yard

-- A database that takes no fence.
abbrev full : Option (Geofence ℕ → ℕ → Option String × ℕ)
full = some (λ f w. (some "disk full", w))

abbrev held : Held ℕ ℕ
held = record { store = record { fences = [] }; tracker = new_tracker []; world = 0 }

post_geofence_example :
    let (reply, h') = post_geofence full yard held in
    let (failure, w') = kept full yard held.world in
    ((is_incomplete yard ≡ true) → (status reply ≡ 422) × (h' ≡ held))
    × ((is_incomplete yard ≡ false)
        → (h'.store.fences ≡ held.store.fences ++ (yard ∷ []))
          × (failure ≡ none → (status reply ≡ 201) × (h'.tracker.fences ≡ h'.store.fences))
          × (failure ≢ none → (status reply ≡ 422) × (h'.tracker ≡ held.tracker)))
post_geofence_example = post_geofence_lem full yard held

abbrev fresh : SimStatus
fresh = record {
  id = "sim-1";
  state = running;
  scenario = "mixed";
  vehicles = pos 1;
  points = 0;
  accepted = 0;
  events = 0;
  error = "";
}

run_all-Ends_example :
    let st' = (run_all taking around (λ w. false) at_yard fresh 0).0 in
    (st'.points ≡ length (take max_sim_points at_yard))
    × (st'.points ≤ max_sim_points)
    × Ends st'.state fresh.accepted st'.points st'.accepted
        (Simulate.AllTaken taking around (λ w. false) (take max_sim_points at_yard) 0)
run_all-Ends_example = run_all-Ends taking around (λ w. false) at_yard fresh 0

abbrev quiet : Config ℕ
quiet = record {
  duplicate_rate = 0;
  late_rate = 0;
  late_by = "";
  missing_rate = 1;
  out_of_order_rate = 0;
  gps_drift_m = 0;
  offline_vehicles = 0;
}

abbrev request : SimRequest ℕ
request = record { scenario = ""; vehicles = pos 0; seed = pos 7; tenant = ""; faults = quiet }

abbrev plan : Scenario ℕ
plan = record {
  name = "mixed";
  seed = pos 3;
  step_secs = pos 10;
  duration_secs = pos 30;
  start_lat = 1;
  start_lng = 1;
  spread_km = 1;
  mix = ("normal", 1) ∷ [];
}

abbrev begun : Started ℕ
begun = record {
  plan = plan;
  request = record request { scenario = "mixed"; vehicles = pos 10; tenant = "default" };
  status = record fresh { id = "sim-i"; vehicles = pos 10 };
}
