-- ===== src/Tests/Network.antt =====
-- Connections of NATS and of webhooks, and the theorems at them.
use tide.Prelude.{
  ℕ, refl, none, some, List, [], ◌∷◌, ◌+◌, ◌≡◌, ltb, if◌then◌else◌, false, ok, String, pos, All,
  split, split_from,
}
use tide.Schemas.Payload.{end}
use tide.Schemas.Events.{Event, validate, is_transition, valid_suffix}
use tide.EventBus.{Transport, connected, refused}
use tide.Pipeline.{Ports, publish_all}
use tide.Boot.Services.{Buses, BusError, build_bus}
use tide.Boot.Services.Laws.{Keeps, publish_all-build_bus}
use tide.EventBus.Subscription.{
  Loop, Reach, begin, next, dial_fails, wait_is_over, dial_succeeds, subscribe_succeeds,
}
use tide.EventBus.Subscription.Laws.{IsTidyAt, Reach-IsTidy}
use tide.Tests.{clock, whole}

-- A dial that fails, a wait, and a dial and a subscription that succeed.
abbrev run : (s : Loop) × Reach s
run = (_, next (next (next (next begin dial_fails) wait_is_over) dial_succeeds) subscribe_succeeds)

Reach-IsTidy_example : IsTidyAt run.0.place run.0
Reach-IsTidy_example = Reach-IsTidy run.1

-- Every host has the one address 7.
-- NATS takes one event, and then neither sends nor dials.
abbrev one_event : Transport ℕ ℕ ℕ ℕ
one_event = record {
  dial = λ w. if ltb w 1 then (connected 0, w + 1) else (refused 9, w);
  close = λ c w. w;
  send = λ c e w. if ltb w 2 then (none, w + 1) else (some 7, w);
}

abbrev quiet : Ports ℕ (BusError ℕ) (Buses ℕ ℕ ℕ ℕ)
quiet = record {
  seen = λ at key w. (ok false, w);
  append = λ t w. (none, w);
  get = λ id w. (ok none, w);
  set = λ s w. (none, w);
  detect = λ t s w. ([], w);
  geo = none;
  rules = none;
  publish = λ e w. (none, w);
}

abbrev trip : String → Event ℕ
trip id = record {
  id = id;
  kind = "vehicle.trip.started";
  tenant_id = "acme";
  vehicle_id = "truck";
  timestamp = 5;
  rule_id = "";
  rule_version = "";
  correlation_id = "c";
  causation_id = "";
  payload = end;
  schema_version = pos 1;
}

abbrev trips : List (Event ℕ)
trips = trip "a" ∷ trip "b" ∷ trip "c" ∷ []

trips-valid : All (λ (e : Event ℕ). validate e ≡ none) trips
unfolding validate is_transition valid_suffix split split_from
trips-valid = (refl, (refl, (refl, tt)))

publish_all-build_bus_example : Keeps trips (build_bus one_event 5 0).1 (
    publish_all
      (record quiet { publish = (build_bus one_event 5 0).0 })
      clock
      trips
      (build_bus one_event 5 0).1)
publish_all-build_bus_example =
    publish_all-build_bus quiet clock one_event 5 0 trips (build_bus one_event 5 0).1 trips-valid
