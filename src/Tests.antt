-- ===== src/Tests.antt =====
-- Concrete points, states and buses, and the theorems at them.
mod Handlers
mod Fleet
mod Sources
mod Services
mod Processes
mod Network
mod Storage
use mathlib.Core.List.{Permᴰ}
use tide.Prelude.{
  ℕ, zero, suc, ◌+◌, ◌*◌, ◌-◌, Option, Bool, insert, ◌==◌, ◌&&◌, ◌||◌, ◌<◌, ◌≤◌, ◌⊎◌, length,
  String, true, false, ◌≡◌, ◌≢◌, ◌↔◌, refl, none, some, pos, negsuc, List, [], ◌∷◌, ◌++◌, All, ltb,
  leb, eqb, ◌<>◌, if◌then◌else◌, arith, eq_iff, inl, inr, lookup, wrap64,
}
use tide.Schemas.Clock.{Time, nanos, sub}
use tide.Schemas.Payload.{field, text, end}
use tide.Schemas.Runtime.{Runtime}
use tide.Schemas.Telemetry.{Telemetry, validate, dedup_key}
use tide.Schemas.Telemetry.Laws.{IsCanonical, validate-none_iff}
use tide.Schemas.Events.{Event}
use tide.Schemas.Events.Laws.{IsWellFormed}
use tide.Dedup
use tide.Dedup.{seen}
use tide.Dedup.Laws.{seen_again}
use tide.State
use tide.State.{
  VehicleState, Motion, Presence, apply, zero_state, classify_motion, check_offline, get_state,
  rebuild_from, empty_store, is_late, earlier,
}
use tide.State.Laws.{apply_again, classify_motion_idem}
use tide.State.Watermark.{
  apply_all, max_time, apply_all-last_seen, differences, apply_fresh, apply_late,
}
use tide.State.Offline.{check_offline_iff, check_offline_once}
use tide.State.Rebuild.{rebuild_from-perm, belief, points_of}
use tide.Detectors.{
  Tracker, detect, new_tracker, default_config, TripTrack, new_trip, trip_step, haversine_km,
  speeding_step, idle_step, mk_event, speed_of,
}
use tide.Detectors.Lifecycle.{
  detect_all, detect_all-lifecycles, track, speeding_names, idling_names, trip_names, is_speeding,
  is_idling, is_on_trip,
}
use tide.Detectors.Trips.{trip_step-distance, trip_step-adds}
use tide.Detectors.Valid.{detect-IsWellFormed}
use tide.EventBus.{
  MemoryBus, publish_memory, Bus, fan_out, Resilient, Transport, connected, publish_resilient,
}
use tide.EventBus.Laws.{
  publish_memory-IsWellFormed, fan_out_lem, first_error, world_after, publish_resilient-records,
  publish_resilient-recovers,
}
use tide.Pipeline.{Clock, process}
use tide.Pipeline.Memory.{World, new_test_pipeline, memory_ports}
use tide.Pipeline.Laws.{
  process_accepted, process_redelivered, process-refused, process-duplicate, process_uncorrelated,
  derived, absorbed, with_events, is_publish_error,
}
use tide.Tenants.{
  ProviderIdentity, Repository, Vehicle, add_identity, resolve_vehicle, identities_of, vehicle,
  new_repository,
}
use tide.Tenants
use tide.Tenants.Laws.{resolve_vehicle-add_identity}
use tide.Rules
use tide.Rules.{
  Spec, Rule, Engine, Run, Dispatch, publish, rule_key, consider, evaluate, new_engine,
}
use tide.Rules.Hour.{in_hour, acted, emitted}
use tide.Rules.Cap.{IsCapped, evaluate-IsCapped}
use tide.Rules.Laws.{publish-keeps, consider_cooling}
use tide.Replay.{run}
use tide.Webhooks.{Net, Dispatcher, dispatch, new_dispatcher, verify}
use tide.Webhooks
use tide.Webhooks.Laws.{
  dispatch-sent, IsRecorded, dispatch-IsRecorded, dispatch_blocked, verify-sign,
}
use tide.Api.{new_rate_limiter}
use tide.Api.Laws.{passed, passed-le-limit}
use tide.Config.{Config, Host, Loaded, loaded, load, defaults}
use tide.Config
use tide.Config.Laws.{IsValid, validate-nil_iff, load-IsValid}
use tide.Webhooks.Ssrf.{Resolver, Url, validate_url, public_ip, is_private}
use tide.Webhooks.Ssrf.Laws.{IsPublic, validate_url-IsPublic}

abbrev pub ticks : ℕ → String
ticks zero = ""
ticks (suc n) = "i" <> ticks n

-- Whole non-negative numbers in place of the floats.
instance abbrev pub whole : Runtime ℕ
whole = record {
  flt = ltb;
  fle = leb;
  feq = eqb;
  fadd = λ a b. a + b;
  fsub = λ a b. a - b;
  fmul = λ a b. a * b;
  fdiv = λ a b. a;
  of_int = λ n. elim n [ pos m ↦ m | negsuc _ ↦ 0 ];
  decimal = λ m k. m;
  pi = 3;
  sin = λ a. a;
  cos = λ a. 1;
  asin = λ a. a;
  sqrt = λ a. a;
  round = λ a. a;
  rfc3339_nano = ticks;
  print_int = λ n. elim n [ pos m ↦ ticks m | negsuc m ↦ "-" <> ticks (suc m) ];
  print_float = ticks;
  digest = λ _. "d1";
  str_lt = λ a b. false;
}

abbrev pub point_at : String → String → Time → ℕ → Telemetry ℕ
point_at id correlation_id at speed = record {
  id = id;
  tenant_id = "acme";
  vehicle_id = "truck";
  device_id = "box";
  timestamp = at;
  received_at = 9;
  processed_at = 9;
  location = record { lat = 12; lng = 34; altitude = none; accuracy = none };
  speed_kmh = some speed;
  heading = none;
  ignition = some true;
  odometer_m = none;
  fuel_level_l = none;
  battery_volt = none;
  engine = none;
  sensors = none;
  raw = some (field "k" (text "v") end);
  source = record { provider = "p"; protocol = "mqtt"; device_id = "box" };
  metadata = record {
    correlation_id = correlation_id;
    schema_version = pos 1;
    sequence = none;
    quality = "good";
  };
}

abbrev pub first : Telemetry ℕ
first = point_at "a" "c" 5 40

abbrev pub second : Telemetry ℕ
second = point_at "b" "c" 7 120

abbrev third : Telemetry ℕ
third = point_at "d" "c" 6 1

abbrev uncorrelated : Telemetry ℕ
uncorrelated = point_at "a" "" 5 40

abbrev pub clock : Clock
clock = record { checked = 10; seen = 11; updated = 12; evaluated = 13 }

abbrev pub start : World ℕ
start = new_test_pipeline

first-IsCanonical : IsCanonical first
unfolding validate
first-IsCanonical = (validate-none_iff first).0 refl

uncorrelated-IsCanonical : IsCanonical uncorrelated
unfolding validate
uncorrelated-IsCanonical = (validate-none_iff uncorrelated).0 refl

given : first.metadata.correlation_id ≢ ""
given h = ground (arith, eq_iff first.metadata.correlation_id "")

first_valid : validate first ≡ none
unfolding validate
first_valid = refl

first_new : (Dedup.seen 11 (dedup_key first) start.dedup).0 ≡ false
unfolding Dedup.seen new_test_pipeline Dedup.new_store lookup
first_new = refl

process_accepted_example : process memory_ports clock first start ≡ (
  record { events = derived clock first start; dup = false; error = none },
  with_events (absorbed clock first start) (derived clock first start),
)
process_accepted_example = process_accepted clock first start first-IsCanonical given refl first_new

abbrev pub later_clock : Clock
later_clock = record { checked = 20; seen = 21; updated = 22; evaluated = 23 }

abbrev after_first : World ℕ
after_first = (process memory_ports clock first start).1

process_redelivered_example :
    process memory_ports later_clock first after_first
    ≡ (record { events = []; dup = true; error = none }, after_first)
unfolding Dedup.new_store sub new_test_pipeline
process_redelivered_example =
    process_redelivered clock later_clock first first start first-IsCanonical given refl first_new
      first_valid refl refl refl

abbrev pub moving : VehicleState ℕ
moving = record zero_state {
  vehicle_id = "truck";
  motion = Motion.moving;
  presence = Presence.offline;
  last_seen = 5;
}

abbrev tracker : Tracker ℕ
tracker = new_tracker default_config

abbrev points : List (Telemetry ℕ × VehicleState ℕ)
points = (first, moving) ∷ (second, moving) ∷ []

detect_all-lifecycles_example :
    (track speeding_names "truck" (some (is_speeding "truck" tracker)) (detect_all tracker points).1
      ≡ some (is_speeding "truck" (detect_all tracker points).0))
    × (track idling_names "truck" (some (is_idling "truck" tracker)) (detect_all tracker points).1
        ≡ some (is_idling "truck" (detect_all tracker points).0))
    × (track trip_names "truck" (some (is_on_trip "truck" tracker)) (detect_all tracker points).1
        ≡ some (is_on_trip "truck" (detect_all tracker points).0))
detect_all-lifecycles_example = detect_all-lifecycles "truck" tracker points

detect-IsWellFormed_example : All IsWellFormed (detect first moving tracker).1
detect-IsWellFormed_example = detect-IsWellFormed first first-IsCanonical given moving tracker

abbrev arrived : List (Telemetry ℕ)
arrived = second ∷ first ∷ []

abbrev in_order : List (Telemetry ℕ)
in_order = first ∷ second ∷ []

rebuild_from-perm_example :
    get_state "truck" (rebuild_from 12 empty_store arrived)
    ≡ get_state "truck" (rebuild_from 12 empty_store in_order)
unfolding points_of
rebuild_from-perm_example =
    rebuild_from-perm {F = ℕ} 12 empty_store {log = arrived} {log' = in_order} "truck"
      (Permᴰ.swap refl refl) ((inr refl, tt), (tt, tt))

abbrev ahead : VehicleState ℕ
ahead = record zero_state { last_seen = 8; motion = Motion.moving }

check_offline_example :
    ((check_offline ahead (pos 10) 30_000_000_009).0.presence ≡ Presence.offline)
    ↔ (8 + 10 * 3 * nanos < 30_000_000_009)
check_offline_example =
    check_offline_iff ahead 10 30_000_000_009 (omega arith) (omega arith) refl refl

abbrev gone : VehicleState ℕ
gone = (check_offline ahead (pos 10) 30_000_000_009).0

abbrev window : Dedup.MemoryStore
window = record { seen_at = ("k", 1) ∷ []; ttl = pos 5 }

validate-none_example : (validate first ≡ none) ↔ IsCanonical first
validate-none_example = validate-none_iff first

abbrev found : Event ℕ
found = record {
  id = "e";
  kind = "vehicle.trip.started";
  tenant_id = "acme";
  vehicle_id = "truck";
  timestamp = 5;
  rule_id = "";
  rule_version = "";
  correlation_id = "c";
  causation_id = "a";
  payload = end;
  schema_version = pos 1;
}

abbrev empty_bus : MemoryBus ℕ
empty_bus = record { events = [] }

-- Connection 0 is down, and a dial gives the number of dials so far.
abbrev flaky : Transport ℕ ℕ ℕ ℕ
flaky = record {
  dial = λ w. (connected (w + 1), w + 1);
  close = λ c w. w;
  send = λ c e w. (if eqb c 0 then some 7 else none, w);
}

abbrev down : Resilient ℕ ℕ
down = record { conn = 0; last_error = none }

uncorrelated_new : (Dedup.seen 11 (dedup_key uncorrelated) start.dedup).0 ≡ false
unfolding Dedup.seen new_test_pipeline Dedup.new_store lookup
uncorrelated_new = refl

finds : derived clock uncorrelated start ≢ []
unfolding apply State.fresh_state classify_motion detect trip_step speeding_step idle_step mk_event
    new_test_pipeline default_config new_tracker get_state lookup speed_of
finds h = ground (arith, h)

process_uncorrelated_example :
    ((process memory_ports clock uncorrelated start).1 ≡ absorbed clock uncorrelated start)
    × (is_publish_error (process memory_ports clock uncorrelated start).0.error ≡ true)
    × ((process memory_ports clock uncorrelated start).1.bus ≡ start.bus)
process_uncorrelated_example =
    process_uncorrelated clock uncorrelated start uncorrelated-IsCanonical refl refl
      uncorrelated_new finds

abbrev identity : ProviderIdentity
identity = record { vehicle_id = "truck"; provider = "traccar"; provider_id = "42" }

abbrev truck : Vehicle
truck = record {
  id = "truck";
  tenant_id = "acme";
  fleet_id = "";
  name = "T";
  expected_cadence_secs = pos 60;
}

abbrev fleet : Repository
fleet = record new_repository { vehicles = ("acme/truck", truck) ∷ [] }

abbrev linked : Repository
linked = Tenants.registered "acme" identity truck fleet

resolve_vehicle-add_identity_example :
    (v : Vehicle) × (vehicle "acme" "truck" fleet ≡ Tenants.ok v)
    × (resolve_vehicle "acme" "traccar" "42" linked ≡ Tenants.ok v)
    × (identities_of "acme" "truck" linked ≡ identities_of "acme" "truck" fleet ++ (identity ∷ []))
unfolding add_identity Tenants.vk lookup new_repository
resolve_vehicle-add_identity_example =
    resolve_vehicle-add_identity "acme" identity fleet linked refl

abbrev ended : TripTrack ℕ
ended = record new_trip { distance_km = 8; has_last = true; last_lat = 11; last_lng = 30 }

trip_step-distance_example : (trip_step default_config first moving ended).0.distance_km ≡ 8
trip_step-distance_example = trip_step-distance default_config first moving ended refl refl

abbrev spec : Spec ℕ
spec = record {
  id = "r";
  version = "1";
  trigger = record { event_type = "vehicle.trip.started"; conditions = [] };
  action = record { emit = "incident.created"; webhook = ""; secret = "" };
  cooldown_secs = pos 60;
  max_actions_per_hour = pos 2;
}

abbrev rule : Rule ℕ
rule = record { spec = spec; published = 1 }

abbrev engine : Engine ℕ
engine = record {
  rules = ("r/1", rule) ∷ [];
  triggers = [];
  last_fire = ("r/1/truck", 4) ∷ [];
  fire_log = [];
}

abbrev no_dispatcher : Option (Dispatch ℕ ℕ)
no_dispatcher = none

none_acted : IsCapped 5 2 engine
unfolding lookup
none_acted key = (refl, omega arith)

evaluate-IsCapped_example :
    let run = evaluate no_dispatcher 6 first moving (found ∷ []) engine 0 in
    IsCapped 6 2 run.engine
    × ((key : String) → length (in_hour 6 (acted key engine.triggers)) + emitted key run.out ≤ 2)
evaluate-IsCapped_example =
    evaluate-IsCapped no_dispatcher 6 2 5 first moving (found ∷ []) engine 0 (refl, tt)
      (omega arith) none_acted

-- An endpoint that is always busy, and a count of the requests as the world.
abbrev busy : Net ℕ ℕ
busy = record {
  marshal = λ e. some "{}";
  mac = λ secret message. message;
  print_unix = ticks;
  validate_url = λ url private. if url == "http://inside" then some "not public" else none;
  bad_request = λ url. none;
  send = λ q w. (Webhooks.code 503, w + 1);
  sleep = λ d w. w;
  now = λ w. 5;
  print_status = ticks;
}

dispatch-sent_example :
    (dispatch busy "http://outside" "k" found new_dispatcher 3).1
    ≤ 3 + (new_dispatcher.max_retries + 1)
dispatch-sent_example =
    dispatch-sent busy (λ w. w) "http://outside" "k" found new_dispatcher 3 (λ q w. refl)
      (λ d w. refl)

passed-le-limit_example : passed (5 ∷ 6 ∷ 7 ∷ 8 ∷ []) "10.1.1.1" (new_rate_limiter (pos 2) 100) ≤ 2
unfolding new_rate_limiter lookup
passed-le-limit_example =
    passed-le-limit 5 (6 ∷ 7 ∷ 8 ∷ []) "10.1.1.1" (new_rate_limiter (pos 2) 100) 1 refl refl
      (omega arith, (omega arith, (omega arith, tt)))

-- An environment that sets one variable.
abbrev host : Host
host = record {
  getenv = λ name. if name == "TIDE_ENV" then "prod" else "";
  scan_int = λ text. none;
  has_prefix = λ text prefix. prefix == "postgres://" || prefix == "nats://";
  trim_space = λ text. text;
}

-- Addresses are numbers, of which 0 is this machine.
abbrev pub resolver : Resolver ℕ
resolver = record {
  parse = λ raw. some (record { scheme = "https"; host = raw; hostname = raw; has_user = false });
  lookup_ip = λ h. if h == "shop" then some (7 ∷ []) else some (0 ∷ []);
  to_lower = λ text. text;
  trim_dot = λ text. text;
  is_loopback = λ ip. eqb ip 0;
  is_unspecified = λ ip. false;
  is_multicast = λ ip. false;
  is_link_local_unicast = λ ip. false;
  is_link_local_multicast = λ ip. false;
  is_global_unicast = λ ip. true;
  to_4 = λ ip. some ip;
  contains = λ range ip. false;
}

validate_url-IsPublic_example :
    (u : Url) × (ips : List ℕ) × (resolver.parse "shop" ≡ some u)
    × ((u.scheme ≡ "http") ⊎ (u.scheme ≡ "https"))
    × (u.has_user ≡ false)
    × (resolver.lookup_ip u.hostname ≡ some ips)
    × (ips ≢ [])
    × All (IsPublic resolver) ips
unfolding validate_url public_ip is_private
validate_url-IsPublic_example = validate_url-IsPublic resolver "shop" refl

verify-sign_example :
    verify busy
      (λ text. some 5)
      "k"
      (record { event_id = "e"; timestamp = "iiiii"; signature = "iiiii.e.{}" })
      "{}"
      9
    ≡ none
unfolding Webhooks.sign
verify-sign_example = verify-sign busy (λ text. some 5) "k" "e" "{}" 5 5 9 refl refl refl refl
