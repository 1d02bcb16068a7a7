-- ===== src/Rules.antt =====
-- internal/rules/rules.go: published rules, their safety valves and the trace of what they did.
pub mod Laws
pub mod Hour
pub mod Cap
use mathlib.Core.Option.{get_or}
use tide.Prelude.{
  ℕ, String, Bool, true, false, not, ◌&&◌, ◌||◌, if◌then◌else◌, ◌==◌, ◌<>◌, ◌+◌, Option, none, some,
  ℤ, pos, List, [], ◌∷◌, ◌++◌, Assoc, lookup, insert, foldl, ltb, ltb_ℤ, leb_ℤ, eqb_ℤ, length, any,
  map,
}
use tide.Schemas.Clock.{Time, sub, seconds, hour}
use tide.Schemas.Payload.{Fields, field, object, put, text, num, end}
use tide.Schemas.Runtime.{Runtime}
use tide.Schemas.Telemetry.{Telemetry}
use tide.Schemas.Events.{Event, deterministic_id, validate, current_schema_version}
use tide.State.{VehicleState}

pub record Condition (F : Type 0) : Type 0 where
  pub name : String
  pub op : String
  pub value : F

pub record When (F : Type 0) : Type 0 where
  pub event_type : String
  pub conditions : List (Condition F)

pub record Then : Type 0 where
  pub emit : String
  pub webhook : String
  pub secret : String

pub record Spec (F : Type 0) : Type 0 where
  pub id : String
  pub version : String
  -- the fields `When` and `Then`
  pub trigger : When F
  pub action : Then
  pub cooldown_secs : ℤ
  pub max_actions_per_hour : ℤ

pub record Rule (F : Type 0) : Type 0 where
  pub spec : Spec F
  pub published : Time

pub record Trigger (F : Type 0) : Type 0 where
  pub rule_id : String
  pub rule_version : String
  pub vehicle_id : String
  pub at : Time
  pub matched_inputs : Fields F
  pub conditions_desc : List String
  pub actions_taken : List String

pub record Engine (F : Type 0) : Type 0 where
  pub rules : Assoc (Rule F)
  pub triggers : List (Trigger F)
  pub last_fire : Assoc Time
  pub fire_log : Assoc (List Time)

pub data Error : Type 0 where
  unreadable missing_field immutable : Error
  unknown_op : String → Error

pub data Result {ℓ} (A : Type ℓ) : Type ℓ where
  ok : A → Result A
  err : Error → Result A

abbrev is_op : String → Bool
is_op op = op == ">" || op == ">=" || op == "<" || op == "<=" || op == "=="

module _ {F : Type 0} where
  unfoldable pub new_engine : Engine F
  new_engine = record { rules = []; triggers = []; last_fire = []; fire_log = [] }

  -- The first condition with an operator that is not known.
  unfoldable pub bad_op : List (Condition F) → Option String
  bad_op [] = none
  bad_op (c ∷ cs) = if is_op c.op then bad_op cs else some c.op

  abbrev defaulted : Spec F → Spec F
  defaulted s =
      if eqb_ℤ s.max_actions_per_hour (pos 0)
      then record s { max_actions_per_hour = pos 100 }
      else s

  -- `ParseSpec`, with what `yaml.Unmarshal` makes of the data.
  unfoldable pub parse_spec : Option (Spec F) → Result (Spec F)
  unfolding bad_op
  parse_spec none = err unreadable
  parse_spec (some s) =
      if s.id == "" || s.version == "" || s.trigger.event_type == ""
      then err missing_field
      else elim (bad_op s.trigger.conditions) [
        | some op ↦ err (unknown_op op)
        | none ↦ ok (defaulted s)
      ]

  abbrev pub rule_key : Spec F → String
  rule_key s = s.id <> "/" <> s.version

  -- `Publish`; the test is `reflect.DeepEqual`.
  abbrev pub accepted {ℓ} :
      {A : Type ℓ} → (Spec F → Spec F → Bool) → Spec F → Option (Rule F) → Result A → Result A
  accepted deep_equal s none next = next
  accepted deep_equal s (some old) next = if deep_equal old.spec s then next else err immutable

  unfoldable pub publish : (Spec F → Spec F → Bool) → Spec F → Time → Engine F → Result (Engine F)
  publish deep_equal s at e =
      let rule : Rule F = record { spec = s; published = at } in
      accepted deep_equal s (lookup (rule_key s) e.rules)
        (ok (record e { rules = insert (rule_key s) rule e.rules }))

  abbrev pub triggers_of : Engine F → List (Trigger F)
  triggers_of e = e.triggers

module _ {F : Type 0} where
  -- `if spec.Then.Emit != "" { ... }`: an event that does not pass `Validate` is dropped.
  unfoldable pub emit_events : Spec F → Event F → List (Event F)
  emit_events spec e =
      if spec.action.emit == "" then [] else elim (validate e) [ none ↦ e ∷ [] | some _ ↦ [] ]

  -- The last event of the rule among those emitted by this call, or else the event that triggered it.
  unfoldable pub target : Spec F → Event F → List (Event F) → Event F
  target spec ev [] = ev
  target spec ev (o ∷ out) = target spec (if o.rule_id == spec.id then o else ev) out

  abbrev pub vehicle_key : Spec F → Telemetry F → String
  vehicle_key spec t = rule_key spec <> "/" <> t.vehicle_id

  abbrev pub fires : String → Engine F → List Time
  fires vk e = get_or (lookup vk e.fire_log) []

  abbrev emit_actions : Spec F → List (Event F) → List String
  emit_actions spec es = map (λ e. "emit:" <> spec.action.emit) es

-- The times of the last hour.
unfoldable pub recent : Time → List Time → List Time
recent now [] = []
recent now (ts ∷ log) = if ltb now (ts + hour) then ts ∷ recent now log else recent now log

-- The first valve.
unfoldable pub cooling : Time → ℤ → Option Time → Bool
cooling now cooldown none = false
cooling now cooldown (some last) = ltb_ℤ (pos 0) cooldown && ltb_ℤ (sub now last) (seconds cooldown)

-- What the evaluation of a condition list has so far.
pub record Match (F : Type 0) : Type 0 where
  pub matched : Fields F
  pub descs : List String
  pub holds : Bool

-- What one call of `Evaluate` has so far, over the world `W` that the dispatcher lives in.
pub record Run (F W : Type 0) : Type 0 where
  pub engine : Engine F
  pub world : W
  pub out : List (Event F)

-- `Dispatch(url, secret, event)`: whether it was delivered.
abbrev pub Dispatch : Type 0 → Type 0 → Type 0
Dispatch F W = String → String → Event F → W → Bool × W

abbrev delivery : Bool → String
delivery true = "webhook:delivered"
delivery false = "webhook:failed"

module _ {F : Type 0} ⦃r : Runtime F⦄ where
  open r use {flt, fle, feq, of_int, rfc3339_nano, print_float}

  abbrev found_or_zero : Option F → F × Bool
  found_or_zero none = (of_int (pos 0), false)
  found_or_zero (some x) = (x, true)

  unfoldable pub field_value : Telemetry F → VehicleState F → String → F × Bool
  field_value t s name =
      if name == "speedKmh"
      then found_or_zero t.speed_kmh
      else if name == "stateSpeedKmh"
      then found_or_zero s.speed_kmh
      else if name == "fuelLevel"
      then found_or_zero t.fuel_level_l
      else (of_int (pos 0), false)

  unfoldable pub match_op : String → F → F → Bool
  match_op op got want =
      if op == ">"
      then flt want got
      else if op == ">="
      then fle want got
      else if op == "<"
      then flt got want
      else if op == "<="
      then fle got want
      else if op == "=="
      then feq got want
      else false

  -- One round of the loop over the conditions; it goes on when one fails.
  unfoldable pub check_condition : Telemetry F → VehicleState F → Match F → Condition F → Match F
  check_condition t s m c =
      let (v, found) = field_value t s c.name in
      record {
        matched = put c.name (num v) m.matched;
        descs =
            m.descs
            ++ ((c.name
                  <> " "
                  <> c.op
                  <> " "
                  <> print_float c.value
                  <> " (saw "
                  <> print_float v
                  <> ")")
                ∷ []);
        holds = m.holds && (found && match_op c.op v c.value);
      }

  unfoldable pub check_conditions : Telemetry F → VehicleState F → Event F → Spec F → Match F
  unfolding check_condition
  check_conditions t s ev spec =
      let start : Match F = record {
        matched = field "event" (text ev.kind) (field "eventId" (text ev.id) end);
        descs = [];
        holds = true;
      } in
      foldl (check_condition t s) start spec.trigger.conditions

  -- The event that a rule emits.
  unfoldable pub rule_event : Spec F → Telemetry F → Event F → Fields F → Event F
  rule_event spec t ev matched = record {
    id = deterministic_id rfc3339_nano spec.action.emit t.vehicle_id t.timestamp (rule_key spec);
    kind = spec.action.emit;
    tenant_id = t.tenant_id;
    vehicle_id = t.vehicle_id;
    timestamp = t.timestamp;
    rule_id = spec.id;
    rule_version = spec.version;
    correlation_id = t.metadata.correlation_id;
    causation_id = ev.id;
    payload = field "ruleId" (text spec.id) (
        field "ruleVersion" (text spec.version)
          (field "matchedEvent" (text ev.kind) (field "matchedInputs" (object matched) end)));
    schema_version = current_schema_version;
  }

  module _ {W : Type 0} (dispatcher : Option (Dispatch F W)) (now : Time) where
    -- `if spec.Then.Webhook != "" && e.Dispatcher != nil { ... }`
    call_webhook : Spec F → Event F → W → List String × W
    call_webhook spec e w = elim dispatcher [
      | none ↦ ([], w)
      | some dispatch ↦
          if spec.action.webhook == ""
          then ([], w)
          else let (sent, w') = dispatch spec.action.webhook spec.action.secret e w in
            (delivery sent ∷ [], w')
    ]

    -- The actions, and what is recorded of them; `log` is the fire log of the last hour.
    fire : Spec F → Telemetry F → Event F → Match F → List Time → Run F W → Run F W
    unfolding call_webhook
    fire spec t ev m log run =
        let vk = vehicle_key spec t in
        let e = run.engine in
        let emitted = emit_events spec (rule_event spec t ev m.matched) in
        let out = run.out ++ emitted in
        let (called, w) = call_webhook spec (target spec ev out) run.world in
        record {
          engine = record e {
            last_fire = insert vk now e.last_fire;
            fire_log = insert vk (log ++ (now ∷ [])) e.fire_log;
            triggers =
                e.triggers
                ++ (record {
                  rule_id = spec.id;
                  rule_version = spec.version;
                  vehicle_id = t.vehicle_id;
                  at = now;
                  matched_inputs = m.matched;
                  conditions_desc = m.descs;
                  actions_taken = emit_actions spec emitted ++ called;
                }
                    ∷ []);
          };
          world = w;
          out = out;
        }

    -- The valves: the cooldown, then the cap on the actions of the last hour.
    valves : Spec F → Telemetry F → Event F → Match F → Run F W → Run F W
    unfolding fire
    valves spec t ev m run =
        let vk = vehicle_key spec t in
        let e = run.engine in
        let log = recent now (fires vk e) in
        let pruned = record run { engine = record e { fire_log = insert vk log e.fire_log } } in
        if cooling now spec.cooldown_secs (lookup vk e.last_fire)
        then run
        else if leb_ℤ spec.max_actions_per_hour (pos (length log))
        then pruned
        else fire spec t ev m log pruned

    -- One rule at one event.
    unfoldable pub consider : Telemetry F → VehicleState F → Spec F → Run F W → Event F → Run F W
    unfolding valves
    consider t s spec run ev =
        let m = check_conditions t s ev spec in
        if not (ev.kind == spec.trigger.event_type) || not (ev.vehicle_id == t.vehicle_id)
        then run
        else if not m.holds
        then run
        else valves spec t ev m run

    -- `Evaluate`: every rule at every event. The rules come in the order of the list; of a Go map it can be any.
    unfoldable pub evaluate : Telemetry F → VehicleState F → List (Event F) → Engine F → W → Run F W
    evaluate t s evs e w =
        foldl (λ run entry. foldl (consider t s entry.1.spec) run evs)
          (record { engine = e; world = w; out = [] }) e.rules
