-- ===== src/Api/Simulate.antt =====
-- internal/api/simulate.go: bounded simulation runs through the pipeline.
pub mod Laws
use mathlib.Core.Option.{get_or}
use tide.Prelude.{
  ℕ, ◌+◌, length, ltb, String, Bool, true, false, not, ◌&&◌, ◌||◌, if◌then◌else◌, ◌==◌, ◌<>◌,
  Option, none, some, ℤ, pos, leb_ℤ, ltb_ℤ, List, [], ◌∷◌, Assoc, lookup, insert, split, any,
  Result, ok, err, is_some,
}
use tide.Schemas.Clock.{Time}
use tide.Schemas.Runtime.{Runtime}
use tide.Schemas.Telemetry.{Telemetry}
use tide.Pipeline
use tide.Pipeline.{Ports, Outcome, ProcessError, publish_failed}
use tide.Simulator.{Rand}
use tide.Simulator.Generators.{Scenario, load_scenario, generate}
use tide.Simulator.Faults
use tide.Api.Replies.{Reply, refused, answered, method_not_allowed, internal_error}
use tide.Api.Ingest.{Surroundings, inject_all}

abbrev pub max_sim_vehicles : ℕ
max_sim_vehicles = 50

abbrev pub max_sim_points : ℕ
max_sim_points = 20_000

pub record SimRequest (F : Type 0) : Type 0 where
  pub scenario : String
  pub vehicles : ℤ
  pub seed : ℤ
  pub tenant : String
  pub faults : Faults.Config F

-- The strings of the field `State`.
pub data RunState : Type 0 where
  running done cancelled failed : RunState

pub record SimStatus : Type 0 where
  pub id : String
  pub state : RunState
  pub scenario : String
  pub vehicles : ℤ
  pub points : ℕ
  pub accepted : ℕ
  pub events : ℕ
  pub error : String

-- `simRegistry`; for every run, whether its context has been cancelled.
pub record SimRegistry : Type 0 where
  pub runs : Assoc SimStatus
  pub cancels : Assoc Bool
  pub seq : ℕ

unfoldable pub new_sim_registry : SimRegistry
new_sim_registry = record { runs = []; cancels = []; seq = 0 }

-- `set` and `get`.
unfoldable pub set : String → (SimStatus → SimStatus) → SimRegistry → SimRegistry
set id change r = elim (lookup id r.runs) [
  | none ↦ r
  | some st ↦ record r { runs = insert id (change st) r.runs }
]

abbrev pub get : String → SimRegistry → Option SimStatus
get id r = lookup id r.runs

-- The critical section of `handleSimulate`.
unfoldable pub register : (ℕ → String) → String → ℤ → SimRegistry → SimStatus × SimRegistry
register print scenario vehicles r =
    let n = r.seq + 1 in
    let id = "sim-" <> print n in
    let st : SimStatus = record {
      id = id;
      state = running;
      scenario = scenario;
      vehicles = vehicles;
      points = 0;
      accepted = 0;
      events = 0;
      error = "";
    } in
    (st, record { runs = insert id st r.runs; cancels = insert id false r.cancels; seq = n })

abbrev pub or_default : String → String → String
or_default v d = if v == "" then d else v

-- What is started: the scenario, the request and the status of the run.
pub record Started (F : Type 0) : Type 0 where
  pub plan : Scenario F
  pub request : SimRequest F
  pub status : SimStatus

-- The first `n` points.
abbrev pub take {ℓ} : {A : Type ℓ} → ℕ → List A → List A
take n [] = []
take n (x ∷ xs) = elim n [ ℕ.zero ↦ [] | ℕ.suc m ↦ x ∷ take m xs ]

module _ {F : Type 0} ⦃r : Runtime F⦄ where
  open r use {flt, of_int}

  -- The defaults of the request.
  unfoldable pub with_defaults : SimRequest F → SimRequest F
  with_defaults req = record req {
    scenario = or_default req.scenario "mixed";
    tenant = or_default req.tenant "default";
    vehicles = if leb_ℤ req.vehicles (pos 0) then pos 10 else req.vehicles;
  }

  abbrev pub is_no_rate : F → Bool
  is_no_rate rate = flt rate (of_int (pos 0)) || flt (of_int (pos 1)) rate

  abbrev pub rates : Faults.Config F → List F
  rates c =
      c.duplicate_rate ∷ c.late_rate ∷ c.missing_rate ∷ c.out_of_order_rate ∷ c.offline_vehicles
      ∷ []

  abbrev loaded : Option (Option (Scenario F)) → Result (Reply SimStatus) (Scenario F)
  loaded none = err (refused 422 "simulator: unknown scenario")
  loaded (some raw) = elim (load_scenario raw) [ err _ ↦ err internal_error | ok s ↦ ok s ]

  -- The guards of `handleSimulate` after the defaults; `scenario_at` is what `simulator.Get` reads, as the
  -- YAML decoder reads it.
  unfoldable pub admitted :
      (String → Option (Option (Scenario F))) → SimRequest F → Result (Reply SimStatus) (Scenario F)
  admitted scenario_at req =
      if ltb_ℤ (pos max_sim_vehicles) req.vehicles
      then err (refused 422 "vehicles capped at 50 for HTTP runs (use the CLI beyond that)")
      else if any is_no_rate (rates req.faults)
      then err (refused 422 "fault rates must be 0-1")
      else loaded (scenario_at req.scenario)

  abbrev started :
      (ℕ → String)
      → SimRequest F
      → Result (Reply SimStatus) (Scenario F)
      → SimRegistry
      → Reply SimStatus × Option (Started F) × SimRegistry
  started print req (err reply) sims = (reply, none, sims)
  started print req (ok plan) sims =
      let (st, sims') = register print req.scenario req.vehicles sims in
      (answered 202 st, some (record { plan = plan; request = req; status = st }), sims')

  -- `handleSimulate`, with what the body is decoded to; the run that it starts is `run_sim`.
  unfoldable pub handle_simulate :
      (ℕ → String)
      → (String → Option (Option (Scenario F)))
      → String
      → Option (SimRequest F)
      → SimRegistry
      → Reply SimStatus × Option (Started F) × SimRegistry
  unfolding admitted with_defaults register
  handle_simulate print scenario_at method none sims =
      if not (method == "POST")
      then (method_not_allowed, none, sims)
      else (refused 400 "invalid JSON", none, sims)
  handle_simulate print scenario_at method (some req) sims =
      let full = with_defaults req in
      if not (method == "POST")
      then (method_not_allowed, none, sims)
      else started print full (admitted scenario_at full) sims

-- One run, over a world `W`: `is_done` tells whether its context is cancelled.
module _ {F E W : Type 0} ⦃r : Runtime F⦄ (ports : Ports F E W) (around : Surroundings F W)
    (is_done : W → Bool) where
  open around use {now, clock}

  -- The rest of a run from the status so far.
  abbrev pub Run : Type 0
  Run = SimStatus → W → SimStatus × W

  -- What the answer of the pipeline leads to, by its error.
  after_point : Run → Outcome F E → Option (ProcessError F E) → Run
  unfolding inject_all
  after_point rest o (some (publish_failed evs x)) st w =
      rest (record st { events = st.events + length evs; accepted = st.accepted + 1 })
        (inject_all around evs w)
  after_point rest o (some _) st w = (record st { state = failed; error = "processing failed" }, w)
  after_point rest o none st w =
      rest (record st { accepted = st.accepted + 1; events = st.events + length o.events })
        (inject_all around o.events w)

  -- The loop over the points.
  run_points : List (Telemetry F) → Run
  unfolding after_point
  run_points [] st w = (record st { state = done }, w)
  run_points (pt ∷ pts) st w =
      let (o, w') = Pipeline.process ports (clock w) (record pt { processed_at = now w }) w in
      if is_done w
      then (record st { state = cancelled }, w)
      else after_point (run_points pts) o o.error st w'

  -- `runSim` on the points that are generated and disturbed.
  unfoldable pub run_all : List (Telemetry F) → Run
  unfolding run_points
  run_all pts st w =
      let kept = take max_sim_points pts in run_points kept (record st { points = length kept }) w

  -- `runSim`; `none` is the panic of `Generate`. `next` is `req.Seed + 1`.
  unfoldable pub run_sim :
      {S : Type 0}
      → (rand : Rand F S) → (parse_duration : String → Option ℤ) → Scenario F
      → SimRequest F
      → (next : ℤ) → Time
      → SimStatus
      → W
      → Option (SimStatus × W)
  unfolding run_all
  run_sim rand parse_duration plan req next base st w =
      elim (generate rand plan req.vehicles req.seed req.tenant base) [
        | none ↦ none
        | some pts ↦ some (run_all (Faults.apply rand parse_duration req.faults next pts) st w)
      ]

abbrev pub has_slash : String → Bool
has_slash id = ltb 1 (length (split b'/' id))

-- `DELETE`: the context of the run is cancelled.
unfoldable pub cancel : String → SimRegistry → SimRegistry
cancel id r =
    if is_some (lookup id r.cancels) then record r { cancels = insert id true r.cancels } else r

abbrev status_of : String → String → Option SimStatus → SimRegistry → Reply SimStatus × SimRegistry
status_of method id none r = (refused 404 "unknown run", r)
status_of method id (some st) r = (answered 200 st, if method == "DELETE" then cancel id r else r)

-- `handleSimStatus`, by the path behind `/v1/simulate/`. The status is that of the run when the request
-- came in: it is the run itself that marks it as cancelled.
unfoldable pub handle_sim_status : String → String → SimRegistry → Reply SimStatus × SimRegistry
unfolding cancel
handle_sim_status method id r =
    if id == "" || has_slash id
    then (refused 404 "404 page not found", r)
    else if not (method == "GET") && not (method == "DELETE")
    then (method_not_allowed, r)
    else status_of method id (get id r) r
