-- ===== src/Api/Simulate/Laws.antt =====
-- How a simulation run is started and how it ends (internal/api/simulate.go).
use mathlib.Core.Option.{get_or}
use tide.Prelude.{
  ℕ, ◌+◌, ◌≤◌, ◌≡◌, ◌≢◌, ◌==◌, Bool, false, ltb_ℤ, leb_ℤ, any, Bool-cases, inl, inr, Option, none,
  some, String, pos, List, [], ◌∷◌, length, All, eq_iff, arith, refl, ap, ok, err, Result,
}
use tide.Schemas.Runtime.{Runtime}
use tide.Schemas.Telemetry.{Telemetry}
use tide.Pipeline
use tide.Pipeline.{Ports, Outcome, ProcessError}
use tide.Simulator.Generators.{Scenario}
use tide.Api.Replies.{Reply}
use tide.Api.Ingest.{Surroundings, inject_all}
use tide.Api.Simulate.{
  SimRequest, SimStatus, or_default, register, SimRegistry, RunState, running, done, cancelled,
  failed, Run, after_point, run_points, run_all, take, max_sim_points, handle_simulate,
  with_defaults, admitted, rates, is_no_rate, Started, started,
}

length-take_le : {A : Type 0} (n : ℕ) (xs : List A) → length (take n xs) ≤ n
length-take_le n [] = omega arith
length-take_le ℕ.zero (x ∷ xs) = omega arith
length-take_le (ℕ.suc n) (x ∷ xs) = omega (arith, length-take_le n xs)

-- The counter of points at the end, for a run that had taken `before` and was given `given` more; `all` is
-- that all of these were taken.
abbrev pub Ends : RunState → ℕ → ℕ → ℕ → Type 0 → Type 0
Ends running before given after all = ⊥
Ends done before given after all = (after ≡ before + given) × all
Ends cancelled before given after all = after ≤ before + given
Ends failed before given after all = after ≤ before + given

Ends-later :
    (s : RunState) (before given after : ℕ) (all all' : Type 0)
    → (all → all')
    → Ends s (before + 1) given after all
    → Ends s before (ℕ.suc given) after all'
Ends-later running before given after all all' then h = absurd h
Ends-later done before given after all all' then (h, taken) = (omega arith, then taken)
Ends-later cancelled before given after all all' then h = omega arith
Ends-later failed before given after all all' then h = omega arith

module _ {F E W : Type 0} ⦃r : Runtime F⦄ (ports : Ports F E W) (around : Surroundings F W)
    (is_done : W → Bool) where
  -- What it is for a point to be taken: the pipeline has no error but one of the bus, after it has logged
  -- the point and its state; and what follows, `P`, holds of the world that the run goes on with.
  abbrev pub Taken : (W → Type 0) → Outcome F E → Option (ProcessError F E) → W → Type 0
  Taken P o none w = P (inject_all around o.events w)
  Taken P o (some (Pipeline.publish_failed evs x)) w = P (inject_all around evs w)
  Taken P o (some _) w = ⊥

  -- Every point is taken, one after the other, while the run is not cancelled.
  abbrev pub AllTaken : List (Telemetry F) → W → Type 0
  AllTaken [] w = Unit
  AllTaken (pt ∷ pts) w =
      let (o, w') =
        Pipeline.process ports (around.clock w) (record pt { processed_at = around.now w }) w in
      (is_done w ≡ false) × Taken (AllTaken pts) o o.error w'

  -- how a run of `n` points ends
  abbrev pub Finishes : ℕ → (W → Type 0) → Run ports around is_done → Type 0
  Finishes n P run =
      (st : SimStatus) (w : W)
      → let st' = (run st w).0 in
        Ends st'.state st.accepted n st'.accepted (P w)
        × (st'.points ≡ st.points)
        × (st'.id ≡ st.id)

  after_point-Finishes :
      (n : ℕ) (P : W → Type 0) (rest : Run ports around is_done) (o : Outcome F E)
      (error : Option (ProcessError F E))
      → Finishes n P rest
      → Finishes (ℕ.suc n) (Taken P o error) (after_point ports around is_done rest o error)
  unfolding after_point
  after_point-Finishes n P rest o none h st w =
      let st' : SimStatus = record st {
        accepted = st.accepted + 1;
        events = st.events + length o.events;
      } in
      let next = inject_all around o.events w in
      let (ends, points, same) = h st' next in
      (
        Ends-later (rest st' next).0.state st.accepted n (rest st' next).0.accepted (P next)
            (P next) (λ p. p) ends,
        points,
        same,
      )
  after_point-Finishes n P rest o (some (Pipeline.publish_failed evs x)) h st w =
      let st' : SimStatus = record st {
        events = st.events + length evs;
        accepted = st.accepted + 1;
      } in
      let next = inject_all around evs w in
      let (ends, points, same) = h st' next in
      (
        Ends-later (rest st' next).0.state st.accepted n (rest st' next).0.accepted (P next)
            (P next) (λ p. p) ends,
        points,
        same,
      )
  after_point-Finishes n P rest o (some (Pipeline.invalid x)) h st w = (omega arith, refl, refl)
  after_point-Finishes n P rest o (some Pipeline.too_far_in_future) h st w =
      (omega arith, refl, refl)
  after_point-Finishes n P rest o (some (Pipeline.failed x)) h st w = (omega arith, refl, refl)

  Ends-mono :
      (s : RunState) (before given after : ℕ) (all all' : Type 0)
      → (all → all')
      → Ends s before given after all
      → Ends s before given after all'
  Ends-mono running before given after all all' then h = h
  Ends-mono done before given after all all' then (h, taken) = (h, then taken)
  Ends-mono cancelled before given after all all' then h = h
  Ends-mono failed before given after all all' then h = h

  run_points-Finishes :
      (pts : List (Telemetry F))
      → Finishes (length pts) (AllTaken pts) (run_points ports around is_done pts)
  unfolding run_points
  run_points-Finishes [] st w = ((omega arith, tt), refl, refl)
  run_points-Finishes (pt ∷ pts) st w =
      let (o, w') =
        Pipeline.process ports (around.clock w) (record pt { processed_at = around.now w }) w in
      elim (Bool-cases (is_done w)) [
        | inl stopped ↦ rw (stopped, run_points) (omega arith, refl, refl)
        | inr going ↦
            let rest = run_points ports around is_done pts in
            let out = (after_point ports around is_done rest o o.error st w').0 in
            let (ends, points, same) =
              after_point-Finishes (length pts) (AllTaken pts) rest o o.error
                (run_points-Finishes pts) st w' in
            rw (going, run_points)
              (
                Ends-mono out.state st.accepted (length (pt ∷ pts)) out.accepted
                    (Taken (AllTaken pts) o o.error w')
                    ((false ≡ false) × Taken (AllTaken pts) o o.error w') (λ taken. (refl, taken))
                    ends,
                points,
                same,
              )
      ]

  -- A run that is given any points at all is never left running: it is done, cancelled or failed, with no
  -- more points than the bound; and it is done only when every one of its points, in their order, went
  -- through the pipeline with no error but one of the bus, and was counted.
  pub run_all-Ends :
      (pts : List (Telemetry F)) (st : SimStatus) (w : W)
      → let st' = (run_all ports around is_done pts st w).0 in
        let kept = take max_sim_points pts in
        (st'.points ≡ length kept)
        × (st'.points ≤ max_sim_points)
        × Ends st'.state st.accepted st'.points st'.accepted (AllTaken kept w)
  unfolding run_all
  run_all-Ends pts st w =
      let n = length (take max_sim_points pts) in
      let (ends, kept, same) =
        run_points-Finishes (take max_sim_points pts) (record st { points = n }) w in
      let cut = length-take_le max_sim_points pts in rw kept (refl, cut, ends)

or_default-given : (v d : String) → d ≢ "" → or_default v d ≢ ""
or_default-given v d given = elim (Bool-cases (v == "")) [
  | inl missing ↦ rw missing given
  | inr there ↦ rw there (λ e. absurd (ground (arith, there, e, eq_iff v "")))
]

none-hit : {A : Type 0} (p : A → Bool) (xs : List A) → any p xs ≡ false → All (λ x. p x ≡ false) xs
none-hit p [] h = tt
none-hit p (x ∷ xs) h = elim (Bool-cases (p x)) [
  | inl bad ↦ absurd (cc (rw bad at h))
  | inr good ↦ (good, none-hit p xs (rw good at h))
]

module _ {F : Type 0} ⦃r : Runtime F⦄ (print : ℕ → String)
    (scenario_at : String → Option (Option (Scenario F))) where
  -- neither below zero nor above one
  abbrev pub IsRate : F → Type 0
  IsRate rate = is_no_rate rate ≡ false

  -- a number of vehicles that is allowed, and rates that are
  abbrev pub IsBounded : SimRequest F → Type 0
  IsBounded req =
      (leb_ℤ req.vehicles (pos 0) ≡ false)
      × (ltb_ℤ (pos 50) req.vehicles ≡ false)
      × All IsRate (rates req.faults)
      × (req.scenario ≢ "")
      × (req.tenant ≢ "")

  with_defaults-given :
      (req : SimRequest F)
      → (leb_ℤ (with_defaults req).vehicles (pos 0) ≡ false)
        × ((with_defaults req).scenario ≢ "")
        × ((with_defaults req).tenant ≢ "")
  unfolding with_defaults
  with_defaults-given req = (
    elim (Bool-cases (leb_ℤ req.vehicles (pos 0))) [
      | inl few ↦ rw (few, with_defaults) refl
      | inr given ↦ rw (given, with_defaults) given
    ],
    or_default-given req.scenario "mixed" (λ e. absurd (cc e)),
    or_default-given req.tenant "default" (λ e. absurd (cc e)),
  )

  admitted-ok :
      (req : SimRequest F) {plan : Scenario F}
      → admitted scenario_at req ≡ ok plan
      → (ltb_ℤ (pos 50) req.vehicles ≡ false) × All IsRate (rates req.faults)
  unfolding admitted
  admitted-ok req {plan = plan} h = elim (Bool-cases (ltb_ℤ (pos 50) req.vehicles)) [
    | inl many ↦ absurd (cc (rw many at h))
    | inr few ↦ elim (Bool-cases (any is_no_rate (rates req.faults))) [
      | inl wrong ↦ absurd (cc (rw (few, wrong) at h))
      | inr fine ↦ (few, none-hit is_no_rate (rates req.faults) fine)
    ]
  ]

  started-some :
      (req : SimRequest F) (x : Result (Reply SimStatus) (Scenario F)) (sims : SimRegistry)
      {run : Started F}
      → (started print req x sims).1 ≡ some run
      → (x ≡ ok run.plan)
        × (req ≡ run.request)
        × (run.status.state ≡ running)
        × (run.status.accepted ≡ 0)
  unfolding register
  started-some req (err reply) sims h = absurd (cc h)
  started-some req (ok plan) sims {run = run} h =
      let status = (register print req.scenario req.vehicles sims).0 in
      let same : record { plan = plan; request = req; status = status } ≡ run =
        ap (λ (o : Option (Started F)). get_or o run) h in
      rw (← same) (refl, refl, refl, refl)

  -- A run is started only for a posted request, within the bounds on the vehicles and the fault rates once
  -- the defaults are filled in; it begins with nothing accepted, and the answer is its status.
  pub handle_simulate-IsBounded :
      (method : String) (req : SimRequest F) (sims : SimRegistry) {run : Started F}
      → (handle_simulate print scenario_at method (some req) sims).1 ≡ some run
      → (method ≡ "POST")
        × IsBounded run.request
        × (run.status.state ≡ running)
        × (run.status.accepted ≡ 0)
  unfolding handle_simulate
  handle_simulate-IsBounded method req sims {run = run} h =
      let full = with_defaults req in
      elim (Bool-cases (method == "POST")) [
        | inr other ↦ absurd (cc (rw other at h))
        | inl post ↦
            let (ready, same, state, none_yet) =
              started-some full (admitted scenario_at full) sims {run = run} (rw post at h) in
            let (vehicles, scenario, tenant) = with_defaults-given req in
            let (few, fine) = admitted-ok full {plan = run.plan} ready in
            (
              (eq_iff method "POST").0 post,
              rw (← same) (vehicles, few, fine, scenario, tenant),
              state,
              none_yet,
            )
      ]
