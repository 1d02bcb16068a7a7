-- ===== src/Simulator/Generators.antt =====
-- simulator/generators/generate.go: the points of a scenario.
pub mod Laws
use mathlib.Core.Option.{get_or}
use tide.Prelude.{
  ℕ, zero, suc, ◌+◌, ◌*◌, ◌/◌, ◌-◌, ◌%◌, ltb, String, Bool, true, false, ◌&&◌, ◌||◌, if◌then◌else◌,
  ◌==◌, ◌<>◌, Option, none, some, ℤ, pos, negsuc, pos_part, ◌*ℤ◌, leb_ℤ, eqb_ℤ, List, [], ◌∷◌, ◌++◌,
  Assoc, lookup, Result, ok, err,
}
use tide.Schemas.Clock.{Time, zero_time, nanos}
use tide.Schemas.Payload.{field, text, flag, end}
use tide.Schemas.Runtime.{Runtime}
use tide.Schemas.Telemetry.{Telemetry, current_schema_version}
use tide.Simulator.{Rand}

pub record Scenario (F : Type 0) : Type 0 where
  pub name : String
  pub seed : ℤ
  pub step_secs : ℤ
  pub duration_secs : ℤ
  pub start_lat : F
  pub start_lng : F
  pub spread_km : F
  pub mix : Assoc F

pub data ScenarioError : Type 0 where
  unreadable no_duration no_mix : ScenarioError

abbrev pub is_nil {ℓ} : {A : Type ℓ} → List A → Bool
is_nil [] = true
is_nil (_ ∷ _) = false

-- `LoadScenario`, with what the YAML decoder makes of the data.
unfoldable pub load_scenario :
    {F : Type 0} → Option (Scenario F) → Result ScenarioError (Scenario F)
load_scenario none = err unreadable
load_scenario (some s) =
    if leb_ℤ s.step_secs (pos 0) || leb_ℤ s.duration_secs (pos 0)
    then err no_duration
    else if is_nil s.mix
    then err no_mix
    else ok s

-- `s.DurationSecs / s.StepSecs` as a number of rounds, with Go's division, which panics at zero.
abbrev pub steps_in : ℤ → ℤ → Option ℕ
steps_in d (pos zero) = none
steps_in (pos d) (pos (suc s)) = some (d / suc s)
steps_in (negsuc d) (pos (suc s)) = some 0
steps_in (pos d) (negsuc s) = some 0
steps_in (negsuc d) (negsuc s) = some (suc d / suc s)

-- `t.Add` of a number of seconds. The overflow of the duration, at 292 years, is not modelled.
abbrev pub plus_seconds : Time → ℤ → Time
plus_seconds t (pos n) = t + n * nanos
plus_seconds t (negsuc n) = t - suc n * nanos

-- What does not change while the points of one vehicle are made.
pub record Course : Type 0 where
  pub profile : String
  pub vehicle : String
  pub tenant : String
  pub seed : ℤ
  pub base : Time
  pub step : ℤ
  pub steps : ℕ

pub record Walk (F : Type 0) : Type 0 where
  pub lat : F
  pub lng : F
  pub heading : F

-- `%03d`, over `%d`.
abbrev pub print_padded : (ℤ → String) → ℕ → String
print_padded print_int n =
    (if ltb n 10 then "00" else if ltb n 100 then "0" else "") <> print_int (pos n)

module _ {F : Type 0} ⦃r : Runtime F⦄ where
  open r use {fadd, fsub, fmul, fdiv, of_int, decimal, pi, cos, sin, print_int}

  abbrev pub radians : F → F
  radians heading = fdiv (fmul heading pi) (of_int (pos 180))

  -- One step along the heading, with the draw that turns it.
  unfoldable pub advance : ℤ → F → F → Walk F → Walk F
  advance step speed x w =
      let km = fdiv (fmul speed (of_int step)) (of_int (pos 3600)) in
      let heading = fadd w.heading (fmul (fsub x (decimal 5 1)) (of_int (pos 20))) in
      record {
        lat = fadd w.lat (fdiv (fmul km (cos (radians heading))) (of_int (pos 111)));
        lng = fadd w.lng (fdiv (fmul km (sin (radians heading))) (of_int (pos 85)));
        heading = heading;
      }

  unfoldable pub point : Course → ℕ → Walk F → F × Bool → Telemetry F
  point c i w (speed, ignition) =
      let t = plus_seconds c.base (pos i *ℤ c.step) in
      record {
        id = c.vehicle <> "-" <> print_int (pos (i + 1));
        tenant_id = c.tenant;
        vehicle_id = c.vehicle;
        device_id = c.vehicle;
        timestamp = t;
        received_at = t;
        processed_at = zero_time;
        location = record { lat = w.lat; lng = w.lng; altitude = none; accuracy = none };
        speed_kmh = some speed;
        heading = none;
        ignition = some ignition;
        odometer_m = none;
        fuel_level_l = none;
        battery_volt = none;
        engine = none;
        sensors = none;
        raw = some (field "sim" (flag true) (field "profile" (text c.profile) end));
        source = record { provider = "fleetsim"; protocol = "sim"; device_id = c.vehicle };
        metadata = record {
          correlation_id = "sim-" <> print_int c.seed;
          schema_version = current_schema_version;
          sequence = some (pos (i + 1));
          quality = "good";
        };
      }

module _ {F S : Type 0} ⦃r : Runtime F⦄ (rand : Rand F S) where
  open r use {flt, fadd, fsub, fmul, fdiv, of_int, decimal}
  open rand use {seeded, float}

  -- The loop of `pickProfile` over the names, with the sum so far.
  abbrev profile_at : F → Assoc F → F → List String → String
  profile_at x mix acc [] = "normal"
  profile_at x mix acc (name ∷ names) =
      let acc' = fadd acc (get_or (lookup name mix) (of_int (pos 0))) in
      if flt x acc' then name else profile_at x mix acc' names

  unfoldable pub pick_profile : Assoc F → S → String × S
  pick_profile mix s =
      let (x, s') = float s in
      (
        profile_at x mix (of_int (pos 0))
            ("normal" ∷ "speeding" ∷ "idling" ∷ "offline" ∷ "mixed" ∷ []),
        s',
      )

  -- `base + r.Float64()*width`
  abbrev drawn : ℕ → ℕ → S → F × S
  drawn base width s =
      let (x, s') = float s in (fadd (of_int (pos base)) (fmul x (of_int (pos width))), s')

  -- `speedFor`.
  unfoldable pub speed_for : String → ℕ → S → (F × Bool) × S
  speed_for profile i s =
      let (burst, s₁) = drawn 110 30 s in
      let (slow, s₂) = drawn 45 10 s in
      let (urban, s₃) = drawn 20 40 s in
      if profile == "speeding"
      then if ltb (i % 6) 4 then ((burst, true), s₁) else ((slow, true), s₂)
      else if profile == "idling"
      then ((of_int (pos 0), true), s)
      else if profile == "offline"
      then ((of_int (pos 0), false), s)
      else ((urban, true), s₃)

  -- The rounds for one vehicle from round `i` on; an offline vehicle stops a third in.
  walk_from : Course → ℕ → ℕ → Walk F → S → List (Telemetry F) × S
  unfolding speed_for advance point
  walk_from c zero i w s = ([], s)
  walk_from c (suc left) i w s =
      let (driven, s₁) = speed_for c.profile i s in
      let (x, s₂) = float s₁ in
      let w' = advance c.step driven.0 x w in
      let (rest, s₃) = walk_from c left (i + 1) w' s₂ in
      if c.profile == "offline" && ltb (c.steps / 3) i
      then ([], s)
      else (point c i w' driven ∷ rest, s₃)

  -- Where vehicle `v` starts, and what it does.
  unfoldable pub vehicle_course : Scenario F → ℤ → String → Time → ℕ → ℕ → S → (Course × Walk F) × S
  unfolding pick_profile
  vehicle_course scen seed tenant base steps v s =
      let (profile, s₁) = pick_profile scen.mix s in
      let (x, s₂) = float s₁ in
      let (y, s₃) = float s₂ in
      let (z, s₄) = float s₃ in
      let spread = λ (d : F). fmul (fsub d (decimal 5 1)) scen.spread_km in
      (
        (
          record {
            profile = profile;
            vehicle = "sim-" <> print_padded r.print_int v;
            tenant = tenant;
            seed = seed;
            base = base;
            step = scen.step_secs;
            steps = steps;
          },
          record {
            lat = fadd scen.start_lat (fdiv (spread x) (of_int (pos 111)));
            lng = fadd scen.start_lng (fdiv (spread y) (of_int (pos 85)));
            heading = fmul z (of_int (pos 360));
          },
        ),
        s₄,
      )

  -- The vehicles from `v` on.
  vehicles_from : Scenario F → ℤ → String → Time → ℕ → ℕ → ℕ → S → List (Telemetry F)
  unfolding vehicle_course walk_from
  vehicles_from scen seed tenant base steps zero v s = []
  vehicles_from scen seed tenant base steps (suc left) v s =
      let ((course, start), s₁) = vehicle_course scen seed tenant base steps v s in
      let (pts, s₂) = walk_from course steps 0 start s₁ in
      pts ++ vehicles_from scen seed tenant base steps left (v + 1) s₂

  -- `Generate`; `none` is the panic of a scenario whose step is zero.
  unfoldable pub generate : Scenario F → ℤ → ℤ → String → Time → Option (List (Telemetry F))
  unfolding vehicles_from
  generate scen vehicles seed tenant base =
      let chosen = if eqb_ℤ seed (pos 0) then scen.seed else seed in
      elim (steps_in scen.duration_secs scen.step_secs) [
        | none ↦ none
        | some steps ↦
            some (vehicles_from scen chosen tenant base steps (pos_part vehicles) 0 (seeded chosen))
      ]
