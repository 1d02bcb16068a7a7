-- ===== src/Simulator/Faults.antt =====
-- simulator/faults/faults.go: duplicates, late, missing and swapped points, drift and offline vehicles.
pub mod Laws
use mathlib.Core.Option.{get_or}
use tide.Prelude.{
  ℕ, suc, ◌+◌, ◌-◌, ◌*◌, String, Bool, true, false, ◌&&◌, not, if◌then◌else◌, ◌==◌, ◌<>◌, Option,
  none, some, ℤ, pos, negsuc, List, [], ◌∷◌, ◌++◌, any,
}
use tide.Schemas.Clock.{Time, Duration, minute}
use tide.Schemas.Runtime.{Runtime}
use tide.Schemas.Telemetry.{Telemetry, Location, Metadata}
use tide.Simulator.{Rand}

pub record Config (F : Type 0) : Type 0 where
  pub duplicate_rate : F
  pub late_rate : F
  pub late_by : String
  pub missing_rate : F
  pub out_of_order_rate : F
  pub gps_drift_m : F
  pub offline_vehicles : F

-- `lateDuration`, over `time.ParseDuration`.
abbrev pub late_duration : {F : Type 0} → (String → Option Duration) → Config F → Duration
late_duration parse_duration cfg =
    if cfg.late_by == ""
    then pos (2 * minute)
    else get_or (parse_duration cfg.late_by) (pos (2 * minute))

-- `t.Add(-d)`; what is before the zero time is not modelled.
abbrev pub back : Time → Duration → Time
back t (pos n) = t - n
back t (negsuc n) = t + suc n

module _ {F : Type 0} where
  -- The identifiers of the vehicles, each once, in the order of their first points.
  abbrev pub vehicles_in : List String → List (Telemetry F) → List String
  vehicles_in seen [] = []
  vehicles_in seen (p ∷ ps) =
      let more = p.vehicle_id ∷ vehicles_in (p.vehicle_id ∷ seen) ps in
      let same = vehicles_in seen ps in if any (λ v. v == p.vehicle_id) seen then same else more

  -- `byV[vid]`
  abbrev pub points_of : String → List (Telemetry F) → List (Telemetry F)
  points_of vid [] = []
  points_of vid (p ∷ ps) =
      let rest = points_of vid ps in if p.vehicle_id == vid then p ∷ rest else rest

module _ {F S : Type 0} ⦃r : Runtime F⦄ (rand : Rand F S)
    (parse_duration : String → Option Duration) where
  open r use {flt, fadd, fmul, fdiv, of_int}
  open rand use {seeded, float, normal}

  -- `rate > 0 && r.Float64() < rate`: nothing is drawn where the rate is not positive.
  unfoldable pub hit : F → S → Bool × S
  hit rate s =
      let (x, s') = float s in if flt (of_int (pos 0)) rate then (flt x rate, s') else (false, s)

  -- The vehicles that do not stay offline; every one of them draws.
  unfoldable pub online : F → List (Telemetry F) → List String → S → List (Telemetry F) × S
  online rate points [] s = ([], s)
  online rate points (vid ∷ vids) s =
      let (x, s₁) = float s in
      let (rest, s₂) = online rate points vids s₁ in
      if flt x rate then (rest, s₂) else (points_of vid points ++ rest, s₂)

  unfoldable pub drop_offline : Config F → List (Telemetry F) → S → List (Telemetry F) × S
  unfolding online
  drop_offline cfg points s =
      if flt (of_int (pos 0)) cfg.offline_vehicles
      then online cfg.offline_vehicles points (vehicles_in [] points) s
      else (points, s)

  -- The drift of a position, which draws twice.
  unfoldable pub drift : F → Telemetry F → S → Telemetry F × S
  drift metres p s =
      let (x, s₁) = normal s in
      let (y, s₂) = normal s₁ in
      let moved = record p {
        location = record p.location {
          lat = fadd p.location.lat (fdiv (fmul x metres) (of_int (pos 111_000)));
          lng = fadd p.location.lng (fdiv (fmul y metres) (of_int (pos 85_000)));
        };
      } in
      if flt (of_int (pos 0)) metres then (moved, s₂) else (p, s)

  unfoldable pub delay : Config F → Telemetry F → S → Telemetry F × S
  unfolding hit
  delay cfg p s =
      let (late, s') = hit cfg.late_rate s in
      let delayed = record p {
        timestamp = back p.timestamp (late_duration parse_duration cfg);
        metadata = record p.metadata { quality = "degraded:late-injected" };
      } in
      (if late then delayed else p, s')

  -- The point, and a second one with the same sequence where it is duplicated.
  unfoldable pub duplicate : F → Telemetry F → S → List (Telemetry F) × S
  unfolding hit
  duplicate rate p s =
      let (twice, s') = hit rate s in
      (if twice then p ∷ record p { id = p.id <> "-dup" } ∷ [] else p ∷ [], s')

  -- The second loop, over the points that are kept.
  unfoldable pub disturb : Config F → List (Telemetry F) → S → List (Telemetry F) × S
  unfolding hit drift delay duplicate
  disturb cfg [] s = ([], s)
  disturb cfg (p ∷ ps) s =
      let (missing, s₁) = hit cfg.missing_rate s in
      let skipped = disturb cfg ps s₁ in
      let (moved, s₂) = drift cfg.gps_drift_m p s₁ in
      let (timed, s₃) = delay cfg moved s₂ in
      let (out, s₄) = duplicate cfg.duplicate_rate timed s₃ in
      let (rest, s₅) = disturb cfg ps s₄ in if missing then skipped else (out ++ rest, s₅)

  -- The third loop: neighbours are swapped, and both are then passed over.
  unfoldable pub swap_pairs : F → List (Telemetry F) → S → List (Telemetry F)
  unfolding hit
  swap_pairs rate [] s = []
  swap_pairs rate (p ∷ []) s = p ∷ []
  swap_pairs rate (p ∷ q ∷ ps) s =
      let (swapped, s') = hit rate s in
      let behind = swap_pairs rate ps s' in
      let onward = swap_pairs rate (q ∷ ps) s' in if swapped then q ∷ p ∷ behind else p ∷ onward

  -- `Apply`; `seed + 1` is `next`.
  unfoldable pub apply : Config F → ℤ → List (Telemetry F) → List (Telemetry F)
  unfolding drop_offline disturb swap_pairs
  apply cfg next points =
      let (kept, s₁) = drop_offline cfg points (seeded next) in
      let (out, s₂) = disturb cfg kept s₁ in swap_pairs cfg.out_of_order_rate out s₂
