-- ===== src/Simulator/Faults/Laws.antt =====
-- What the faults leave as it was (simulator/faults/faults.go).
use tide.Prelude.{
  ◌≡◌, ap, ◌<>◌, String, false, ◌==◌, Bool-cases, inl, inr, Option, ℤ, pos, List, [], ◌∷◌, All,
  All-append, refl,
}
use tide.Schemas.Clock.{Duration}
use tide.Schemas.Runtime.{Runtime}
use tide.Schemas.Telemetry.{Telemetry}
use tide.Simulator.{Rand}
use tide.Simulator.Faults.{
  Config, vehicles_in, points_of, hit, online, drop_offline, drift, delay, duplicate, disturb,
  swap_pairs, apply,
}

-- the fields that no fault touches
pub record IsSamePoint {F : Type 0} (p q : Telemetry F) : Type 0 where
  pub same_tenant : q.tenant_id ≡ p.tenant_id
  pub same_vehicle : q.vehicle_id ≡ p.vehicle_id
  pub same_device : q.device_id ≡ p.device_id
  pub same_source : q.source ≡ p.source
  pub same_sequence : q.metadata.sequence ≡ p.metadata.sequence
  pub same_raw : q.raw ≡ p.raw

unchanged : {F : Type 0} (p : Telemetry F) → IsSamePoint p p
unchanged p = record {
  same_tenant = refl;
  same_vehicle = refl;
  same_device = refl;
  same_source = refl;
  same_sequence = refl;
  same_raw = refl;
}

module _ {F S : Type 0} ⦃r : Runtime F⦄ (rand : Rand F S)
    (parse_duration : String → Option Duration) where
  open r use {flt, of_int}

  -- a predicate that depends on those fields only
  abbrev pub IsStable : (Telemetry F → Type 0) → Type 0
  IsStable P = (p q : Telemetry F) → IsSamePoint p q → P p → P q

  drift-IsSamePoint :
      (x : F) (p : Telemetry F) (s : S) → IsSamePoint p (drift rand parse_duration x p s).0
  unfolding drift
  drift-IsSamePoint x p s = elim (Bool-cases (flt (of_int (pos 0)) x)) [
    | inl on ↦
        rw (on, drift)
          (record {
            same_tenant = refl;
            same_vehicle = refl;
            same_device = refl;
            same_source = refl;
            same_sequence = refl;
            same_raw = refl;
          })
    | inr off ↦ rw (off, drift) (unchanged p)
  ]

  delay-IsSamePoint :
      (cfg : Config F) (p : Telemetry F) (s : S)
      → IsSamePoint p (delay rand parse_duration cfg p s).0
  unfolding delay
  delay-IsSamePoint cfg p s = elim (Bool-cases (hit rand parse_duration cfg.late_rate s).0) [
    | inl late ↦
        rw (late, delay)
          (record {
            same_tenant = refl;
            same_vehicle = refl;
            same_device = refl;
            same_source = refl;
            same_sequence = refl;
            same_raw = refl;
          })
    | inr off ↦ rw (off, delay) (unchanged p)
  ]

  module _ (P : Telemetry F → Type 0) (stable : IsStable P) where
    duplicate-All :
        (rate : F) (p : Telemetry F) (s : S)
        → P p
        → All P (duplicate rand parse_duration rate p s).0
    unfolding duplicate
    duplicate-All rate p s h = elim (Bool-cases (hit rand parse_duration rate s).0) [
      | inl twice ↦
          rw (twice, duplicate)
            (
              h,
              (
                stable p (record p { id = p.id <> "-dup" })
                    (record {
                      same_tenant = refl;
                      same_vehicle = refl;
                      same_device = refl;
                      same_source = refl;
                      same_sequence = refl;
                      same_raw = refl;
                    })
                    h,
                tt,
              ),
            )
      | inr once ↦ rw (once, duplicate) (h, tt)
    ]

    disturb-All :
        (cfg : Config F) (ps : List (Telemetry F)) (s : S)
        → All P ps
        → All P (disturb rand parse_duration cfg ps s).0
    unfolding disturb
    disturb-All cfg [] s h = tt
    disturb-All cfg (p ∷ ps) s (h, hs) =
        let (missing, s₁) = hit rand parse_duration cfg.missing_rate s in
        let (moved, s₂) = drift rand parse_duration cfg.gps_drift_m p s₁ in
        let (timed, s₃) = delay rand parse_duration cfg moved s₂ in
        let (out, s₄) = duplicate rand parse_duration cfg.duplicate_rate timed s₃ in
        let timed_P =
          stable moved timed (delay-IsSamePoint cfg moved s₂)
            (stable p moved (drift-IsSamePoint cfg.gps_drift_m p s₁) h) in
        elim (Bool-cases (hit rand parse_duration cfg.missing_rate s).0) [
          | inl gone ↦ rw (gone, disturb) (disturb-All cfg ps s₁ hs)
          | inr there ↦
              rw (there, disturb)
                (All-append P out (disturb rand parse_duration cfg ps s₄).0
                  (duplicate-All cfg.duplicate_rate timed s₃ timed_P) (disturb-All cfg ps s₄ hs))
        ]

    points_of-All : (vid : String) (ps : List (Telemetry F)) → All P ps → All P (points_of vid ps)
    points_of-All vid [] h = tt
    points_of-All vid (p ∷ ps) (h, hs) = elim (Bool-cases (p.vehicle_id == vid)) [
      | inl same ↦ rw same (h, points_of-All vid ps hs)
      | inr other ↦ rw other (points_of-All vid ps hs)
    ]

    online-All :
        (rate : F) (ps : List (Telemetry F)) (vids : List String) (s : S)
        → All P ps
        → All P (online rand parse_duration rate ps vids s).0
    unfolding online
    online-All rate ps [] s h = tt
    online-All rate ps (vid ∷ vids) s h =
        let (x, s₁) = rand.float s in
        let rest = online-All rate ps vids s₁ h in
        elim (Bool-cases (flt x rate)) [
          | inl off ↦ rw (off, online) rest
          | inr on ↦
              rw (on, online)
                (All-append P (points_of vid ps) (online rand parse_duration rate ps vids s₁).0
                  (points_of-All vid ps h) rest)
        ]

    drop_offline-All :
        (cfg : Config F) (ps : List (Telemetry F)) (s : S)
        → All P ps
        → All P (drop_offline rand parse_duration cfg ps s).0
    unfolding drop_offline
    drop_offline-All cfg ps s h = elim (Bool-cases (flt (of_int (pos 0)) cfg.offline_vehicles)) [
      | inl some_off ↦
          rw (some_off, drop_offline) (online-All cfg.offline_vehicles ps (vehicles_in [] ps) s h)
      | inr all_on ↦ rw (all_on, drop_offline) h
    ]

    swap_pairs-All :
        (rate : F) (ps : List (Telemetry F)) (s : S)
        → All P ps
        → All P (swap_pairs rand parse_duration rate ps s)
    unfolding swap_pairs
    swap_pairs-All rate [] s h = tt
    swap_pairs-All rate (p ∷ []) s h = h
    swap_pairs-All rate (p ∷ q ∷ ps) s (hp, (hq, hs)) =
        let s' = (hit rand parse_duration rate s).1 in
        let behind = swap_pairs-All rate ps s' hs in
        let onward = swap_pairs-All rate (q ∷ ps) s' (hq, hs) in
        elim (Bool-cases (hit rand parse_duration rate s).0) [
          | inl swapped ↦ rw (swapped, swap_pairs) (hq, (hp, behind))
          | inr kept ↦ rw (kept, swap_pairs) (hp, onward)
        ]

    -- The faults invent nothing: what holds of every point that goes in, and depends on its tenant, vehicle,
    -- device, source, sequence and raw payload only, holds of every point that comes out.
    pub apply-All :
        (cfg : Config F) (next : ℤ) (ps : List (Telemetry F))
        → All P ps
        → All P (apply rand parse_duration cfg next ps)
    unfolding apply
    apply-All cfg next ps h =
        let s = rand.seeded next in
        let (kept, s₁) = drop_offline rand parse_duration cfg ps s in
        let (out, s₂) = disturb rand parse_duration cfg kept s₁ in
        swap_pairs-All cfg.out_of_order_rate out s₂
          (disturb-All cfg kept s₁ (drop_offline-All cfg ps s h))

  abbrev pub IsOff : F → Type 0
  IsOff rate = flt (of_int (pos 0)) rate ≡ false

  pub record IsCalm (cfg : Config F) : Type 0 where
    pub no_duplicates : IsOff cfg.duplicate_rate
    pub none_late : IsOff cfg.late_rate
    pub none_missing : IsOff cfg.missing_rate
    pub in_order : IsOff cfg.out_of_order_rate
    pub no_drift : IsOff cfg.gps_drift_m
    pub all_online : IsOff cfg.offline_vehicles

  hit-off : (rate : F) (s : S) → IsOff rate → hit rand parse_duration rate s ≡ (false, s)
  unfolding hit
  hit-off rate s off = rw off refl

  disturb-calm :
      (cfg : Config F) (ps : List (Telemetry F)) (s : S)
      → IsCalm cfg
      → disturb rand parse_duration cfg ps s ≡ (ps, s)
  unfolding disturb
  disturb-calm cfg [] s calm = refl
  disturb-calm cfg (p ∷ ps) s calm =
      rw
        (
          calm.none_missing,
          calm.no_drift,
          calm.none_late,
          calm.no_duplicates,
          disturb-calm cfg ps s calm,
        )
        refl

  swap_pairs-off :
      (rate : F) (ps : List (Telemetry F)) (s : S)
      → IsOff rate
      → swap_pairs rand parse_duration rate ps s ≡ ps
  unfolding swap_pairs
  swap_pairs-off rate [] s off = refl
  swap_pairs-off rate (p ∷ []) s off = refl
  swap_pairs-off rate (p ∷ q ∷ ps) s off =
      rw (hit-off rate s off)
        (ap (λ (l : List (Telemetry F)). p ∷ l) (swap_pairs-off rate (q ∷ ps) s off))

  -- With no rate and no drift above zero, the points come out as they went in.
  pub apply-calm :
      (cfg : Config F) (next : ℤ) (ps : List (Telemetry F))
      → IsCalm cfg
      → apply rand parse_duration cfg next ps ≡ ps
  unfolding apply drop_offline
  apply-calm cfg next ps calm =
      rw (calm.all_online, disturb-calm cfg ps (rand.seeded next) calm)
        (swap_pairs-off cfg.out_of_order_rate ps (rand.seeded next) calm.in_order)
