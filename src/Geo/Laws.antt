-- ===== src/Geo/Laws.antt =====
-- The membership of the vehicles in the geofences (internal/geo/geo.go).
use mathlib.Core.Option.{get_or}
use tide.Prelude.{
  String, Bool, true, false, not, ◌≡◌, ◌∙◌, refl, ap, sym, subst, ◌==◌, eq_iff, eq_refl, arith,
  Bool-cases, inl, inr, some, List, [], ◌∷◌, Assoc, lookup, insert, lookup-insert_self,
  lookup-insert_ne, flat_fold, any,
}
use tide.Schemas.Payload.{get}
use tide.Schemas.Runtime.{Runtime}
use tide.Schemas.Telemetry.{Telemetry}
use tide.Schemas.Events.{Event}
use tide.Geo.{
  Geofence, Tracker, was_inside, fence_event, visit, leave, evaluate, contains, candidate_filter,
  position,
}
use tide.Geo.Tracks.{kind_of, advance, track, track-append, track-one, flat_fold-track}

module _ {F : Type 0} ⦃r : Runtime F⦄ where
  advance-own :
      (b : Bool) (tel : Telemetry F) (g : Geofence F)
      → advance tel.vehicle_id g.id (not b) (fence_event (kind_of b) tel g) ≡ some b
  unfolding fence_event get
  advance-own true tel g = rw (eq_refl tel.vehicle_id, eq_refl g.id) refl
  advance-own false tel g = rw (eq_refl tel.vehicle_id, eq_refl g.id) refl

  advance-other :
      (kind id : String) (on : Bool) (tel : Telemetry F) (g : Geofence F)
      → (g.id == id) ≡ false
      → advance tel.vehicle_id id on (fence_event kind tel g) ≡ some on
  unfolding fence_event get
  advance-other kind id on tel g h = rw (eq_refl tel.vehicle_id, h) refl

  abbrev ToggledTo : Bool → String → Assoc Bool → Telemetry F → Geofence F → Type 0
  ToggledTo b id mem tel g =
      track tel.vehicle_id id (some (was_inside id mem)) (fence_event (kind_of b) tel g ∷ [])
      ≡ some (was_inside id (insert g.id b mem))

  moved_self :
      (b : Bool) (mem : Assoc Bool) (tel : Telemetry F) (g : Geofence F)
      → was_inside g.id mem ≡ not b
      → ToggledTo b g.id mem tel g
  moved_self b mem tel g h =
      let v = tel.vehicle_id in
      let e = fence_event (kind_of b) tel g in
      rw (h, lookup-insert_self g.id b mem) (track-one v g.id (not b) e ∙ advance-own b tel g)

  -- the one event of a change, against the membership that it leaves
  moved-track :
      (b : Bool) (id : String) (mem : Assoc Bool) (tel : Telemetry F) (g : Geofence F)
      → was_inside g.id mem ≡ not b
      → track tel.vehicle_id id (some (was_inside id mem)) (fence_event (kind_of b) tel g ∷ [])
        ≡ some (was_inside id (insert g.id b mem))
  moved-track b id mem tel g h = elim (Bool-cases (g.id == id)) [
    | inl same ↦
        subst (λ id. ToggledTo b id mem tel g) ((eq_iff g.id id).0 same) (moved_self b mem tel g h)
    | inr other ↦
        let kept =
          lookup-insert_ne g.id id b mem (λ e. absurd (ground (arith, other, e, eq_iff g.id id))) in
        let e = fence_event (kind_of b) tel g in
        let on = was_inside id mem in
        track-one tel.vehicle_id id on e
        ∙ advance-other (kind_of b) id on tel g other
        ∙ ap (λ o. some (get_or o false)) (sym kept)
  ]

  visit-track :
      (id : String) (tel : Telemetry F) (mem : Assoc Bool) (g : Geofence F)
      → track tel.vehicle_id id (some (was_inside id mem)) (visit tel mem g).1
        ≡ some (was_inside id (visit tel mem g).0)
  unfolding visit
  visit-track id tel mem g = elim (Bool-cases (contains g (position tel))) [
    | inl inside ↦ elim (Bool-cases (was_inside g.id mem)) [
      | inl was ↦ rw (inside, was, visit) refl
      | inr new ↦ rw (inside, new, visit) (moved-track true id mem tel g new)
    ]
    | inr outside ↦ elim (Bool-cases (was_inside g.id mem)) [
      | inl was ↦ rw (outside, was, visit) (moved-track false id mem tel g was)
      | inr new ↦ rw (outside, new, visit) refl
    ]
  ]

  leave-track :
      (id : String) (tel : Telemetry F) (mem : Assoc Bool) (g : Geofence F)
      → track tel.vehicle_id id (some (was_inside id mem)) (leave tel mem g).1
        ≡ some (was_inside id (leave tel mem g).0)
  unfolding leave
  leave-track id tel mem g = elim (Bool-cases (was_inside g.id mem)) [
    | inr new ↦ rw (new, leave) refl
    | inl was ↦
        elim (Bool-cases (any (λ c. c.id == g.id) (candidate_filter (g ∷ []) (position tel)))) [
          | inl near ↦ rw (was, near, leave) refl
          | inr far ↦ rw (was, far, leave) (moved-track false id mem tel g was)
        ]
  ]

  -- whether the tracker has the vehicle in the fence
  abbrev pub is_inside : String → String → Tracker F → Bool
  is_inside v id t = was_inside id (get_or (lookup v t.members) [])

  evaluate-track :
      (id : String) (tel : Telemetry F) (t : Tracker F)
      → track tel.vehicle_id id (some (is_inside tel.vehicle_id id t)) (evaluate tel t).1
        ≡ some (is_inside tel.vehicle_id id (evaluate tel t).0)
  unfolding evaluate
  evaluate-track id tel t =
      let v = tel.vehicle_id in
      let mem = get_or (lookup v t.members) [] in
      let (mem₁, visits) = flat_fold (visit tel) mem (candidate_filter t.fences (position tel)) in
      let (mem₂, exits) = flat_fold (leave tel) mem₁ t.fences in
      track-append v id (some (was_inside id mem)) visits exits
      ∙ ap (λ o. track v id o exits)
          (flat_fold-track v id (was_inside id) (visit tel) (visit-track id tel) mem
            (candidate_filter t.fences (position tel)))
      ∙ flat_fold-track v id (was_inside id) (leave tel) (leave-track id tel) mem₁ t.fences
      ∙ rw (lookup-insert_self v mem₂ t.members) refl

  moved-other :
      (v id kind : String) (b : Bool) (tel : Telemetry F)
      → (tel.vehicle_id == v) ≡ false
      → (g : Geofence F) → track v id (some b) (fence_event kind tel g ∷ []) ≡ some b
  unfolding fence_event
  moved-other v id kind b tel h g = track-one v id b (fence_event kind tel g) ∙ rw h refl

  visit-other :
      (v id : String) (b : Bool) (tel : Telemetry F)
      → (tel.vehicle_id == v) ≡ false
      → (mem : Assoc Bool) (g : Geofence F) → track v id (some b) (visit tel mem g).1 ≡ some b
  unfolding visit
  visit-other v id b tel h mem g = elim (Bool-cases (contains g (position tel))) [
    | inl inside ↦ elim (Bool-cases (was_inside g.id mem)) [
      | inl was ↦ rw (inside, was, visit) refl
      | inr new ↦ rw (inside, new, visit) (moved-other v id "vehicle.geofence.entered" b tel h g)
    ]
    | inr outside ↦ elim (Bool-cases (was_inside g.id mem)) [
      | inl was ↦ rw (outside, was, visit) (moved-other v id "vehicle.geofence.exited" b tel h g)
      | inr new ↦ rw (outside, new, visit) refl
    ]
  ]

  leave-other :
      (v id : String) (b : Bool) (tel : Telemetry F)
      → (tel.vehicle_id == v) ≡ false
      → (mem : Assoc Bool) (g : Geofence F) → track v id (some b) (leave tel mem g).1 ≡ some b
  unfolding leave
  leave-other v id b tel h mem g = elim (Bool-cases (was_inside g.id mem)) [
    | inr new ↦ rw (new, leave) refl
    | inl was ↦
        elim (Bool-cases (any (λ c. c.id == g.id) (candidate_filter (g ∷ []) (position tel)))) [
          | inl near ↦ rw (was, near, leave) refl
          | inr far ↦ rw (was, far, leave) (moved-other v id "vehicle.geofence.exited" b tel h g)
        ]
  ]

  -- the events of another vehicle's point are passed over
  evaluate-other :
      (v id : String) (tel : Telemetry F) (t : Tracker F)
      → (tel.vehicle_id == v) ≡ false
      → track v id (some (is_inside v id t)) (evaluate tel t).1
        ≡ some (is_inside v id (evaluate tel t).0)
  unfolding evaluate
  evaluate-other v id tel t h =
      let on = is_inside v id t in
      let mem = get_or (lookup tel.vehicle_id t.members) [] in
      let (mem₁, visits) = flat_fold (visit tel) mem (candidate_filter t.fences (position tel)) in
      let (mem₂, exits) = flat_fold (leave tel) mem₁ t.fences in
      let kept =
        lookup-insert_ne tel.vehicle_id v mem₂ t.members
          (λ e. absurd (ground (arith, h, e, eq_iff tel.vehicle_id v))) in
      track-append v id (some on) visits exits
      ∙ ap (λ o. track v id o exits)
          (flat_fold-track v id (λ _. on) (visit tel) (visit-other v id on tel h) mem
            (candidate_filter t.fences (position tel)))
      ∙ flat_fold-track v id (λ _. on) (leave tel) (leave-other v id on tel h) mem₁ t.fences
      ∙ ap (λ o. some (was_inside id (get_or o []))) (sym kept)

  evaluate-any :
      (v id : String) (t : Tracker F) (tel : Telemetry F)
      → track v id (some (is_inside v id t)) (evaluate tel t).1
        ≡ some (is_inside v id (evaluate tel t).0)
  evaluate-any v id t tel = elim (Bool-cases (tel.vehicle_id == v)) [
    | inl same ↦
        subst
          (λ v.
            track v id (some (is_inside v id t)) (evaluate tel t).1
            ≡ some (is_inside v id (evaluate tel t).0))
          ((eq_iff tel.vehicle_id v).0 same) (evaluate-track id tel t)
    | inr other ↦ evaluate-other v id tel t other
  ]

  abbrev pub evaluate_all : Tracker F → List (Telemetry F) → Tracker F × List (Event F)
  evaluate_all = flat_fold (λ t tel. evaluate tel t)

  -- Over any sequence of points, of any vehicles in any order, and from any tracker: the events
  -- of a vehicle at a fence alternate, entered only from outside and exited only from inside,
  -- starting with where the tracker had the vehicle, and where they lead to is where the tracker
  -- then has it.
  pub evaluate_all-track :
      (v id : String) (t : Tracker F) (tels : List (Telemetry F))
      → track v id (some (is_inside v id t)) (evaluate_all t tels).1
        ≡ some (is_inside v id (evaluate_all t tels).0)
  evaluate_all-track v id t tels =
      flat_fold-track v id (is_inside v id) (λ t tel. evaluate tel t) (evaluate-any v id) t tels
