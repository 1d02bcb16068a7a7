-- ===== src/Detectors/Lifecycle.antt =====
-- The events of `Detect` come as started, continued and ended, for each vehicle and each detector
-- (internal/detectors/detectors.go).
use mathlib.Core.Option.{get_or}
use tide.Prelude.{
  Assoc, sym, String, Bool, true, false, if◌then◌else◌, ◌==◌, Option, none, some, List, [], ◌∷◌,
  ◌++◌, ◌≡◌, refl, arith, flat_fold, lookup, insert, lookup-insert, eq_iff, Bool-cases, inl, inr,
  ◌∙◌, ap,
}
use tide.Schemas.Runtime.{Runtime}
use tide.Schemas.Telemetry.{Telemetry}
use tide.Schemas.Events.{Event}
use tide.State.{VehicleState}
use tide.Detectors.{
  Config, Tracker, SpeedingTrack, IdleTrack, TripTrack, mk_event, speeding_step, idle_step,
  trip_step, detect, new_speeding, new_idle, new_trip, speeding_switch, speeding_event, lasted,
  reached, since_or, is_over,
}

-- The event types of one detector.
pub record Names : Type 0 where
  pub start : String
  pub going : String
  pub finish : String

abbrev pub speeding_names : Names
speeding_names = record {
  start = "vehicle.speeding.started";
  going = "vehicle.speeding.continued";
  finish = "vehicle.speeding.ended";
}

abbrev pub idling_names : Names
idling_names = record {
  start = "vehicle.idling.started";
  going = "vehicle.idling.continued";
  finish = "vehicle.idling.ended";
}

abbrev pub trip_names : Names
trip_names = record {
  start = "vehicle.trip.started";
  going = "vehicle.trip.continued";
  finish = "vehicle.trip.ended";
}

-- One type read while the condition holds or not: a start only while it does not, anything else only
-- while it does.
abbrev advance_kind : Names → Bool → String → Option Bool
advance_kind n on kind =
    if kind == n.start
    then (if on then none else some true)
    else if kind == n.going
    then (if on then some true else none)
    else if kind == n.finish
    then (if on then some false else none)
    else some on

module _ {F : Type 0} where
  abbrev advance : Names → String → Bool → Event F → Option Bool
  advance n v on e = if e.vehicle_id == v then advance_kind n on e.kind else some on

  -- Reads the events of one vehicle and one detector among all events; `none` is a broken order, and
  -- otherwise the result says whether the condition holds at the end.
  abbrev pub track : Names → String → Option Bool → List (Event F) → Option Bool
  track n v none es = none
  track n v (some on) [] = some on
  track n v (some on) (e ∷ es) = track n v (advance n v on e) es

  track-none : (n : Names) (v : String) (es : List (Event F)) → track n v none es ≡ none
  track-none n v es = refl

  track-append :
      (n : Names) (v : String) (o : Option Bool) (xs ys : List (Event F))
      → track n v o (xs ++ ys) ≡ track n v (track n v o xs) ys
  track-append n v none xs ys = refl
  track-append n v (some on) [] ys = refl
  track-append n v (some on) (x ∷ xs) ys = track-append n v (advance n v on x) xs ys

  track-append_three :
      (n : Names) (v : String) (o : Option Bool) (xs ys zs : List (Event F))
      → track n v o (xs ++ (ys ++ zs)) ≡ track n v (track n v (track n v o xs) ys) zs
  track-append_three n v o xs ys zs =
      track-append n v o xs (ys ++ zs) ∙ track-append n v (track n v o xs) ys zs

module _ {F : Type 0} ⦃r : Runtime F⦄ where
  speeding_switch_own :
      (v : String) (cfg : Config F) (t : Telemetry F) (st : SpeedingTrack) (over started : Bool)
      → (t.vehicle_id == v) ≡ true
      → st.started ≡ started
      → let (st', out) = speeding_switch cfg t st over started in
        track speeding_names v (some started) out ≡ some st'.started
  unfolding speeding_switch speeding_event mk_event
  speeding_switch_own v cfg t st true false e h =
      elim (Bool-cases (lasted t.timestamp (since_or st.since t.timestamp) cfg.speed_for_secs)) [
        | inl long ↦ rw long (ground arith)
        | inr short ↦ rw (short, h)
      ]
  speeding_switch_own v cfg t st true true e h =
      elim (Bool-cases (reached t.timestamp st.last_continued cfg.speed_continued_every)) [
        | inl due ↦ rw due (ground arith)
        | inr early ↦ rw (early, h)
      ]
  speeding_switch_own v cfg t st false true e h = ground arith
  speeding_switch_own v cfg t st false false e h = rw h

  speeding_own :
      (v : String) (cfg : Config F) (t : Telemetry F) (st : SpeedingTrack)
      → (t.vehicle_id == v) ≡ true
      → track speeding_names v (some st.started) (speeding_step cfg t st).1
        ≡ some (speeding_step cfg t st).0.started
  unfolding speeding_step
  speeding_own v cfg t st e = speeding_switch_own v cfg t st (is_over cfg t) st.started e refl

  speeding_foreign :
      (n : Names) (v : String) (on : Bool) (cfg : Config F) (t : Telemetry F) (st : SpeedingTrack)
      → (t.vehicle_id == v) ≡ false
      → track n v (some on) (speeding_step cfg t st).1 ≡ some on
  unfolding speeding_step mk_event
  speeding_foreign n v on cfg t st e = ground arith

  speeding_switch_silent :
      (v : String) (on : Bool) (cfg : Config F) (t : Telemetry F) (st : SpeedingTrack)
      (over started : Bool)
      → (track idling_names v (some on) (speeding_switch cfg t st over started).1 ≡ some on)
        × (track trip_names v (some on) (speeding_switch cfg t st over started).1 ≡ some on)
  unfolding speeding_switch speeding_event mk_event
  speeding_switch_silent v on cfg t st true false = ground arith
  speeding_switch_silent v on cfg t st true true = ground arith
  speeding_switch_silent v on cfg t st false true = ground arith
  speeding_switch_silent v on cfg t st false false = (refl, refl)

  speeding_silent :
      (v : String) (on : Bool) (cfg : Config F) (t : Telemetry F) (st : SpeedingTrack)
      → (track idling_names v (some on) (speeding_step cfg t st).1 ≡ some on)
        × (track trip_names v (some on) (speeding_step cfg t st).1 ≡ some on)
  unfolding speeding_step
  speeding_silent v on cfg t st = speeding_switch_silent v on cfg t st (is_over cfg t) st.started

  idle_own :
      (v : String) (cfg : Config F) (t : Telemetry F) (s : VehicleState F) (st : IdleTrack)
      → (t.vehicle_id == v) ≡ true
      → track idling_names v (some st.started) (idle_step cfg t s st).1
        ≡ some (idle_step cfg t s st).0.started
  unfolding idle_step mk_event
  idle_own v cfg t s st e = ground arith

  idle_foreign :
      (n : Names) (v : String) (on : Bool) (cfg : Config F) (t : Telemetry F) (s : VehicleState F)
      (st : IdleTrack)
      → (t.vehicle_id == v) ≡ false
      → track n v (some on) (idle_step cfg t s st).1 ≡ some on
  unfolding idle_step mk_event
  idle_foreign n v on cfg t s st e = ground arith

  idle_silent :
      (v : String) (on : Bool) (cfg : Config F) (t : Telemetry F) (s : VehicleState F)
      (st : IdleTrack)
      → (track speeding_names v (some on) (idle_step cfg t s st).1 ≡ some on)
        × (track trip_names v (some on) (idle_step cfg t s st).1 ≡ some on)
  unfolding idle_step mk_event
  idle_silent v on cfg t s st = ground arith

  trip_own :
      (v : String) (cfg : Config F) (t : Telemetry F) (s : VehicleState F) (st : TripTrack F)
      → (t.vehicle_id == v) ≡ true
      → track trip_names v (some st.active) (trip_step cfg t s st).1
        ≡ some (trip_step cfg t s st).0.active
  unfolding trip_step mk_event
  trip_own v cfg t s st e = ground arith

  trip_foreign :
      (n : Names) (v : String) (on : Bool) (cfg : Config F) (t : Telemetry F) (s : VehicleState F)
      (st : TripTrack F)
      → (t.vehicle_id == v) ≡ false
      → track n v (some on) (trip_step cfg t s st).1 ≡ some on
  unfolding trip_step mk_event
  trip_foreign n v on cfg t s st e = ground arith

  trip_silent :
      (v : String) (on : Bool) (cfg : Config F) (t : Telemetry F) (s : VehicleState F)
      (st : TripTrack F)
      → (track speeding_names v (some on) (trip_step cfg t s st).1 ≡ some on)
        × (track idling_names v (some on) (trip_step cfg t s st).1 ≡ some on)
  unfolding trip_step mk_event
  trip_silent v on cfg t s st = ground arith

  abbrev pub speeding_of : String → Tracker F → SpeedingTrack
  speeding_of v tr = get_or (lookup v tr.speeding) new_speeding

  abbrev pub idling_of : String → Tracker F → IdleTrack
  idling_of v tr = get_or (lookup v tr.idling) new_idle

  abbrev pub trip_of : String → Tracker F → TripTrack F
  trip_of v tr = get_or (lookup v tr.trips) new_trip

  -- What the tracker says of one vehicle: speeding, idling, on a trip.
  abbrev pub is_speeding : String → Tracker F → Bool
  is_speeding v tr = (speeding_of v tr).started

  abbrev pub is_idling : String → Tracker F → Bool
  is_idling v tr = (idling_of v tr).started

  abbrev pub is_on_trip : String → Tracker F → Bool
  is_on_trip v tr = (trip_of v tr).active

  module _ (v : String) (t : Telemetry F) (s : VehicleState F) (tr : Tracker F) where
    abbrev w : String
    w = t.vehicle_id

    same : (w == v) ≡ true → v ≡ w
    same e = sym ((eq_iff w v).0 e)

    stored_own :
        {V : Type 0} (m : Assoc V) (x d : V)
        → (w == v) ≡ true
        → get_or (lookup v (insert w x m)) d ≡ x
    stored_own m x d e = rw (lookup-insert w v x m, e)

    stored_foreign :
        {V : Type 0} (m : Assoc V) (x d : V)
        → (w == v) ≡ false
        → get_or (lookup v (insert w x m)) d ≡ get_or (lookup v m) d
    stored_foreign m x d e = rw (lookup-insert w v x m, e)

    detect_speeding :
        track speeding_names v (some (is_speeding v tr)) (detect t s tr).1
        ≡ some (is_speeding v (detect t s tr).0)
    unfolding detect
    detect_speeding =
        let on = is_speeding v tr in
        let now = (speeding_step tr.cfg t (speeding_of w tr)).0 in
        elim (Bool-cases (w == v)) [
          | inl e ↦
              let read : track speeding_names v (some on) (detect t s tr).1 ≡ some now.started =
                ap (λ b. track speeding_names v (some b) (detect t s tr).1)
                  (ap (λ z. is_speeding z tr) (same e))
                ∙ rw (
                  track-append_three,
                  speeding_own v tr.cfg t (speeding_of w tr) e,
                  (idle_silent v now.started tr.cfg t s (idling_of w tr)).0,
                  (trip_silent v now.started tr.cfg t s (trip_of w tr)).0,
                ) in
              read ∙ ap (λ st. some st.started) (sym (stored_own tr.speeding now new_speeding e))
          | inr e ↦
              let read : track speeding_names v (some on) (detect t s tr).1 ≡ some on = rw (
                track-append_three,
                speeding_foreign speeding_names v on tr.cfg t (speeding_of w tr) e,
                (idle_silent v on tr.cfg t s (idling_of w tr)).0,
                (trip_silent v on tr.cfg t s (trip_of w tr)).0,
              ) in
              read
              ∙ ap (λ st. some st.started) (sym (stored_foreign tr.speeding now new_speeding e))
        ]

    detect_idling :
        track idling_names v (some (is_idling v tr)) (detect t s tr).1
        ≡ some (is_idling v (detect t s tr).0)
    unfolding detect
    detect_idling =
        let on = is_idling v tr in
        let now = (idle_step tr.cfg t s (idling_of w tr)).0 in
        elim (Bool-cases (w == v)) [
          | inl e ↦
              let read : track idling_names v (some on) (detect t s tr).1 ≡ some now.started =
                ap (λ b. track idling_names v (some b) (detect t s tr).1)
                  (ap (λ z. is_idling z tr) (same e))
                ∙ rw (
                  track-append_three,
                  (speeding_silent v (idling_of w tr).started tr.cfg t (speeding_of w tr)).0,
                  idle_own v tr.cfg t s (idling_of w tr) e,
                  (trip_silent v now.started tr.cfg t s (trip_of w tr)).1,
                ) in
              read ∙ ap (λ st. some st.started) (sym (stored_own tr.idling now new_idle e))
          | inr e ↦
              let read : track idling_names v (some on) (detect t s tr).1 ≡ some on = rw (
                track-append_three,
                (speeding_silent v on tr.cfg t (speeding_of w tr)).0,
                idle_foreign idling_names v on tr.cfg t s (idling_of w tr) e,
                (trip_silent v on tr.cfg t s (trip_of w tr)).1,
              ) in
              read ∙ ap (λ st. some st.started) (sym (stored_foreign tr.idling now new_idle e))
        ]

    detect_trips :
        track trip_names v (some (is_on_trip v tr)) (detect t s tr).1
        ≡ some (is_on_trip v (detect t s tr).0)
    unfolding detect
    detect_trips =
        let on = is_on_trip v tr in
        let now = (trip_step tr.cfg t s (trip_of w tr)).0 in
        elim (Bool-cases (w == v)) [
          | inl e ↦
              let read : track trip_names v (some on) (detect t s tr).1 ≡ some now.active =
                ap (λ b. track trip_names v (some b) (detect t s tr).1)
                  (ap (λ z. is_on_trip z tr) (same e))
                ∙ rw (
                  track-append_three,
                  (speeding_silent v (trip_of w tr).active tr.cfg t (speeding_of w tr)).1,
                  (idle_silent v (trip_of w tr).active tr.cfg t s (idling_of w tr)).1,
                  trip_own v tr.cfg t s (trip_of w tr) e,
                ) in
              read ∙ ap (λ st. some st.active) (sym (stored_own tr.trips now new_trip e))
          | inr e ↦
              let read : track trip_names v (some on) (detect t s tr).1 ≡ some on = rw (
                track-append_three,
                (speeding_silent v on tr.cfg t (speeding_of w tr)).1,
                (idle_silent v on tr.cfg t s (idling_of w tr)).1,
                trip_foreign trip_names v on tr.cfg t s (trip_of w tr) e,
              ) in
              read ∙ ap (λ st. some st.active) (sym (stored_foreign tr.trips now new_trip e))
        ]

  abbrev detect_one : Tracker F → Telemetry F × VehicleState F → Tracker F × List (Event F)
  detect_one tr (t, s) = detect t s tr

  -- All events of a run over the points of any vehicles, in any order, with any states.
  pub detect_all : Tracker F → List (Telemetry F × VehicleState F) → Tracker F × List (Event F)
  detect_all = flat_fold detect_one

  track-detect_all :
      (n : Names) (v : String) (on : Tracker F → Bool)
      → ((t : Telemetry F) (s : VehicleState F) (tr : Tracker F)
          → track n v (some (on tr)) (detect t s tr).1 ≡ some (on (detect t s tr).0))
      → (tr : Tracker F) (points : List (Telemetry F × VehicleState F))
      → track n v (some (on tr)) (detect_all tr points).1 ≡ some (on (detect_all tr points).0)
  unfolding detect_all flat_fold
  track-detect_all n v on one tr [] = refl
  track-detect_all n v on one tr ((t, s) ∷ points) =
      let (tr', out) = detect t s tr in
      let rest = (detect_all tr' points).1 in
      track-append n v (some (on tr)) out rest
      ∙ ap (λ o. track n v o rest) (one t s tr)
      ∙ track-detect_all n v on one tr' points

  -- Over any points of any vehicles, in any order and with any states, the events of each vehicle are
  -- well nested for each detector: `started` comes only while the condition does not hold, `continued`
  -- and `ended` only while it holds, and the tracker knows at every moment whether it holds.
  pub detect_all-lifecycles :
      (v : String) (tr : Tracker F) (points : List (Telemetry F × VehicleState F))
      → let (tr', out) = detect_all tr points in
        (track speeding_names v (some (is_speeding v tr)) out ≡ some (is_speeding v tr'))
        × (track idling_names v (some (is_idling v tr)) out ≡ some (is_idling v tr'))
        × (track trip_names v (some (is_on_trip v tr)) out ≡ some (is_on_trip v tr'))
  detect_all-lifecycles v tr points = (
    track-detect_all speeding_names v (is_speeding v) (detect_speeding v) tr points,
    track-detect_all idling_names v (is_idling v) (detect_idling v) tr points,
    track-detect_all trip_names v (is_on_trip v) (detect_trips v) tr points,
  )
