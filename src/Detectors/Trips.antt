-- ===== src/Detectors/Trips.antt =====
-- The distance of a trip (internal/detectors/detectors.go).
use tide.Prelude.{true, false, ◌≡◌, arith}
use tide.Schemas.Runtime.{Runtime}
use tide.Schemas.Telemetry.{Telemetry}
use tide.State.{VehicleState, is_moving}
use tide.Detectors.{Config, TripTrack, trip_step, haversine_km}

module _ {F : Type 0} ⦃r : Runtime F⦄ where
  -- The point that starts a trip leaves the distance as the last trip left it: a new trip does not start
  -- from zero.
  pub trip_step-distance :
      (cfg : Config F) (t : Telemetry F) (s : VehicleState F) (st : TripTrack F)
      → st.active ≡ false
      → is_moving s.motion ≡ true
      → (trip_step cfg t s st).0.distance_km ≡ st.distance_km
  unfolding trip_step
  trip_step-distance cfg t s st idle moving = ground arith

  -- While a trip is under way, every point adds the way from the last one, also the point that ends the
  -- trip.
  pub trip_step-adds :
      (cfg : Config F) (t : Telemetry F) (s : VehicleState F) (st : TripTrack F)
      → st.active ≡ true
      → st.has_last ≡ true
      → (trip_step cfg t s st).0.distance_km
        ≡ r.fadd st.distance_km (haversine_km st.last_lat st.last_lng t.location.lat t.location.lng)
  unfolding trip_step
  trip_step-adds cfg t s st on last = ground arith
