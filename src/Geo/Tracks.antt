-- ===== src/Geo/Tracks.antt =====
-- What the events of internal/geo/geo.go tell of where a vehicle is.
use tide.Prelude.{
  String, Bool, true, false, ◌&&◌, ◌≡◌, ◌∙◌, refl, ap, if◌then◌else◌, ◌==◌, Option, none, some,
  List, [], ◌∷◌, ◌++◌, flat_fold,
}
use tide.Schemas.Payload.{Value, text, get}
use tide.Schemas.Events.{Event}

-- One event, for the vehicle and the fence: entered only from outside, exited only from inside.
abbrev step_of : Bool → String → Option Bool
step_of on kind =
    if kind == "vehicle.geofence.entered"
    then if on then none else some true
    else if kind == "vehicle.geofence.exited"
    then if on then some false else none
    else some on

abbrev pub kind_of : Bool → String
kind_of true = "vehicle.geofence.entered"
kind_of false = "vehicle.geofence.exited"

module _ {F : Type 0} where
  abbrev text_of : Option (Value F) → String
  text_of (some (text s)) = s
  text_of _ = ""

  abbrev pub advance : String → String → Bool → Event F → Option Bool
  advance v id on e =
      if e.vehicle_id == v && text_of (get "geofenceId" e.payload) == id
      then step_of on e.kind
      else some on

  -- Where the vehicle is after the events; `none` where one of them does not fit.
  abbrev pub track : String → String → Option Bool → List (Event F) → Option Bool
  track v id none es = none
  track v id (some on) [] = some on
  track v id (some on) (e ∷ es) = track v id (advance v id on e) es

  pub track-one :
      (v id : String) (on : Bool) (e : Event F) → track v id (some on) (e ∷ []) ≡ advance v id on e
  track-one v id on e = elim (advance v id on e) as (λ o. track v id o [] ≡ o) [
    | none ↦ refl
    | some _ ↦ refl
  ]

  pub track-append :
      (v id : String) (o : Option Bool) (xs ys : List (Event F))
      → track v id o (xs ++ ys) ≡ track v id (track v id o xs) ys
  track-append v id none xs ys = refl
  track-append v id (some on) [] ys = refl
  track-append v id (some on) (x ∷ xs) ys = track-append v id (advance v id on x) xs ys

  -- a loop whose rounds keep the events and the state in step does so as a whole
  pub flat_fold-track :
      {S A : Type 0} (v id : String) (on : S → Bool) (step : S → A → S × List (Event F))
      → ((s : S) (a : A) → track v id (some (on s)) (step s a).1 ≡ some (on (step s a).0))
      → (s : S) (xs : List A)
      → track v id (some (on s)) (flat_fold step s xs).1 ≡ some (on (flat_fold step s xs).0)
  unfolding flat_fold
  flat_fold-track v id on step h s [] = refl
  flat_fold-track v id on step h s (x ∷ xs) =
      let (s', out) = step s x in
      track-append v id (some (on s)) out (flat_fold step s' xs).1
      ∙ ap (λ o. track v id o (flat_fold step s' xs).1) (h s x)
      ∙ flat_fold-track v id on step h s' xs
