-- ===== src/Adapters/Rest/Laws.antt =====
-- What the connection of a REST adapter promises.
use tide.Prelude.{String, false, ◌≡◌, arith, none, some, List, [], ◌∷◌, Result, ok, err, eq_iff}
use tide.Adapters.{Vehicle, healthy, failed, is_healthy}
use tide.Adapters.Rest.{
  Adapter, Client, Error, connect, list_vehicles, get_vehicle, find, not_connected, found,
}

find-ok : (id : String) (vs : List Vehicle) {v : Vehicle} → find id vs ≡ ok v → v.provider_id ≡ id
unfolding find
find-ok id [] h = absurd (cc h)
find-ok id (u ∷ vs) {v = v} h = ground (arith, eq_iff u.provider_id id, find-ok id vs {v = v})

module _ {W : Type 0} (client : Client W) where
  -- A connect that reports no error leaves the adapter healthy, and one that reports an error leaves it
  -- failed, so what it was before does not show; nothing else of the adapter changes.
  pub connect-state :
      (path : String) (a : Adapter) (w : W)
      → let (error, a') = (connect client path a w).0 in
        a' ≡ record a { state = elim error [ none ↦ healthy | some _ ↦ failed ] }
  unfolding connect
  connect-state path a w = ground arith

  found-ok :
      (id : String) (all : Result Error (List Vehicle)) {v : Vehicle}
      → found client id all ≡ ok v
      → v.provider_id ≡ id
  unfolding found
  found-ok id (ok vs) h = find-ok id vs h
  found-ok id (err e) h = absurd (cc h)

  -- A vehicle that is found has the identifier that was asked for.
  pub get_vehicle-id :
      (path id : String) (a : Adapter) (w : W) {v : Vehicle}
      → (get_vehicle client path id a w).0 ≡ ok v
      → v.provider_id ≡ id
  unfolding get_vehicle
  get_vehicle-id path id a w h = found-ok id (list_vehicles client path a w).0 h

  -- An adapter that is not healthy sends no request for its vehicles, and reports that it is not connected.
  pub get_vehicle-not_connected :
      (path id : String) (a : Adapter) (w : W)
      → is_healthy a.state ≡ false
      → get_vehicle client path id a w ≡ (err not_connected, w)
  unfolding get_vehicle
  get_vehicle-not_connected path id a w down = ground arith
