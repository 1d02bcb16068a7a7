-- ===== src/Adapters/Rest.antt =====
-- The connection that the REST adapters share (adapters/traccar/traccar.go and adapters/flespi/flespi.go):
-- the two files hold the same code but for the paths, the header and the form of the answers.
pub mod Laws
use tide.Prelude.{
  ℕ, String, Bool, true, false, if◌then◌else◌, ◌==◌, ◌<>◌, eqb, Option, none, some, ℤ, List, [],
  ◌∷◌, map, Result, ok, err,
}
use tide.Adapters.{HealthState, Vehicle, configured, connecting, healthy, failed, is_healthy}

pub record Adapter : Type 0 where
  pub base_url : String
  -- the `Authorization` header
  pub auth : String
  pub tenant : String
  pub state : HealthState

-- A device as the provider lists it.
pub record Device : Type 0 where
  pub id : ℤ
  pub name : String

pub data Error : Type 0 where
  unreachable not_connected bad_answer : Error
  bad_status : ℕ → Error
  unknown_device : String → Error

-- An HTTP client over a world `W`, and the JSON decoding of the answers.
pub record Client (W : Type 0) : Type 0 where
  -- a GET of a URL with the header; `none` where the transport fails
  pub get : String → String → W → Option (ℕ × String) × W
  -- the body of the device list
  pub decode_devices : String → Option (List Device)
  -- `fmt.Sprint` of an id
  pub print_id : ℤ → String

unfoldable pub new : String → String → String → Adapter
new base_url auth tenant = record {
  base_url = base_url;
  auth = auth;
  tenant = tenant;
  state = configured;
}

unfoldable pub set_state : HealthState → Adapter → Adapter
set_state s a = record a { state = s }

unfoldable pub disconnect : Adapter → Adapter
unfolding set_state
disconnect a = set_state configured a

-- The first vehicle with the id.
unfoldable pub find : String → List Vehicle → Result Error Vehicle
find id [] = err (unknown_device id)
find id (v ∷ vs) = if v.provider_id == id then ok v else find id vs

module _ {W : Type 0} (client : Client W) where
  open client use {get, decode_devices, print_id}

  -- What `Connect` makes of the answer.
  connected : Adapter → Option (ℕ × String) → Option Error × Adapter
  unfolding set_state
  connected a none = (some unreachable, set_state failed a)
  connected a (some (status, body)) =
      if eqb status 200
      then (none, set_state healthy a)
      else (some (bad_status status), set_state failed a)

  -- `Connect`: the states that it passes through are `connecting` and the one of the result.
  unfoldable pub connect : String → Adapter → W → (Option Error × Adapter) × W
  unfolding connected set_state
  connect path a w =
      let (answer, w') = get (a.base_url <> path) a.auth w in
      (connected (set_state connecting a) answer, w')

  abbrev vehicle_of : Device → Vehicle
  vehicle_of d = record { provider_id = print_id d.id; name = d.name }

  decoded : Option (List Device) → Result Error (List Vehicle)
  decoded none = err bad_answer
  decoded (some ds) = ok (map vehicle_of ds)

  listed : Option (ℕ × String) → Result Error (List Vehicle)
  unfolding decoded
  listed none = err unreachable
  listed (some (status, body)) = decoded (decode_devices body)

  -- `ListVehicles`: the status of the answer is not looked at.
  unfoldable pub list_vehicles : String → Adapter → W → Result Error (List Vehicle) × W
  unfolding listed
  list_vehicles path a w =
      let (answer, w') = get (a.base_url <> path) a.auth w in
      if is_healthy a.state then (listed answer, w') else (err not_connected, w)

  found : String → Result Error (List Vehicle) → Result Error Vehicle
  unfolding find
  found id (err e) = err e
  found id (ok vs) = find id vs

  unfoldable pub get_vehicle : String → String → Adapter → W → Result Error Vehicle × W
  unfolding found list_vehicles
  get_vehicle path id a w = let (all, w') = list_vehicles path a w in (found id all, w')
