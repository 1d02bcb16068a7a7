-- ===== src/State/Redis.antt =====
-- `RedisStore` of internal/state/state.go.
use tide.Prelude.{String, ◌<>◌, Option, none, some, List, map, Result, ok, err}
use tide.Redis.{Client}
use tide.State.{VehicleState}

pub data StoreError (X : Type 0) : Type 0 where
  redis : X → StoreError X
  -- what is cached is no state
  corrupt : StoreError X
  unmarshalled : StoreError X

-- `json.Marshal` and `json.Unmarshal` of a state, and `strings.TrimPrefix`.
pub record Codec (F B : Type 0) : Type 0 where
  pub marshal : VehicleState F → Option B
  pub unmarshal : B → Option (VehicleState F)
  pub trim_prefix : String → String → String

abbrev pub state_key : String → String
state_key id = "tide:state:" <> id

module _ {F B X W : Type 0} (client : Client X B W) (codec : Codec F B) where
  abbrev pub parsed : Option (VehicleState F) → Result (StoreError X) (Option (VehicleState F))
  parsed none = err corrupt
  parsed (some s) = ok (some s)

  abbrev pub read : Result X (Option B) → Result (StoreError X) (Option (VehicleState F))
  read (err x) = err (redis x)
  read (ok none) = ok none
  read (ok (some raw)) = parsed (codec.unmarshal raw)

  -- `Get`
  unfoldable pub get_state : String → W → Result (StoreError X) (Option (VehicleState F)) × W
  get_state id w = let (answer, w') = client.get (state_key id) w in (read answer, w')

  abbrev pub failure : Option X → Option (StoreError X)
  failure none = none
  failure (some x) = some (redis x)

  abbrev pub write : VehicleState F → Option B → W → Option (StoreError X) × W
  write s none w = (some unmarshalled, w)
  write s (some raw) w =
      let (error, w') = client.set (state_key s.vehicle_id) raw w in (failure error, w')

  -- `Set`
  unfoldable pub set_state : VehicleState F → W → Option (StoreError X) × W
  set_state s w = write s (codec.marshal s) w

  -- `ListIDs`: what was scanned is given back with the error.
  unfoldable pub list_ids : W → (List String × Option (StoreError X)) × W
  list_ids w =
      let (answer, w') = client.scan "tide:state:" w in
      ((map (codec.trim_prefix "tide:state:") answer.0, failure answer.1), w')
