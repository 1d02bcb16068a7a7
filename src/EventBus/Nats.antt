-- ===== src/EventBus/Nats.antt =====
-- `NATSBus` of internal/eventbus/eventbus.go, over a connection as a parameter.
use tide.Prelude.{String, Option, none, some}
use tide.Schemas.Events.{Event, Invalid, validate, subject}

pub data NatsError (E : Type 0) : Type 0 where
  invalid : Invalid → NatsError E
  unmarshalled : NatsError E
  send_failed : E → NatsError E

-- `json.Marshal`, which can fail, and `Publish` of the connection: bytes of a type `B` on a subject, over the world `W`.
pub record Wire (F E B W : Type 0) : Type 0 where
  pub marshal : Event F → Option B
  pub send : String → B → W → Option E × W

module _ {F E B W : Type 0} (wire : Wire F E B W) where
  open wire use {marshal, send}

  abbrev send_error : Option E × W → Option (NatsError E) × W
  send_error (none, w) = (none, w)
  send_error (some e, w) = (some (send_failed e), w)

  abbrev pub publish_raw : Event F → Option B → W → Option (NatsError E) × W
  publish_raw e none w = (some unmarshalled, w)
  publish_raw e (some raw) w = send_error (send (subject e) raw w)

  -- `Publish`
  unfoldable pub publish_nats : Event F → W → Option (NatsError E) × W
  publish_nats e w = elim (validate e) [
    | some bad ↦ (some (invalid bad), w)
    | none ↦ publish_raw e (marshal e) w
  ]
