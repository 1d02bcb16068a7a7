-- ===== src/Adapters/Live.antt =====
-- The live path of Traccar: `fetchPositions` and the loop of adapters/traccar/traccar.go, under `Adapter.Run`
-- of adapters/registry/registry.go.
pub mod Laws
use tide.Prelude.{String, ◌<>◌, ℕ, Option, none, some, List, [], ◌∷◌, Result, ok, err}
use tide.Schemas.Clock.{Time}
use tide.Schemas.Runtime.{Runtime}
use tide.Schemas.Telemetry.{Telemetry}
use tide.Adapters.Rest
use tide.Adapters.Rest.{Adapter, Client, connect, disconnect}
use tide.Adapters.Traccar
use tide.Adapters.Traccar.{Position, handle_raw, poll}

-- The errors of the function that `Run` subscribes with.
pub data LiveError (E : Type 0) : Type 0 where
  refused : Traccar.Error → LiveError E
  not_emitted : E → LiveError E

module _ {F W : Type 0} (client : Client W) (decode : String → Option (List (Position F))) where
  abbrev pub positions_in : Option (ℕ × String) → Option (List (Position F))
  positions_in none = none
  positions_in (some (status, body)) = decode body

  -- `fetchPositions`: the status of the answer is not looked at.
  unfoldable pub fetch_positions : Adapter → W → Option (List (Position F)) × W
  fetch_positions a w =
      let (answer, w') = client.get (a.base_url <> "/api/positions") a.auth w in
      (positions_in answer, w')

-- `reread` is a position after `json.Marshal` and `json.Unmarshal`, and `emit` is that of `emitting`.
module _ {F E W : Type 0} ⦃r : Runtime F⦄ (reread : Position F → Option (Position F))
    (emit : Telemetry F → W → Option E × W) where
  abbrev pub emitted : Option E × W → Option (LiveError E) × W
  emitted (none, w) = (none, w)
  emitted (some e, w) = (some (not_emitted e), w)

  abbrev pub emit_read : Result Traccar.Error (Telemetry F) → W → Option (LiveError E) × W
  emit_read (err x) w = (some (refused x), w)
  emit_read (ok t) w = emitted (emit t w)

  -- The function that `Run` subscribes with.
  unfoldable pub deliver : Adapter → Time → Position F → W → Option (LiveError E) × W
  deliver a now p w = emit_read (handle_raw a (reread p) now) w

module _ {F E W : Type 0} ⦃r : Runtime F⦄ (client : Client W)
    (decode : String → Option (List (Position F))) (reread : Position F → Option (Position F))
    (emit : Telemetry F → W → Option E × W) where
  -- The loop of `Subscribe` over the ticks until the context is done.
  unfoldable pub watch : List Time → Adapter → W → Option (LiveError E) × Adapter × W
  watch [] a w = (none, a, w)
  watch (now ∷ ticks) a w =
      let (positions, w₁) = fetch_positions client decode a w in
      let (error, a', w₂) = poll (deliver reread emit a now) positions a w₁ in
      let rest = watch ticks a' w₂ in elim error [ some e ↦ (some e, a', w₂) | none ↦ rest ]

  abbrev pub subscribed : List Time → (Option Rest.Error × Adapter) × W → Adapter × W
  subscribed ticks ((some e, a), w) = (a, w)
  subscribed ticks ((none, a), w) = let (error, a', w') = watch ticks a w in (disconnect a', w')

  -- `Run`
  unfoldable pub run : List Time → Adapter → W → Adapter × W
  unfolding watch
  run ticks a w = subscribed ticks (connect client "/api/server" a w)
