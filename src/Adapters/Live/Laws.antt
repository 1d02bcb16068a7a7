-- ===== src/Adapters/Live/Laws.antt =====
-- What ends the live path of Traccar (adapters/registry/registry.go).
use tide.Prelude.{String, ◌≡◌, refl, ap, arith, Option, none, some, List, ◌∷◌, ◌∙◌}
use tide.Schemas.Clock.{Time}
use tide.Schemas.Runtime.{Runtime}
use tide.Schemas.Telemetry.{Telemetry}
use tide.Adapters.{configured}
use tide.Adapters.Rest.{Adapter, Client, connect, disconnect, set_state}
use tide.Adapters.Traccar.{Position, poll, handle_all}
use tide.Adapters.Live.{LiveError, fetch_positions, deliver, watch, run, subscribed}

module _ {F E W : Type 0} ⦃r : Runtime F⦄ (client : Client W)
    (decode : String → Option (List (Position F))) (reread : Position F → Option (Position F))
    (emit : Telemetry F → W → Option E × W) where
  watch-refused :
      (now : Time) (ticks : List Time) (a : Adapter) (p : Position F) (ps : List (Position F))
      (w : W) {x : LiveError E} {w₁ w₂ : W}
      → fetch_positions client decode a w ≡ (some (p ∷ ps), w₁)
      → deliver reread emit a now p w₁ ≡ (some x, w₂)
      → let (error, a', w') = watch client decode reread emit (now ∷ ticks) a w in
        (disconnect a' ≡ record a { state = configured }) × (w' ≡ w₂)
  unfolding watch poll handle_all disconnect set_state
  watch-refused now ticks a p ps w fetched failed = ground (arith, fetched, failed)

  pair : {a b : Adapter} {w v : W} → a ≡ b → w ≡ v → ◌≡◌ {A = Adapter × W} (a, w) (b, v)
  pair same left = rw (same, left) refl

  -- One position that is refused, or that the pipeline fails at, ends the source for good: where the connect
  -- succeeded and the first position of the first poll fails, the run leaves the adapter disconnected and
  -- the world as that position left it, however many positions and polls were still to come.
  pub run-refused :
      (now : Time) (ticks : List Time) (a connected : Adapter) (p : Position F)
      (ps : List (Position F)) (w : W) {x : LiveError E} {w₁ w₂ w₃ : W}
      → connect client "/api/server" a w ≡ ((none, connected), w₁)
      → fetch_positions client decode connected w₁ ≡ (some (p ∷ ps), w₂)
      → deliver reread emit connected now p w₂ ≡ (some x, w₃)
      → run client decode reread emit (now ∷ ticks) a w
        ≡ (record connected { state = configured }, w₃)
  unfolding run
  run-refused now ticks a connected p ps w {w₁ = w₁} opened fetched failed =
      let (off, left) = watch-refused now ticks connected p ps w₁ fetched failed in
      ap (subscribed client decode reread emit (now ∷ ticks)) opened ∙ pair off left
