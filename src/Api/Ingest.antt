-- ===== src/Api/Ingest.antt =====
-- `handleIngest` of internal/api/server.go and `ServeHTTP` of internal/ingest/http.go: a posted batch of
-- points, each of them through the pipeline.
pub mod Laws
use tide.Prelude.{
  ℕ, ◌+◌, length, String, Bool, true, false, not, if◌then◌else◌, ◌==◌, ◌<>◌, Option, none, some,
  List, [], ◌∷◌, Result, ok, err,
}
use tide.Schemas.Clock.{Time, is_zero, after}
use tide.Schemas.Runtime.{Runtime}
use tide.Schemas.Telemetry.{Telemetry, Invalid, validate}
use tide.Schemas.Events.{Event}
use tide.Pipeline
use tide.Pipeline.{Ports, Outcome, ProcessError, publish_failed, max_future_skew}
use tide.Api.Replies.{Reply, refused, answered, method_not_allowed, internal_error}

-- The JSON that is read, as raw messages of a type `R`.
pub record Decoder (R F : Type 0) : Type 0 where
  -- the field `batch` of an object, where the message is an object that has one
  pub batch : R → Option (List R)
  pub telemetry : R → Result String (Telemetry F)
  -- `Error()` of what `Validate` gives
  pub print_invalid : Invalid → String

-- What a handler takes from its surroundings, over a world `W`.
pub record Surroundings (F W : Type 0) : Type 0 where
  pub now : W → Time
  -- `NewID`, which draws from `crypto/rand`
  pub new_id : W → String × W
  pub clock : W → Pipeline.Clock
  -- `hub.Broadcast`
  pub broadcast : Event F → W → W
  -- `AppendEvent` and `AppendTelemetry` of `PG`, whose errors are ignored, where there is one
  pub append_event : Option (Event F → W → W)
  pub append_telemetry : Option (Telemetry F → W → W)

pub record Summary : Type 0 where
  pub accepted : ℕ
  pub events : ℕ

module _ {R F : Type 0} (decoder : Decoder R F) where
  -- `{"batch": [...]}` in place of the list, for a single message.
  abbrev pub unpacked : List R → List R
  unpacked (raw ∷ []) = elim (decoder.batch raw) [ none ↦ raw ∷ [] | some batch ↦ batch ]
  unpacked raws = raws

module _ {F W : Type 0} (around : Surroundings F W) where
  open around use {now, new_id, clock, broadcast, append_event, append_telemetry}

  -- `Inject`.
  unfoldable pub inject : Event F → W → W
  inject e w = let w' = broadcast e w in elim append_event [ none ↦ w' | some append ↦ append e w' ]

  unfoldable pub inject_all : List (Event F) → W → W
  unfolding inject
  inject_all [] w = w
  inject_all (e ∷ es) w = inject_all es (inject e w)

  -- An identifier for a point that has none.
  abbrev pub named : Telemetry F → W → Telemetry F × W
  named t w = let (id, w') = new_id w in if t.id == "" then (record t { id = id }, w') else (t, w)

  unfoldable pub log_point : Bool → Telemetry F → W → W
  log_point dup t w =
      if dup then w else elim append_telemetry [ none ↦ w | some append ↦ append t w ]

module _ {R F W : Type 0} ⦃r : Runtime F⦄ (decoder : Decoder R F) (around : Surroundings F W) where
  open around use {now, new_id, clock}

  -- The times of the server, where the point has none.
  abbrev pub stamped : Time → Time → Telemetry F → Telemetry F
  stamped received now t = record t {
    received_at = if is_zero t.received_at then received else t.received_at;
    processed_at = if is_zero t.processed_at then now else t.processed_at;
  }

  -- The guards before the pipeline, with what `Validate` finds.
  abbrev pub guarded : Time → Telemetry F → Option Invalid → Result (Reply Summary) (Telemetry F)
  guarded now t (some e) = err (refused 422 ("invalid telemetry: " <> decoder.print_invalid e))
  guarded now t none =
      if after t.timestamp (now + max_future_skew)
      then err (refused 422 "timestamp too far in future")
      else ok t

  abbrev pub admit_decoded :
      Time → Result String (Telemetry F) → W → Result (Reply Summary) (Telemetry F) × W
  admit_decoded received (err msg) w = (err (refused 400 ("invalid telemetry: " <> msg)), w)
  admit_decoded received (ok t) w =
      let (t', w') = named around t w in
      let point = stamped received (now w') t' in (guarded (now w') point (validate point), w')

  -- One message, up to the pipeline.
  unfoldable pub admit : Time → R → W → Result (Reply Summary) (Telemetry F) × W
  admit received raw w = admit_decoded received (decoder.telemetry raw) w

  module _ {E : Type 0} (ports : Ports F E W) where
    -- The rest of a batch: the numbers of points and events so far, and the answer.
    abbrev pub Rest : Type 0
    Rest = ℕ → ℕ → W → Reply Summary × W

    -- What the answer of the pipeline leads to, by its error.
    settled : Rest → Telemetry F → Outcome F E → Option (ProcessError F E) → Rest
    unfolding inject_all log_point
    settled rest t o (some (publish_failed evs x)) accepted emitted w =
        (refused 503 "bus unavailable, retry", inject_all around evs w)
    settled rest t o (some _) accepted emitted w = (internal_error, w)
    settled rest t o none accepted emitted w =
        rest (accepted + 1) (emitted + length o.events)
          (log_point around o.dup t (inject_all around o.events w))

    ingest_one : Rest → Result (Reply Summary) (Telemetry F) → Rest
    unfolding settled
    ingest_one rest (err reply) accepted emitted w = (reply, w)
    ingest_one rest (ok t) accepted emitted w =
        let (o, w') = Pipeline.process ports (clock w) t w in
        settled rest t o o.error accepted emitted w'

    -- The loop over the batch.
    ingest_from : Time → List R → Rest
    unfolding admit ingest_one
    ingest_from received [] accepted emitted w =
        (answered 202 (record { accepted = accepted; events = emitted }), w)
    ingest_from received (raw ∷ raws) accepted emitted w =
        let (admitted, w') = admit received raw w in
        ingest_one (ingest_from received raws) admitted accepted emitted w'

    -- `handleIngest`, with the message that the body is decoded to.
    unfoldable pub handle_ingest : String → Option R → W → Reply Summary × W
    unfolding ingest_from
    handle_ingest method body w =
        if not (method == "POST") then (method_not_allowed, w) else elim body [
          | none ↦ (refused 400 "invalid JSON", w)
          | some raw ↦ ingest_from (now w) (unpacked decoder (raw ∷ [])) 0 0 w
        ]

  -- `ServeHTTP` of the package ingest, for a function `Process` with errors `E`.
  module _ {E : Type 0} (print : E → String) (process : Telemetry F → W → Option E × W) where
    abbrev processed : Option E × W → Option (Reply ℕ) × W
    processed (none, w) = (none, w)
    processed (some e, w) = (some (refused 500 ("processing failed: " <> print e)), w)

    -- `Validate` and `Process`, with what `Validate` finds.
    abbrev serve_valid : Telemetry F → Option Invalid → W → Option (Reply ℕ) × W
    serve_valid t (some e) w =
        (some (refused 422 ("invalid telemetry: " <> decoder.print_invalid e)), w)
    serve_valid t none w = processed (process t w)

    abbrev serve_decoded : Time → Result String (Telemetry F) → W → Option (Reply ℕ) × W
    serve_decoded received (err msg) w = (some (refused 400 ("invalid telemetry: " <> msg)), w)
    serve_decoded received (ok t) w =
        let (t', w') = named around t w in
        let point = record t' { received_at = received } in serve_valid point (validate point) w'

    -- One message, and the answer where it ends the loop.
    serve_one : Time → R → W → Option (Reply ℕ) × W
    serve_one received raw w = serve_decoded received (decoder.telemetry raw) w

    serve_from : Time → List R → ℕ → W → Reply ℕ × W
    unfolding serve_one
    serve_from received [] accepted w = (answered 202 accepted, w)
    serve_from received (raw ∷ raws) accepted w =
        let (failure, w') = serve_one received raw w in
        let rest = serve_from received raws (accepted + 1) w' in
        elim failure [ some reply ↦ (reply, w') | none ↦ rest ]

    -- `values` are the messages of the body, one after the other; `none` if one of them is no JSON.
    unfoldable pub serve_http : String → Option (List R) → W → Reply ℕ × W
    unfolding serve_from
    serve_http method values w =
        if not (method == "POST") then (method_not_allowed, w) else elim values [
          | none ↦ (refused 400 "invalid JSON", w)
          | some raws ↦ serve_from (now w) (unpacked decoder raws) 0 w
        ]
