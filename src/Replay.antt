-- ===== src/Replay.antt =====
-- internal/replay/replay.go: recorded points through the pipeline in event-time order.
pub mod Laws
use tide.Prelude.{
  ℕ, ◌+◌, String, Bool, if◌then◌else◌, eqb, Option, none, some, List, [], ◌∷◌, ◌++◌, length, map,
}
use tide.Prelude.Sort.{sort_by}
use tide.Schemas.Clock.{before}
use tide.Schemas.Runtime.{Runtime}
use tide.Schemas.Telemetry.{Telemetry}
use tide.Schemas.Events.{Event}
use tide.Pipeline
use tide.Pipeline.{Ports, Clock, Outcome, ProcessError, process, ok, err}

-- `Result`
pub record Result (F : Type 0) : Type 0 where
  pub events : List (Event F)
  pub points : ℕ

-- An error names the point that could not be processed.
abbrev pub Failure : Type 0 → Type 0 → Type 0
Failure F E = String × ProcessError F E

module _ {F : Type 0} ⦃r : Runtime F⦄ where
  -- By event time, and by identifier where the event times are equal.
  abbrev pub sooner : Telemetry F → Telemetry F → Bool
  sooner t u =
      if eqb t.timestamp u.timestamp then r.str_lt t.id u.id else before t.timestamp u.timestamp

module _ {F : Type 0} where
  unfoldable pub event_types : List (Event F) → List String
  event_types evs = map (λ e. e.kind) evs

module _ {F E : Type 0} where
  abbrev extended :
      List (Event F)
      → Pipeline.Result (Failure F E) (List (Event F))
      → Pipeline.Result (Failure F E) (List (Event F))
  extended evs (ok more) = ok (evs ++ more)
  extended evs (err x) = err x

module _ {F E W : Type 0} ⦃r : Runtime F⦄ (p : Ports F E W) (clocks : ℕ → Clock) where
  -- The loop from the point with the index `i` on, which reads the clock `clocks i`.
  unfoldable pub replay_from :
      ℕ → List (Telemetry F) → W → Pipeline.Result (Failure F E) (List (Event F))
  replay_from i [] w = ok []
  replay_from i (t ∷ ts) w =
      let (done, w') = process p (clocks i) t w in
      let rest = replay_from (i + 1) ts w' in
      elim done.error [ some x ↦ err (t.id, x) | none ↦ extended done.events rest ]

  -- The points in the order in which they are replayed.
  unfoldable pub run_ordered : List (Telemetry F) → W → Pipeline.Result (Failure F E) (Result F)
  unfolding replay_from
  run_ordered ordered built = elim (replay_from 0 ordered built) [
    | err x ↦ err x
    | ok evs ↦ ok (record { events = evs; points = length ordered })
  ]

  -- `Run`, on the world that `build` makes. `sort.Slice` is an insertion sort here: of two points with the
  -- same event time and identifier, which Go may order either way, the first one comes first.
  unfoldable pub run : List (Telemetry F) → W → Pipeline.Result (Failure F E) (Result F)
  unfolding run_ordered
  run points built = run_ordered (sort_by sooner points) built

module _ {F E W V : Type 0} ⦃r : Runtime F⦄ (clocks : ℕ → Clock) where
  -- `Compare`: the same points through two pipelines.
  unfoldable pub compare :
      List (Telemetry F)
      → Ports F E W
      → W
      → Ports F E V
      → V
      → Pipeline.Result (Failure F E) (List String × List String)
  compare points p a q b = elim (run p clocks points a) [
    | err x ↦ err x
    | ok ra ↦ elim (run q clocks points b) [
      | err x ↦ err x
      | ok rb ↦ ok (event_types ra.events, event_types rb.events)
    ]
  ]
