-- ===== src/Boot.antt =====
-- internal/boot/boot.go: the log of telemetry and the rules at the start.
pub mod Laws
pub mod Hot
pub mod Services
use mathlib.Core.Option.{get_or}
use tide.Prelude.{
  ℕ, suc, ◌+◌, ltb, String, Bool, true, false, ◌&&◌, if◌then◌else◌, ◌==◌, ◌<>◌, Option, none, some,
  List, [], ◌∷◌, ◌++◌, pos,
}
use tide.Schemas.Clock.{Time}
use tide.Schemas.Telemetry.{Telemetry}
use tide.Rules
use tide.Rules.{Spec, Engine, parse_spec, publish, new_engine}

-- `MemoryLog` and `pgLog` of telemetry: the points that are held in memory, and the world of the database.
module _ {F E W : Type 0} where
  unfoldable pub append_memory :
      Telemetry F → List (Telemetry F) × W → Option E × List (Telemetry F) × W
  append_memory t (held, w) = (none, held ++ (t ∷ []), w)

  -- `pgLog.Append`: the error of the database is written to the log of the process, not returned.
  unfoldable pub append_both :
      (Telemetry F → W → Option E × W)
      → Telemetry F
      → List (Telemetry F) × W
      → Option E × List (Telemetry F) × W
  append_both append_telemetry t (held, w) =
      let (_, w') = append_telemetry t w in (none, held ++ (t ∷ []), w')

  -- `logSink`.
  unfoldable pub log_sink :
      Option (Telemetry F → W → Option E × W)
      → Telemetry F
      → List (Telemetry F) × W
      → Option E × List (Telemetry F) × W
  unfolding append_memory append_both
  log_sink none = append_memory
  log_sink (some append_telemetry) = append_both append_telemetry

-- The rules of `Build`.
module _ {F : Type 0} where
  -- `DefaultSpeedingRule`, as it is decoded.
  abbrev pub default_speeding_rule : Spec F
  default_speeding_rule = record {
    id = "speeding-alert";
    version = "v1";
    trigger = record { event_type = "vehicle.speeding.started"; conditions = [] };
    action = record { emit = "incident.created"; webhook = ""; secret = "" };
    cooldown_secs = pos 60;
    max_actions_per_hour = pos 100;
  }

  -- The webhook and the secret of the environment, where a webhook is set.
  abbrev pub with_webhook : String → String → Spec F → Spec F
  with_webhook url secret s =
      if url == ""
      then s
      else record s { action = record s.action { webhook = url; secret = secret } }

  -- The engine after a publish; a rule that is refused is written to the log.
  abbrev pub engine_after : Engine F → Rules.Result (Engine F) → Engine F
  engine_after g (Rules.err e) = g
  engine_after g (Rules.ok g') = g'

  module _ (deep_equal : Spec F → Spec F → Bool) (now : Time) where
    abbrev pub published : (Spec F → Spec F) → Rules.Result (Spec F) → Engine F → Engine F
    published change (Rules.err e) g = g
    published change (Rules.ok s) g = engine_after g (publish deep_equal (change s) now g)

    -- The files in order: `none` is one that cannot be read, and one that is read is as the YAML decoder
    -- reads it.
    unfoldable pub publish_files : List (Option (Option (Spec F))) → Engine F → Engine F
    publish_files [] g = g
    publish_files (none ∷ files) g = publish_files files g
    publish_files (some raw ∷ files) g = publish_files files (published (λ s. s) (parse_spec raw) g)

    -- The engine that `Build` makes.
    unfoldable pub build_rules : String → String → List (Option (Option (Spec F))) → Engine F
    unfolding publish_files
    build_rules url secret files =
        publish_files files
          (published (with_webhook url secret) (parse_spec (some default_speeding_rule)) new_engine)
