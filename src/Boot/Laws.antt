-- ===== src/Boot/Laws.antt =====
-- What the log of telemetry keeps (internal/boot/boot.go).
use mathlib.Core.List.{append_assoc, append-nil}
use tide.Prelude.{
  ◌≡◌, Option, none, some, List, [], ◌∷◌, ◌++◌, refl, inl, inr, sym, ap, ◌∙◌, Bool, true, String,
  lookup, insert, ◌==◌, Bool-cases,
}
use tide.Schemas.Telemetry.{Telemetry}
use tide.Schemas.Clock.{Time}
use tide.Rules
use tide.Rules.{Spec, Then, Rule, Engine, parse_spec, publish, new_engine}
use tide.Rules.Laws.{publish-keeps}
use tide.Boot.{
  engine_after, published, publish_files, build_rules, with_webhook, default_speeding_rule,
  log_sink, append_memory, append_both,
}

module _ {F E W : Type 0} where
  -- the points one after the other
  abbrev pub append_all :
      Option (Telemetry F → W → Option E × W)
      → List (Telemetry F)
      → List (Telemetry F) × W
      → List (Telemetry F) × W
  append_all pg [] s = s
  append_all pg (t ∷ ts) (held, w) =
      let (_, held', w') = log_sink pg t (held, w) in append_all pg ts (held', w')

  log_sink-quiet :
      (pg : Option (Telemetry F → W → Option E × W)) (t : Telemetry F) (s : List (Telemetry F) × W)
      → (log_sink pg t s).0 ≡ none
  unfolding log_sink append_memory append_both
  log_sink-quiet none t s = refl
  log_sink-quiet (some pg) t s = refl

  log_sink-held :
      (pg : Option (Telemetry F → W → Option E × W)) (t : Telemetry F) (s : List (Telemetry F) × W)
      → (log_sink pg t s).1 ≡ s.0 ++ (t ∷ [])
  unfolding log_sink append_memory append_both
  log_sink-held none t s = refl
  log_sink-held (some pg) t s = refl

  append_all-held :
      (pg : Option (Telemetry F → W → Option E × W)) (ts held : List (Telemetry F)) (w : W)
      → (append_all pg ts (held, w)).0 ≡ held ++ ts
  append_all-held pg [] held w = sym (append-nil held)
  append_all-held pg (t ∷ ts) held w =
      let (_, held', w') = log_sink pg t (held, w) in
      append_all-held pg ts held' w'
      ∙ ap (λ (l : List (Telemetry F)). l ++ ts) (log_sink-held pg t (held, w))
      ∙ append_assoc held (t ∷ []) ts

  -- No failure of the database reaches the pipeline or loses a point: whatever it answers, `Append` reports
  -- no error, and the memory holds every point of the process's life, without a bound.
  pub log_sink-keeps :
      (pg : Option (Telemetry F → W → Option E × W)) (ts : List (Telemetry F))
      (held : List (Telemetry F)) (w : W)
      → ((t : Telemetry F) (s : List (Telemetry F) × W) → (log_sink pg t s).0 ≡ none)
        × ((append_all pg ts (held, w)).0 ≡ held ++ ts)
  log_sink-keeps pg ts held w = (log_sink-quiet pg, append_all-held pg ts held w)

module _ {F : Type 0} (deep_equal : Spec F → Spec F → Bool) (now : Time) where
  -- the key holds a rule with the specification
  abbrev pub Holds : String → Spec F → Engine F → Type 0
  Holds key s g = (rule : Rule F) × (lookup key g.rules ≡ some rule) × (rule.spec ≡ s)

  engine_after-Holds :
      (key : String) (s new : Spec F) (g : Engine F) (made : Rules.Result (Engine F))
      → ((a b : Spec F) → deep_equal a b ≡ true → a ≡ b)
      → publish deep_equal new now g ≡ made
      → Holds key s g
      → Holds key s (engine_after g made)
  engine_after-Holds key s new g (Rules.err e) exact h held = held
  engine_after-Holds key s new g (Rules.ok g') exact h (rule, known, same) =
      let (rule', known', kept) = publish-keeps deep_equal new now g g' key rule known h in
      (
        rule',
        known',
        elim kept [ inl e ↦ e ∙ same | inr e ↦ sym (exact rule.spec rule'.spec e) ∙ same ],
      )

  published-Holds :
      (key : String) (s : Spec F) (g : Engine F) (parsed : Rules.Result (Spec F))
      → ((a b : Spec F) → deep_equal a b ≡ true → a ≡ b)
      → Holds key s g
      → Holds key s (published deep_equal now (λ x. x) parsed g)
  published-Holds key s g (Rules.err e) exact held = held
  published-Holds key s g (Rules.ok new) exact held =
      engine_after-Holds key s new g (publish deep_equal new now g) exact refl held

  publish_files-Holds :
      (key : String) (s : Spec F) (files : List (Option (Option (Spec F)))) (g : Engine F)
      → ((a b : Spec F) → deep_equal a b ≡ true → a ≡ b)
      → Holds key s g
      → Holds key s (publish_files deep_equal now files g)
  unfolding publish_files
  publish_files-Holds key s [] g exact held = held
  publish_files-Holds key s (none ∷ files) g exact held =
      publish_files-Holds key s files g exact held
  publish_files-Holds key s (some raw ∷ files) g exact held =
      publish_files-Holds key s files (published deep_equal now (λ x. x) (parse_spec raw) g) exact
        (published-Holds key s g (parse_spec raw) exact held)

  default_engine-Holds :
      (url secret : String)
      → Holds "speeding-alert/v1" (with_webhook url secret default_speeding_rule) (
          published deep_equal now
            (with_webhook url secret)
            (parse_spec (some default_speeding_rule))
            new_engine)
  unfolding parse_spec publish new_engine insert lookup
  default_engine-Holds url secret = elim (Bool-cases (url == "")) [
    | inl unset ↦ rw unset (record { spec = default_speeding_rule; published = now }, refl, refl)
    | inr given ↦
        let action : Then = record { emit = "incident.created"; webhook = url; secret = secret } in
        rw given (
          record { spec = record default_speeding_rule { action = action }; published = now },
          refl,
          refl,
        )
  ]

  -- The default rule is in the engine that is built, with the webhook of the environment, and no rule file
  -- can take its place, where the deep equality of the publish is that of the specifications.
  pub build_rules-default :
      (url secret : String) (files : List (Option (Option (Spec F))))
      → ((a b : Spec F) → deep_equal a b ≡ true → a ≡ b)
      → Holds "speeding-alert/v1"
          (with_webhook url secret default_speeding_rule)
          (build_rules deep_equal now url secret files)
  unfolding build_rules
  build_rules-default url secret files exact =
      publish_files-Holds "speeding-alert/v1" (with_webhook url secret default_speeding_rule) files
        (published deep_equal now (with_webhook url secret)
          (parse_spec (some default_speeding_rule)) new_engine)
        exact (default_engine-Holds url secret)
