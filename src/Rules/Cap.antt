-- ===== src/Rules/Cap.antt =====
-- The cap on the actions of a rule at a vehicle in an hour (internal/rules/rules.go).
use mathlib.Core.Option.{get_or}
use tide.Prelude.{
  ℕ, ◌+◌, ◌≤◌, leb_ℤ, String, true, false, ◌≡◌, sym, subst, inl, inr, Option, pos, List, [], ◌∷◌,
  ◌++◌, All, arith, foldl, lookup, insert, lookup-insert, eq_iff, length, Bool-cases, ◌==◌, Assoc,
}
use tide.Schemas.Clock.{Time}
use tide.Schemas.Runtime.{Runtime}
use tide.Schemas.Telemetry.{Telemetry}
use tide.Schemas.Events.{Event}
use tide.State.{VehicleState}
use tide.Rules.{
  Spec, Rule, Engine, Run, Match, Dispatch, recent, cooling, check_conditions, fires, consider,
  evaluate, valves, fire, vehicle_key, emit_events, rule_event,
}
use tide.Rules.Hour.{
  in_hour, acted, emitted, acted_same, acted_other, emitted_few, emitted_other, Fit, Fit-recent,
  Fit-now, Fit-later,
}

-- In the hour before `now` no rule, in one version and at one vehicle, has acted more than `most` times,
-- and the log has these times.
abbrev pub IsCapped : {F : Type 0} → Time → ℕ → Engine F → Type 0
IsCapped now most e =
    (key : String)
    → (in_hour now (acted key e.triggers) ≡ in_hour now (get_or (lookup key e.fire_log) []))
      × (length (in_hour now (acted key e.triggers)) ≤ most)

module _ {F W : Type 0} ⦃r : Runtime F⦄ (dispatcher : Option (Dispatch F W)) (now : Time) (most : ℕ)
    (before : String → ℕ) where
  abbrev IsFit : String → Run F W → Type 0
  IsFit key run =
      Fit now most (before key) (emitted key run.out) (acted key run.engine.triggers)
        (get_or (lookup key run.engine.fire_log) [])

  abbrev AreFit : Run F W → Type 0
  AreFit run = (key : String) → IsFit key run

  abbrev Fits : Spec F → Type 0
  Fits spec = leb_ℤ spec.max_actions_per_hour (pos most) ≡ true

  valves-own :
      (spec : Spec F) (t : Telemetry F) (ev : Event F) (m : Match F) (run : Run F W) (key : String)
      → Fits spec
      → cooling now spec.cooldown_secs (lookup (vehicle_key spec t) run.engine.last_fire) ≡ false
      → vehicle_key spec t == key ≡ true
      → IsFit key run
      → IsFit key (valves dispatcher now spec t ev m run)
  unfolding valves fire rule_event
  valves-own spec t ev m run key fits ready same c =
      let vk = vehicle_key spec t in
      let logs = run.engine.fire_log in
      let log = recent now (fires vk run.engine) in
      let done = acted key run.engine.triggers in
      let sent = emit_events spec (rule_event spec t ev m.matched) in
      let fit =
        subst
          (λ k. Fit now most (before key) (emitted key run.out) done (get_or (lookup k logs) []))
          (sym ((eq_iff vk key).0 same)) c in
      elim (Bool-cases (leb_ℤ spec.max_actions_per_hour (pos (length log)))) [
        | inl full ↦
            rw (ready, full, lookup-insert vk key log logs, same)
              (Fit-recent now most (before key) (emitted key run.out) done (fires vk run.engine)
                fit)
        | inr free ↦
            rw (ready, free, lookup-insert vk key (log ++ (now ∷ [])) (insert vk log logs), same)
              (subst
                (λ times.
                  Fit now most (before key) (emitted key (run.out ++ sent)) times
                    (log ++ (now ∷ [])))
                (sym (acted_same key run.engine.triggers _ same))
                (Fit-now now most (before key) (emitted key run.out) (emitted key (run.out ++ sent))
                  done (fires vk run.engine) spec.max_actions_per_hour fit free fits
                  (emitted_few key spec run.out (rule_event spec t ev m.matched))))
      ]

  valves-other :
      (spec : Spec F) (t : Telemetry F) (ev : Event F) (m : Match F) (run : Run F W) (key : String)
      → cooling now spec.cooldown_secs (lookup (vehicle_key spec t) run.engine.last_fire) ≡ false
      → vehicle_key spec t == key ≡ false
      → IsFit key run
      → IsFit key (valves dispatcher now spec t ev m run)
  unfolding valves fire rule_event
  valves-other spec t ev m run key ready apart c =
      let vk = vehicle_key spec t in
      let logs = run.engine.fire_log in
      let log = recent now (fires vk run.engine) in
      let held = get_or (lookup key logs) [] in
      let sent = emit_events spec (rule_event spec t ev m.matched) in
      elim (Bool-cases (leb_ℤ spec.max_actions_per_hour (pos (length log)))) [
        | inl full ↦ rw (ready, full, lookup-insert vk key log logs, apart) c
        | inr free ↦
            rw
              (
                ready,
                free,
                lookup-insert vk key (log ++ (now ∷ [])) (insert vk log logs),
                apart,
                lookup-insert vk key log logs,
                apart,
              )
              (subst (λ times. Fit now most (before key) (emitted key (run.out ++ sent)) times held)
                (sym (acted_other key run.engine.triggers _ apart))
                (subst (λ n. Fit now most (before key) n (acted key run.engine.triggers) held)
                  (sym (emitted_other key spec run.out (rule_event spec t ev m.matched) apart)) c))
      ]

  valves-AreFit :
      (spec : Spec F) (t : Telemetry F) (ev : Event F) (m : Match F) (run : Run F W)
      → Fits spec
      → AreFit run
      → AreFit (valves dispatcher now spec t ev m run)
  unfolding valves
  valves-AreFit spec t ev m run fits c key =
      let vk = vehicle_key spec t in
      elim (Bool-cases (cooling now spec.cooldown_secs (lookup vk run.engine.last_fire))) [
        | inl cool ↦ rw cool (c key)
        | inr ready ↦ elim (Bool-cases (vk == key)) [
          | inl same ↦ valves-own spec t ev m run key fits ready same (c key)
          | inr apart ↦ valves-other spec t ev m run key ready apart (c key)
        ]
      ]

  consider-AreFit :
      (t : Telemetry F) (s : VehicleState F) (spec : Spec F) (run : Run F W) (ev : Event F)
      → Fits spec
      → AreFit run
      → AreFit (consider dispatcher now t s spec run ev)
  unfolding consider
  consider-AreFit t s spec run ev fits c key =
      let m = check_conditions t s ev spec in
      ground (arith, valves-AreFit spec t ev m run fits c key, c key)

  events-AreFit :
      (t : Telemetry F) (s : VehicleState F) (spec : Spec F) (evs : List (Event F)) (run : Run F W)
      → Fits spec
      → AreFit run
      → AreFit (foldl (consider dispatcher now t s spec) run evs)
  events-AreFit t s spec [] run fits c = c
  events-AreFit t s spec (ev ∷ evs) run fits c =
      events-AreFit t s spec evs (consider dispatcher now t s spec run ev) fits
        (consider-AreFit t s spec run ev fits c)

  rules-AreFit :
      (t : Telemetry F) (s : VehicleState F) (evs : List (Event F)) (rules : Assoc (Rule F))
      (run : Run F W)
      → All (λ entry. Fits entry.1.spec) rules
      → AreFit run
      → AreFit (
          foldl
            (λ (run' : Run F W) (entry : String × Rule F).
              foldl (consider dispatcher now t s entry.1.spec) run' evs)
            run
            rules)
  rules-AreFit t s evs [] run fit c = c
  rules-AreFit t s evs ((k, rule) ∷ rules) run (fits, fit) c =
      rules-AreFit t s evs rules (foldl (consider dispatcher now t s rule.spec) run evs) fit
        (events-AreFit t s rule.spec evs run fits c)

module _ {F W : Type 0} ⦃r : Runtime F⦄ (dispatcher : Option (Dispatch F W)) (now : Time)
    (most : ℕ) where
  -- The hourly cap: where no rule allows more than `most` actions per hour, and in the hour before an
  -- earlier call no rule, in one version and at one vehicle, has acted more often than that by the record
  -- of triggers, whose times the fire log has, then both hold again after an evaluation at the same or a
  -- later time, whatever the events, the conditions and the dispatcher; and what a rule emits for a
  -- vehicle in this evaluation is, with what it has done there in the hour before, no more than `most`.
  -- A rule, a version and a vehicle are told apart by their key, the three joined by slashes.
  pub evaluate-IsCapped :
      (earlier : Time) (t : Telemetry F) (s : VehicleState F) (evs : List (Event F)) (e : Engine F)
      (w : W)
      → All (λ entry. leb_ℤ entry.1.spec.max_actions_per_hour (pos most) ≡ true) e.rules
      → earlier ≤ now
      → IsCapped earlier most e
      → let run = evaluate dispatcher now t s evs e w in
        IsCapped now most run.engine
        × ((key : String)
            → length (in_hour now (acted key e.triggers)) + emitted key run.out ≤ most)
  unfolding evaluate
  evaluate-IsCapped earlier t s evs e w fit later c =
      let before = λ (key : String). length (in_hour now (acted key e.triggers)) in
      let all =
        rules-AreFit dispatcher now most before t s evs e.rules
          (record { engine = e; world = w; out = [] }) fit
          (λ key.
            Fit-later now most earlier (acted key e.triggers) (get_or (lookup key e.fire_log) [])
              later (c key).0 (c key).1) in
      (
        λ key. ((all key).0, (all key).1),
        λ key. let (_, few, sent) = all key in omega (arith, few, sent),
      )
