-- ===== src/Rules/Laws.antt =====
-- The safety valves and the immutability of the rules (internal/rules/rules.go).
use tide.Prelude.{
  ltb_ℤ, String, Bool, true, ◌≡◌, ap, sym, ◌∙◌, refl, ◌⊎◌, inl, inr, Option, none, some, pos, arith,
  lookup, lookup-insert, eq_iff, Bool-cases, ◌==◌,
}
use tide.Schemas.Clock.{Time, sub, seconds}
use tide.Schemas.Runtime.{Runtime}
use tide.Schemas.Telemetry.{Telemetry}
use tide.Schemas.Events.{Event}
use tide.State.{VehicleState}
use tide.Rules.{
  Spec, Rule, Engine, Run, Dispatch, ok, accepted, publish, rule_key, cooling, consider, valves,
  vehicle_key,
}

module _ {F : Type 0} where
  accepted-ok :
      (deep_equal : Spec F → Spec F → Bool) (s : Spec F) (found : Option (Rule F)) {e e' : Engine F}
      → accepted deep_equal s found (ok e) ≡ ok e'
      → (e ≡ e') × ((old : Rule F) → found ≡ some old → deep_equal old.spec s ≡ true)
  accepted-ok deep_equal s none h = (cc, λ old f. absurd (cc f))
  accepted-ok deep_equal s (some old) h = elim (Bool-cases (deep_equal old.spec s)) [
    | inl same ↦ (cc (h, same), λ o f. cc (f, same))
    | inr other ↦ absurd (cc (h, other))
  ]

  -- A version that was published stays: after any later publish that is accepted, its key still holds a
  -- rule, whose content is the same as or deeply equal to what was published.
  pub publish-keeps :
      (deep_equal : Spec F → Spec F → Bool) (s : Spec F) (at : Time) (e e' : Engine F)
      (key : String) (old : Rule F)
      → lookup key e.rules ≡ some old
      → publish deep_equal s at e ≡ ok e'
      → (new : Rule F) × (lookup key e'.rules ≡ some new)
        × ((new.spec ≡ old.spec) ⊎ (deep_equal old.spec new.spec ≡ true))
  unfolding publish
  publish-keeps deep_equal s at e e' key old known done =
      let k = rule_key s in
      let rule : Rule F = record { spec = s; published = at } in
      let (made, same) = accepted-ok deep_equal s (lookup k e.rules) done in
      let held = ap (λ x. lookup key x.rules) (sym made) ∙ lookup-insert k key rule e.rules in
      elim (Bool-cases (k == key)) [
        | inl here ↦ (
          rule,
          held ∙ rw here refl,
          inr (same old (ap (λ z. lookup z e.rules) ((eq_iff k key).0 here) ∙ known)),
        )
        | inr there ↦ (old, held ∙ rw there known, inl refl)
      ]

module _ {F W : Type 0} ⦃r : Runtime F⦄ (dispatcher : Option (Dispatch F W)) (now : Time) where
  -- A rule that fired within its cooldown is silent at the vehicle: it emits nothing, calls no webhook
  -- and leaves no trace, whatever the event.
  pub consider_cooling :
      (t : Telemetry F) (s : VehicleState F) (spec : Spec F) (run : Run F W) (ev : Event F)
      (last : Time)
      → lookup (vehicle_key spec t) run.engine.last_fire ≡ some last
      → ltb_ℤ (pos 0) spec.cooldown_secs ≡ true
      → ltb_ℤ (sub now last) (seconds spec.cooldown_secs) ≡ true
      → consider dispatcher now t s spec run ev ≡ run
  unfolding consider valves cooling
  consider_cooling t s spec run ev last fired positive within = ground arith
