-- ===== src/Engine/Silence.antt =====
-- Which vehicles a sweep of cmd/tide-engine/server.go takes offline.
use tide.Prelude.{
  ◌+◌, ◌*◌, ltb, String, Bool, true, false, not, ◌&&◌, ◌≡◌, ◌∙◌, refl, ap, arith, Option, none,
  some, List, [], ◌∷◌, ◌++◌, pos, if◌then◌else◌, Bool-cases, inl, inr, Assoc, Unique, wrap64,
}
use tide.Schemas.Clock.{Time, is_zero, sub, nanos}
use tide.Schemas.Runtime.{Runtime}
use tide.Schemas.Events.{Event}
use tide.State.{
  VehicleState, Presence, Transition, check_offline, silence_limit, is_offline, get_state,
}
use tide.Engine.{offline_event, sweep}
use tide.Engine.Laws.{
  Fleet, over_memory, IsKeyed, checked, checked_maybe, announced, offline_events, send_all,
  sweep-check_offline,
}

module _ {F : Type 0} (now : Time) where
  -- A vehicle that was seen, is not offline, and was last seen more than 900 seconds ago.
  abbrev pub is_silent : VehicleState F → Bool
  is_silent s =
      not (is_zero s.last_seen)
      && not (is_offline s.presence)
      && ltb (s.last_seen + 900 * nanos) now

  abbrev pub judged : VehicleState F → VehicleState F
  judged s = if is_silent s then record s { presence = Presence.offline } else s

  abbrev pub judged_maybe : Option (VehicleState F) → Option (VehicleState F)
  judged_maybe none = none
  judged_maybe (some s) = some (judged s)

  checked-judged : (s : VehicleState F) → checked now s ≡ judged s
  unfolding check_offline silence_limit wrap64 sub
  checked-judged s = ground arith

  checked_maybe-judged : (o : Option (VehicleState F)) → checked_maybe now o ≡ judged_maybe o
  checked_maybe-judged none = refl
  checked_maybe-judged (some s) = ap some (checked-judged s)

  pub check-silent :
      (s : VehicleState F)
      → is_silent s ≡ true
      → (tr : Transition) × ((check_offline s (pos 0) now).1 ≡ some tr)
  unfolding check_offline silence_limit wrap64 sub
  check-silent s h = (
    record { dimension = "presence"; before = "online"; after = "offline"; at = now },
    ground arith,
  )

  check-heard : (s : VehicleState F) → is_silent s ≡ false → (check_offline s (pos 0) now).1 ≡ none
  unfolding check_offline silence_limit wrap64 sub
  check-heard s h = ground arith

module _ {F : Type 0} ⦃r : Runtime F⦄ (now : Time) where
  -- The events of the vehicles that are silent, in the order of the store.
  abbrev pub silent_events : Assoc (VehicleState F) → List (Event F)
  silent_events [] = []
  silent_events ((id, s) ∷ entries) =
      if is_silent now s
      then offline_event now id s ∷ silent_events entries
      else silent_events entries

  offline_events-silent :
      (entries : Assoc (VehicleState F)) → offline_events now entries ≡ silent_events entries
  offline_events-silent [] = refl
  offline_events-silent ((id, s) ∷ entries) = elim (Bool-cases (is_silent now s)) [
    | inl silent ↦
        let (tr, found) = check-silent now s silent in
        ap (λ o. announced now id s o ++ offline_events now entries) found
        ∙ rw silent (ap (λ es. offline_event now id s ∷ es) (offline_events-silent entries))
    | inr heard ↦
        ap (λ o. announced now id s o ++ offline_events now entries) (check-heard now s heard)
        ∙ rw heard (offline_events-silent entries)
  ]

module _ {F E B : Type 0} ⦃r : Runtime F⦄ (publish : Event F → B → Option E × B) (now : Time) where
  -- A sweep of the memory store, whatever the bus answers: the vehicles that were last seen more than 900
  -- seconds ago, three times the default cadence of 300 seconds whatever the vehicle's own cadence is, and
  -- are not offline yet, are offline after it, and every other state is as it was; and the bus was handed
  -- one offline event for each of these vehicles, in the order of the store, and no other event.
  pub sweep_silent :
      (w : Fleet F B)
      → Unique w.store.states
      → IsKeyed w.store.states
      → let w' = sweep (over_memory publish) now w in
        ((id : String) → get_state id w'.store ≡ judged_maybe now (get_state id w.store))
        × (w'.bus ≡ send_all publish (silent_events now w.store.states) w.bus)
  sweep_silent w u k =
      let (states, bus) = sweep-check_offline publish now w u k in
      (
        λ id. states id ∙ checked_maybe-judged now (get_state id w.store),
        bus ∙ ap (λ es. send_all publish es w.bus) (offline_events-silent now w.store.states),
      )
