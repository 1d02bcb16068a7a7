-- ===== src/Engine/Laws.antt =====
-- What a sweep of cmd/tide-engine/server.go does to a memory store.
use tide.Prelude.{
  String, ◌≡◌, ◌∙◌, refl, sym, ap, subst, arith, Option, none, some, List, [], ◌∷◌, ◌++◌, map, pos,
  ok, if◌then◌else◌, ◌==◌, eq_iff, eq_refl, Bool-cases, inl, inr, Assoc, lookup, lookup-insert,
  Unique,
}
use tide.Schemas.Clock.{Time}
use tide.Schemas.Runtime.{Runtime}
use tide.Schemas.Events.{Event}
use tide.State.{
  VehicleState, MemoryStore, Transition, check_offline, get_state, set_state, list_ids,
}
use tide.Engine.{Bundle, offline_event, sweep, sweep_ids, taken_offline, swept}

-- The memory store with any bus: errors `E` over a world `B`.
pub record Fleet (F B : Type 0) : Type 0 where
  pub store : MemoryStore F
  pub bus : B

module _ {F E B : Type 0} (publish : Event F → B → Option E × B) where
  abbrev pub over_memory : Bundle F E (Fleet F B)
  over_memory = record {
    list_ids = some (λ w. (ok (list_ids w.store), w));
    get = λ id w. (ok (get_state id w.store), w);
    set = λ s w. (none, record w { store = set_state s w.store });
    publish = λ e w. let (failure, bus) = publish e w.bus in (failure, record w { bus = bus });
  }

module _ {F E B : Type 0} (publish : Event F → B → Option E × B) where
  -- The events one after the other, whatever the bus answers.
  abbrev pub send_all : List (Event F) → B → B
  send_all [] bus = bus
  send_all (e ∷ es) bus = let (_, bus') = publish e bus in send_all es bus'

  send_all-append :
      (ds es : List (Event F)) (bus : B) → send_all (ds ++ es) bus ≡ send_all es (send_all ds bus)
  send_all-append [] es bus = refl
  send_all-append (d ∷ ds) es bus = send_all-append ds es (publish d bus).1

module _ {F : Type 0} (now : Time) where
  -- The state after the check of the sweep.
  abbrev pub checked : VehicleState F → VehicleState F
  checked s = (check_offline s (pos 0) now).0

  abbrev pub checked_maybe : Option (VehicleState F) → Option (VehicleState F)
  checked_maybe none = none
  checked_maybe (some s) = some (checked s)

  check-vehicle_id : (s : VehicleState F) → (checked s).vehicle_id ≡ s.vehicle_id
  unfolding check_offline
  check-vehicle_id s = ground arith

  pub check-quiet : (s : VehicleState F) → (check_offline s (pos 0) now).1 ≡ none → checked s ≡ s
  unfolding check_offline
  check-quiet s h = ground arith

  pub check-again : (s : VehicleState F) → (check_offline (checked s) (pos 0) now).1 ≡ none
  unfolding check_offline
  check-again s = ground arith

module _ {F : Type 0} ⦃r : Runtime F⦄ (now : Time) where
  abbrev pub announced : String → VehicleState F → Option Transition → List (Event F)
  announced id s none = []
  announced id s (some _) = offline_event now id s ∷ []

  -- The events of the vehicles that the check takes offline, in the order of the store.
  abbrev pub offline_events : Assoc (VehicleState F) → List (Event F)
  offline_events [] = []
  offline_events ((id, s) ∷ entries) =
      announced id s (check_offline s (pos 0) now).1 ++ offline_events entries

-- Every state stands under the identifier of its vehicle.
abbrev pub IsKeyed : {F : Type 0} → Assoc (VehicleState F) → Type 0
IsKeyed [] = Unit
IsKeyed ((id, s) ∷ entries) = (s.vehicle_id ≡ id) × IsKeyed entries

module _ {F E B : Type 0} ⦃r : Runtime F⦄ (publish : Event F → B → Option E × B) (now : Time) where
  -- What one vehicle comes to, by what the check gives.
  abbrev Settles :
      String → VehicleState F → VehicleState F × Option Transition → Fleet F B → Fleet F B → Type 0
  Settles id s (next, tr) w w' =
      ((j : String)
        → lookup j w'.store.states ≡ (if id == j then some next else lookup j w.store.states))
      × (w'.bus ≡ send_all publish (announced now id s tr) w.bus)

  taken_offline-Settles :
      (id : String) (s next : VehicleState F) (tr : Option Transition) (w : Fleet F B)
      → lookup id w.store.states ≡ some s
      → next.vehicle_id ≡ id
      → (tr ≡ none → next ≡ s)
      → Settles id s (next, tr) w (taken_offline (over_memory publish) now id s (next, tr) w)
  unfolding set_state
  taken_offline-Settles id s next none w held named quiet =
      (λ j. ground (arith, held, quiet refl, eq_iff id j), refl)
  taken_offline-Settles id s next (some t) w held named quiet = (
    λ j.
        lookup-insert next.vehicle_id j next w.store.states
        ∙ ap (λ k. if k == j then some next else lookup j w.store.states) named,
    refl,
  )

  -- The entries that are still to be swept are those of the store.
  abbrev Agrees : Assoc (VehicleState F) → Fleet F B → Type 0
  Agrees entries w =
      (j : String) (t : VehicleState F)
      → lookup j entries ≡ some t
      → lookup j w.store.states ≡ some t

  abbrev over : Option (VehicleState F) → Option (VehicleState F) → Option (VehicleState F)
  over none kept = kept
  over (some s) kept = some (checked now s)

  abbrev Swept : Assoc (VehicleState F) → Fleet F B → Fleet F B → Type 0
  Swept entries w w' =
      ((j : String) → lookup j w'.store.states ≡ over (lookup j entries) (lookup j w.store.states))
      × (w'.bus ≡ send_all publish (offline_events now entries) w.bus)

  Agrees-rest :
      (id : String) (s next : VehicleState F) (entries : Assoc (VehicleState F)) (w w' : Fleet F B)
      → lookup id entries ≡ none
      → Agrees ((id, s) ∷ entries) w
      → ((j : String)
          → lookup j w'.store.states ≡ (if id == j then some next else lookup j w.store.states))
      → Agrees entries w'
  unfolding lookup
  Agrees-rest id s next entries w w' fresh agrees step j t found =
      ground (arith, fresh, agrees j t, step j, found, eq_iff id j)

  over-step :
      (id j : String) (s : VehicleState F) (entries : Assoc (VehicleState F))
      (kept : Option (VehicleState F))
      → lookup id entries ≡ none
      → over (lookup j entries) (if id == j then some (checked now s) else kept)
        ≡ over (lookup j ((id, s) ∷ entries)) kept
  unfolding lookup
  over-step id j s entries kept fresh = elim (Bool-cases (id == j)) [
    | inl same ↦
        let gone = subst (λ k. lookup k entries ≡ none) ((eq_iff id j).0 same) fresh in
        rw (same, gone) refl
    | inr other ↦ rw other refl
  ]

  sweep_ids-Swept :
      (entries : Assoc (VehicleState F)) (w : Fleet F B)
      → Unique entries
      → IsKeyed entries
      → Agrees entries w
      → Swept entries w (sweep_ids (over_memory publish) now (map (λ e. e.0) entries) w)
  unfolding sweep_ids lookup get_state
  sweep_ids-Swept [] w u k agrees = (λ j. refl, refl)
  sweep_ids-Swept ((id, s) ∷ entries) w (fresh, u) (named, k) agrees =
      let b = over_memory {E = E} publish in
      let ids = map (λ (e : String × VehicleState F). e.0) entries in
      let held = agrees id s (rw (eq_refl id) refl) in
      let (next, tr) = check_offline s (pos 0) now in
      let w₁ = taken_offline b now id s (next, tr) w in
      let (step, sent) =
        taken_offline-Settles id s next tr w held (check-vehicle_id now s ∙ named)
          (check-quiet now s) in
      let (states, bus) =
        sweep_ids-Swept entries w₁ u k (Agrees-rest id s next entries w w₁ fresh agrees step) in
      subst (λ o. Swept ((id, s) ∷ entries) w (sweep_ids b now ids (swept b now id (ok o) w)))
        (sym held)
        (
          λ j.
              states j
              ∙ ap (over (lookup j entries)) (step j)
              ∙ over-step id j s entries (lookup j w.store.states) fresh,
          bus
              ∙ ap (send_all publish (offline_events now entries)) sent
              ∙ sym (
                  send_all-append publish (announced now id s tr) (offline_events now entries)
                    w.bus),
        )

  over_self : (o : Option (VehicleState F)) → over o o ≡ checked_maybe now o
  over_self none = refl
  over_self (some s) = refl

  -- the sweep, by what `check_offline` gives
  pub sweep-check_offline :
      (w : Fleet F B)
      → Unique w.store.states
      → IsKeyed w.store.states
      → let w' = sweep (over_memory publish) now w in
        ((id : String) → get_state id w'.store ≡ checked_maybe now (get_state id w.store))
        × (w'.bus ≡ send_all publish (offline_events now w.store.states) w.bus)
  unfolding sweep get_state list_ids
  sweep-check_offline w u k =
      let (states, bus) = sweep_ids-Swept w.store.states w u k (λ j t found. found) in
      (λ id. states id ∙ over_self (lookup id w.store.states), bus)
