-- ===== src/Engine/Again.antt =====
-- A second sweep of cmd/tide-engine/server.go.
use tide.Prelude.{
  pos, String, ◌≡◌, refl, arith, Option, none, some, Result, ok, err, List, [], ◌∷◌, Assoc, insert,
  Unique, insert-Unique,
}
use tide.Schemas.Clock.{Time}
use tide.Schemas.Runtime.{Runtime}
use tide.Schemas.Events.{Event}
use tide.State.{
  VehicleState, MemoryStore, Transition, check_offline, get_state, set_state, list_ids,
}
use tide.Engine.{sweep, sweep_ids, taken_offline, swept}
use tide.Engine.Laws.{Fleet, over_memory, IsKeyed}

abbrev pub IsProper : {F : Type 0} → MemoryStore F → Type 0
IsProper store = Unique store.states × IsKeyed store.states

insert-IsKeyed :
    {F : Type 0} (v : VehicleState F) (m : Assoc (VehicleState F))
    → IsKeyed m
    → IsKeyed (insert v.vehicle_id v m)
unfolding insert
insert-IsKeyed v [] h = (refl, tt)
insert-IsKeyed v ((id, s) ∷ m) (named, k) = ground (arith, insert-IsKeyed v m k)

pub set_state-IsProper :
    {F : Type 0} (v : VehicleState F) (store : MemoryStore F)
    → IsProper store
    → IsProper (set_state v store)
unfolding set_state
set_state-IsProper v store (u, k) =
    (insert-Unique v.vehicle_id v store.states u, insert-IsKeyed v store.states k)

module _ {F : Type 0} (now : Time) where
  abbrev IsQuiet : Option (VehicleState F) → Type 0
  IsQuiet none = Unit
  IsQuiet (some t) = (check_offline t (pos 0) now).1 ≡ none

module _ {F E B : Type 0} ⦃r : Runtime F⦄ (publish : Event F → B → Option E × B) (now : Time) where
  swept-IsProper :
      (id : String) (answer : Result E (Option (VehicleState F))) (w : Fleet F B)
      → IsProper w.store
      → IsProper (swept (over_memory publish) now id answer w).store
  swept-IsProper id (err e) w h = h
  swept-IsProper id (ok none) w h = h
  swept-IsProper id (ok (some s)) w h = by_change (check_offline s (pos 0) now)
    where
      by_change :
          (c : VehicleState F × Option Transition)
          → IsProper (taken_offline (over_memory publish) now id s c w).store
      by_change (next, none) = h
      by_change (next, some _) = set_state-IsProper next w.store h

  sweep_ids-IsProper :
      (ids : List String) (w : Fleet F B)
      → IsProper w.store
      → IsProper (sweep_ids (over_memory publish) now ids w).store
  unfolding sweep_ids
  sweep_ids-IsProper [] w h = h
  sweep_ids-IsProper (id ∷ ids) w h =
      let answer : Result E (Option (VehicleState F)) = ok (get_state id w.store) in
      sweep_ids-IsProper ids (swept (over_memory publish) now id answer w)
        (swept-IsProper id answer w h)

  pub sweep-IsProper :
      (w : Fleet F B) → IsProper w.store → IsProper (sweep (over_memory publish) now w).store
  unfolding sweep
  sweep-IsProper w h = sweep_ids-IsProper (list_ids w.store) w h
