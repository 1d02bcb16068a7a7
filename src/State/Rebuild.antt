-- ===== src/State/Rebuild.antt =====
-- `RebuildFrom` (internal/state/state.go): what the rebuilt store holds, and that arrival order is forgotten.
use mathlib.Core.List.{Permᴰ, append_assoc}
use mathlib.Core.List.Permᴰ
use mathlib.Core.List.Perm
use mathlib.Core.Path.{subst₂}
use mathlib.Core.Option.{get_or}
use tide.Prelude.{
  true, ◌≡◌, refl, ◌∙◌, ap, sym, Option, none, some, List, [], ◌∷◌, ◌++◌, arith, Bool-cases, inl,
  inr, if◌then◌else◌, ◌==◌, eq_iff, String, Assoc, lookup, lookup-insert, Unique, insert-Unique,
  foldl, subst,
}
use tide.Prelude.Sort.{IsWeakOrder, Untied, sort_by-perm}
use tide.Schemas.Clock.{Time}
use tide.Schemas.Runtime.{Runtime}
use tide.Schemas.Telemetry.{Telemetry}
use tide.State.{
  apply, zero_state, VehicleState, MemoryStore, get_state, set_state, add_to, by_vehicle, earlier,
  replay_points, rebuilt, set_all, rebuild_from,
}

lookup_absent :
    {V : Type 0} (k vid : String) (m : Assoc V)
    → (k == vid) ≡ true
    → lookup k m ≡ none
    → lookup vid m ≡ none
lookup_absent k vid m e fresh = subst (λ z. lookup z m ≡ none) ((eq_iff k vid).0 e) fresh

no_points {ℓ} : {A : Type ℓ} {y : A} {ys : List A} → Permᴰ [] (y ∷ ys) → ⊥
no_points p = cc (Perm.nil-eq ∣ p ∣₁)

module _ {F : Type 0} where
  -- The points of one vehicle, in their order in the log.
  unfoldable pub points_of : String → List (Telemetry F) → List (Telemetry F)
  points_of vid [] = []
  points_of vid (t ∷ log) = if t.vehicle_id == vid then t ∷ points_of vid log else points_of vid log

  abbrev grown : Option (List (Telemetry F)) → List (Telemetry F) → Option (List (Telemetry F))
  grown o [] = o
  grown o (t ∷ ts) = some (get_or o [] ++ (t ∷ ts))

  grown_step :
      (o : Option (List (Telemetry F))) (t : Telemetry F) (ts : List (Telemetry F))
      → grown (some (get_or o [] ++ (t ∷ []))) ts ≡ grown o (t ∷ ts)
  grown_step o t [] = refl
  grown_step o t (u ∷ ts) = ap some (append_assoc (get_or o []) (t ∷ []) (u ∷ ts))

  lookup-add_to :
      (vid : String) (m : Assoc (List (Telemetry F))) (t : Telemetry F)
      → lookup vid (add_to m t) ≡ (
          if t.vehicle_id == vid then some (get_or (lookup vid m) [] ++ (t ∷ [])) else lookup vid m)
  unfolding add_to
  lookup-add_to vid m t =
      let v = get_or (lookup t.vehicle_id m) [] ++ (t ∷ []) in
      elim (Bool-cases (t.vehicle_id == vid)) [
        | inl e ↦
            rw (lookup-insert t.vehicle_id vid v m, e)
              (ap (λ z. some (get_or (lookup z m) [] ++ (t ∷ []))) ((eq_iff t.vehicle_id vid).0 e))
        | inr e ↦ rw (lookup-insert t.vehicle_id vid v m, e)
      ]

  foldl-add_to :
      (vid : String) (log : List (Telemetry F)) (m : Assoc (List (Telemetry F)))
      → lookup vid (foldl add_to m log) ≡ grown (lookup vid m) (points_of vid log)
  unfolding points_of
  foldl-add_to vid [] m = refl
  foldl-add_to vid (t ∷ log) m =
      rw (foldl-add_to vid log (add_to m t), lookup-add_to vid m t)
        elim (Bool-cases (t.vehicle_id == vid)) [
          | inl e ↦ rw e (grown_step (lookup vid m) t (points_of vid log))
          | inr e ↦ rw e
        ]

  foldl-add_to-Unique :
      (log : List (Telemetry F)) (m : Assoc (List (Telemetry F)))
      → Unique m
      → Unique (foldl add_to m log)
  unfolding add_to
  foldl-add_to-Unique [] m u = u
  foldl-add_to-Unique (t ∷ log) m u =
      foldl-add_to-Unique log (add_to m t) (insert-Unique t.vehicle_id _ m u)

  points_of-perm_cons :
      (vid : String) (a : Telemetry F) (xs ys : List (Telemetry F))
      → Permᴰ (points_of vid xs) (points_of vid ys)
      → Permᴰ (points_of vid (a ∷ xs)) (points_of vid (a ∷ ys))
  unfolding points_of
  points_of-perm_cons vid a xs ys p = elim (Bool-cases (a.vehicle_id == vid)) [
    | inl e ↦ rw e (Permᴰ.cons refl p)
    | inr e ↦ rw e p
  ]

  points_of-perm_swap :
      (vid : String) (a b : Telemetry F) (xs : List (Telemetry F))
      → Permᴰ (points_of vid (a ∷ b ∷ xs)) (points_of vid (b ∷ a ∷ xs))
  unfolding points_of
  points_of-perm_swap vid a b xs =
      let rest = Permᴰ.refl (points_of vid xs) in
      elim (Bool-cases (a.vehicle_id == vid)) [
        | inl e ↦ elim (Bool-cases (b.vehicle_id == vid)) [
          | inl f ↦ rw (e, f) (Permᴰ.swap refl refl)
          | inr f ↦ rw (e, f) (Permᴰ.cons refl rest)
        ]
        | inr e ↦ elim (Bool-cases (b.vehicle_id == vid)) [
          | inl f ↦ rw (e, f) (Permᴰ.cons refl rest)
          | inr f ↦ rw (e, f) rest
        ]
      ]

  points_of-perm :
      (vid : String) {xs ys : List (Telemetry F)}
      → Permᴰ xs ys
      → Permᴰ (points_of vid xs) (points_of vid ys)
  points_of-perm vid Permᴰ.nil = Permᴰ.refl (points_of vid [])
  points_of-perm vid (Permᴰ.cons {a = a} {l₁ = xs} {l₂ = ys} e p) =
      subst (λ z. Permᴰ (points_of vid (a ∷ xs)) (points_of vid (z ∷ ys))) e
        (points_of-perm_cons vid a xs ys (points_of-perm vid p))
  points_of-perm vid (Permᴰ.swap {a = a} {b = b} {l = l} e f) =
      subst₂ (λ x y. Permᴰ (points_of vid (a ∷ b ∷ l)) (points_of vid (x ∷ y ∷ l))) f e
        (points_of-perm_swap vid a b l)
  points_of-perm vid (Permᴰ.trans p q) = Permᴰ.trans (points_of-perm vid p) (points_of-perm vid q)

  earlier-IsWeakOrder : IsWeakOrder (earlier {F = F})
  earlier-IsWeakOrder = record { asym = λ a b h. ground arith; cotrans = λ a p b h. ground arith }

module _ {F : Type 0} ⦃r : Runtime F⦄ where
  -- The rebuilt belief of a vehicle with these points, or the old one where there is none.
  pub belief :
      Time → String → List (Telemetry F) → Option (VehicleState F) → Option (VehicleState F)
  belief now vid [] old = old
  belief now vid (t ∷ ts) old = some (rebuilt now vid (t ∷ ts))

  abbrev group_belief :
      Time
      → String
      → Option (List (Telemetry F))
      → Option (VehicleState F)
      → Option (VehicleState F)
  group_belief now vid none old = old
  group_belief now vid (some points) old = some (rebuilt now vid points)

  get_state-set_state :
      (vid : String) (v : VehicleState F) (store : MemoryStore F)
      → get_state vid (set_state v store)
        ≡ (if v.vehicle_id == vid then some v else get_state vid store)
  unfolding get_state set_state
  get_state-set_state vid v store = lookup-insert v.vehicle_id vid v store.states

  set_all-lookup :
      (now : Time) (vid : String) (groups : Assoc (List (Telemetry F))) (store : MemoryStore F)
      → Unique groups
      → get_state vid (set_all now groups store)
        ≡ group_belief now vid (lookup vid groups) (get_state vid store)
  unfolding set_all lookup
  set_all-lookup now vid [] store u = refl
  set_all-lookup now vid ((k, points) ∷ groups) store (fresh, u) =
      let new = rebuilt now k points in
      elim (Bool-cases (k == vid)) [
        | inl e ↦
            rw
              (
                set_all-lookup now vid groups (set_state new store) u,
                lookup_absent k vid groups e fresh,
                get_state-set_state vid new store,
                e,
              )
              (ap (λ z. some (rebuilt now z points)) ((eq_iff k vid).0 e))
        | inr e ↦ rw (
          set_all-lookup now vid groups (set_state new store) u,
          get_state-set_state vid new store,
          e,
        )
      ]

  group_belief-grown :
      (now : Time) (vid : String) (points : List (Telemetry F)) (old : Option (VehicleState F))
      → group_belief now vid (grown none points) old ≡ belief now vid points old
  unfolding belief
  group_belief-grown now vid [] old = refl
  group_belief-grown now vid (t ∷ ts) old = refl

  -- After a rebuild the store holds for each vehicle of the log the state that its own points give in
  -- event-time order, and of every other vehicle what it held before.
  rebuild_from_lem :
      (now : Time) (store : MemoryStore F) (log : List (Telemetry F)) (vid : String)
      → get_state vid (rebuild_from now store log)
        ≡ belief now vid (points_of vid log) (get_state vid store)
  unfolding rebuild_from lookup belief
  rebuild_from_lem now store log vid =
      set_all-lookup now vid (by_vehicle log) store (foldl-add_to-Unique log [] tt)
      ∙ ap (λ g. group_belief now vid g (get_state vid store)) (foldl-add_to vid log [])
      ∙ group_belief-grown now vid (points_of vid log) (get_state vid store)

  belief-perm :
      (now : Time) (vid : String) {xs ys : List (Telemetry F)} (old : Option (VehicleState F))
      → Permᴰ xs ys
      → Untied earlier xs
      → belief now vid xs old ≡ belief now vid ys old
  unfolding belief replay_points
  belief-perm now vid {xs = []} {ys = []} old p h = refl
  belief-perm now vid {xs = []} {ys = y ∷ ys} old p h = absurd (no_points p)
  belief-perm now vid {xs = x ∷ xs} {ys = []} old p h = absurd (no_points (Permᴰ.symm p))
  belief-perm now vid {xs = x ∷ xs} {ys = y ∷ ys} old p h =
      ap
        (λ sorted.
          some
            (record (foldl (λ cur t. (apply cur t now).0) zero_state sorted) { vehicle_id = vid }))
        (sort_by-perm earlier earlier-IsWeakOrder p h)

  -- A rebuild forgets the order of arrival: of two logs with the same points in any order, of which no
  -- two of one vehicle have the same event time, each vehicle gets the same state.
  pub rebuild_from-perm :
      (now : Time) (store : MemoryStore F) {log log' : List (Telemetry F)} (vid : String)
      → Permᴰ log log'
      → Untied earlier (points_of vid log)
      → get_state vid (rebuild_from now store log) ≡ get_state vid (rebuild_from now store log')
  rebuild_from-perm now store {log = log} {log' = log'} vid p h =
      rebuild_from_lem now store log vid
      ∙ belief-perm now vid (get_state vid store) (points_of-perm vid p) h
      ∙ sym (rebuild_from_lem now store log' vid)
