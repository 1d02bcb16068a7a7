-- ===== src/Database/Store/Conditions.antt =====
-- The conditions of the query for events (internal/store/pg.go).
use mathlib.Core.List.{append-nil}
use tide.Prelude.{
  ℕ, String, false, ◌==◌, eq_iff, ◌≡◌, refl, sym, subst, ◌⊎◌, inl, inr, ◌↔◌, Bool-cases, ℤ, List,
  [], ◌++◌, ok,
}
use tide.Schemas.Events.{Event}
use tide.Database.Queries.{clamped, recent_events}
use tide.Database.Store.{Driver, EventRow, event_row}
use tide.Database.Store.Server.{
  Column, vehicle_id, kind, select, column, Meets, given, conditions_of,
}

pub recent_events-select :
    (print : ℕ → String) (tenant vehicle type : String) (limit : ℤ)
    → tenant == "" ≡ false
    → recent_events print tenant vehicle type limit
      ≡ ok (select print tenant (conditions_of vehicle type) (clamped limit))
unfolding recent_events
recent_events-select print tenant vehicle type limit named = elim (Bool-cases (vehicle == "")) [
  | inl v ↦ elim (Bool-cases (type == "")) [
    | inl k ↦ rw (named, v, k) refl
    | inr k ↦ rw (named, v, k) refl
  ]
  | inr v ↦ elim (Bool-cases (type == "")) [
    | inl k ↦ rw (named, v, k) refl
    | inr k ↦ rw (named, v, k) refl
  ]
]

module _ {B : Type 0} where
  pub given-met :
      (c : Column) (v : String) (rest : List (Column × String)) (r : EventRow B)
      → Meets (given c v ++ rest) r
      → ((v ≡ "") ⊎ (column c r ≡ v)) × Meets rest r
  given-met c v rest r m = elim (Bool-cases (v == "")) [
    | inl missing ↦ (inl ((eq_iff v "").0 missing), rw missing at m)
    | inr there ↦
        let (meets, others) : (column c r ≡ v) × Meets rest r = rw there at m in (inr meets, others)
  ]

  pub met-given :
      (c : Column) (v : String) (rest : List (Column × String)) (r : EventRow B)
      → (v ≡ "") ⊎ (column c r ≡ v)
      → Meets rest r
      → Meets (given c v ++ rest) r
  met-given c v rest r h m = elim (Bool-cases (v == "")) [
    | inl missing ↦ rw missing m
    | inr there ↦ elim h [
      | inl gone ↦ absurd (cc (there, (eq_iff v "").1 gone))
      | inr meets ↦ rw there (meets, m)
    ]
  ]

module _ {F B X W : Type 0} (db : Driver F B X W) where
  pub event_row-tenant : (e : Event F) → (event_row db e).tenant_id ≡ e.tenant_id
  unfolding event_row
  event_row-tenant e = refl

module _ {B : Type 0} where
  pub Meets-iff :
      (vehicle type : String) (r : EventRow B)
      → Meets (conditions_of vehicle type) r
        ↔ (((vehicle ≡ "") ⊎ (r.vehicle_id ≡ vehicle)) × ((type ≡ "") ⊎ (r.kind ≡ type)))
  Meets-iff vehicle type r = (
    λ m.
        let (placed, rest) = given-met vehicle_id vehicle (given kind type) r m in
        let (typed, _) =
          given-met kind type [] r
            (subst (λ cs. Meets cs r) (sym (append-nil (given kind type))) rest) in
        (placed, typed),
    λ (placed, typed). met-given vehicle_id vehicle (given kind type) r placed (
        subst (λ cs. Meets cs r) (append-nil (given kind type))
          (met-given kind type [] r typed tt)),
  )
