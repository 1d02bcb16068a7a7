-- ===== src/Api/Events/Laws.antt =====
-- What the event query gives (internal/api/server.go).
use mathlib.Core.List.{Memᴰ}
use mathlib.Core.List.Memᴰ.{head, tail, cases_cons, not-nil}
use tide.Prelude.{
  ℕ, ap, ◌≡◌, ◌↔◌, ◌⊎◌, ◌==◌, inl, inr, eq_iff, arith, true, Bool-cases, none, some, List, [], ◌∷◌,
}
use tide.Schemas.Events.{Event}
use tide.EventBus.{MemoryBus}
use tide.Api.Replies.{Reply, refused, answered}
use tide.Api.Events.{Query, matches, matching, handle_events}

module _ {F : Type 0} where
  -- an event of the tenant, and of the vehicle and the type where they are given
  abbrev pub Asked : Query → Event F → Type 0
  Asked q e =
      (e.tenant_id ≡ q.tenant)
      × ((q.vehicle ≡ "") ⊎ (e.vehicle_id ≡ q.vehicle))
      × ((q.kind ≡ "") ⊎ (e.kind ≡ q.kind))

  matches_iff : (q : Query) (e : Event F) → (matches q e ≡ true) ↔ Asked q e
  matches_iff q e = (
    (λ h. ground (
      arith,
      h,
      eq_iff e.tenant_id q.tenant,
      eq_iff q.vehicle "",
      eq_iff e.vehicle_id q.vehicle,
      eq_iff q.kind "",
      eq_iff e.kind q.kind,
    )),
    (λ h. ground (
      arith,
      h,
      eq_iff e.tenant_id q.tenant,
      eq_iff q.vehicle "",
      eq_iff e.vehicle_id q.vehicle,
      eq_iff q.kind "",
      eq_iff e.kind q.kind,
    )),
  )

  -- from an element of the list that is returned
  mem_matching :
      (q : Query) (e : Event F) (es : List (Event F))
      → Memᴰ e (matching q es)
      → Memᴰ e es × Asked q e
  unfolding matching
  mem_matching q e [] m = absurd (not-nil m)
  mem_matching q e (d ∷ es) m = elim (Bool-cases (matches q d)) [
    | inr other ↦ let (old, asked) = mem_matching q e es (rw other at m) in (tail old, asked)
    | inl fits ↦ elim (cases_cons (rw fits at m)) [
      | inl same ↦ (head same, rw same ((matches_iff q d).0 fits))
      | inr later ↦ let (old, asked) = mem_matching q e es later in (tail old, asked)
    ]
  ]

  matching-mem :
      (q : Query) (e : Event F) (es : List (Event F))
      → Memᴰ e es
      → Asked q e
      → Memᴰ e (matching q es)
  unfolding matching
  matching-mem q e [] m asked = absurd (not-nil m)
  matching-mem q e (d ∷ es) m asked = elim (Bool-cases (matches q d)) [
    | inl fits ↦ elim (cases_cons m) [
      | inl same ↦ rw fits (head same)
      | inr later ↦ rw fits (tail (matching-mem q e es later asked))
    ]
    | inr other ↦ elim (cases_cons m) [
      | inl same ↦ absurd (cc (other, (matches_iff q d).1 (rw same at asked)))
      | inr later ↦ rw other (matching-mem q e es later asked)
    ]
  ]

  abbrev events_in : Reply (List (Event F)) → List (Event F)
  events_in (refused n msg) = []
  events_in (answered n es) = es

  -- With no Postgres, the query of a tenant gives exactly the events of the bus that are that tenant's, and
  -- the vehicle's and the type's where they are given: none of another tenant, and none is left out.
  pub handle_events_iff :
      (bus : MemoryBus F) (q : Query) (n : ℕ) (es : List (Event F))
      → handle_events {E = Unit {0}} none (some bus) q ≡ answered n es
      → (e : Event F) → Memᴰ e es ↔ (Memᴰ e bus.events × Asked q e)
  unfolding handle_events
  handle_events_iff bus q n es h e = elim (Bool-cases (q.tenant == "")) [
    | inl missing ↦ absurd (cc (rw missing at h))
    | inr given ↦
        let same : matching q bus.events ≡ es = ap events_in (rw given at h) in
        rw (← same)
          (mem_matching q e bus.events, (λ (m, asked). matching-mem q e bus.events m asked))
  ]
