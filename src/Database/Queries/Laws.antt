-- ===== src/Database/Queries/Laws.antt =====
-- What the text of the query for events depends on (internal/store/pg.go).
use tide.Prelude.{
  ℕ, ◌≡◌, ◌==◌, String, Bool-cases, inl, inr, arith, ℤ, pos, ◌≤ℤ◌, Result, ok, err, refl, sym, ◌∙◌,
}
use tide.Database.Queries.{Statement, clamped, recent_events}

abbrev pub query_in : Result String Statement → String
query_in (ok s) = s.query
query_in (err e) = e

-- The text of the query holds nothing of what the client sends: it is the same for all values that are
-- given in the same places.
pub recent_events-query :
    (print : ℕ → String) (tenant tenant' vehicle vehicle' kind kind' : String) (limit limit' : ℤ)
    → (tenant == "") ≡ (tenant' == "")
    → (vehicle == "") ≡ (vehicle' == "")
    → (kind == "") ≡ (kind' == "")
    → query_in (recent_events print tenant vehicle kind limit)
      ≡ query_in (recent_events print tenant' vehicle' kind' limit')
unfolding recent_events
recent_events-query print tenant tenant' vehicle vehicle' kind kind' limit limit' t v k =
    elim (Bool-cases (tenant == "")) [
      | inl no_tenant ↦ rw (no_tenant, sym t ∙ no_tenant) refl
      | inr a ↦ elim (Bool-cases (vehicle == "")) [
        | inl no_vehicle ↦ elim (Bool-cases (kind == "")) [
          | inl no_kind ↦
              rw (a, sym t ∙ a, no_vehicle, sym v ∙ no_vehicle, no_kind, sym k ∙ no_kind) refl
          | inr c ↦ rw (a, sym t ∙ a, no_vehicle, sym v ∙ no_vehicle, c, sym k ∙ c) refl
        ]
        | inr b ↦ elim (Bool-cases (kind == "")) [
          | inl no_kind ↦ rw (a, sym t ∙ a, b, sym v ∙ b, no_kind, sym k ∙ no_kind) refl
          | inr c ↦ rw (a, sym t ∙ a, b, sym v ∙ b, c, sym k ∙ c) refl
        ]
      ]
    ]

-- The limit of a query lies between one and five hundred.
clamped-within : (limit : ℤ) → (pos 1 ≤ℤ clamped limit) × (clamped limit ≤ℤ pos 500)
clamped-within limit = ground arith
