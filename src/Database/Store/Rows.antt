-- ===== src/Database/Store/Rows.antt =====
-- The rows that are there after inserts that skip the identifiers that are there (internal/store/pg.go).
use mathlib.Core.List.{Memᴰ}
use mathlib.Core.List.Memᴰ as Memᴰ
use mathlib.Core.List.Memᴰ.{
  head, tail, cases_cons, not-nil, append_left, append_right, append_cases,
}
use tide.Prelude.{
  String, true, ◌==◌, eq_iff, ◌≡◌, refl, sym, ap, ◌∙◌, subst, ◌⊎◌, inl, inr, Bool-cases, Option,
  none, some, List, [], ◌∷◌, any,
}
use tide.Schemas.Events.{Event}
use tide.Database.Store.{Driver, EventRow, failure}
use tide.Database.Store.Server.{put, put_events, SameIds}

module _ {B : Type 0} where
  pub any-mem :
      (id : String) (rows : List (EventRow B))
      → any (λ (old : EventRow B). old.id == id) rows ≡ true
      → (r : EventRow B) × Memᴰ r rows × (r.id ≡ id)
  any-mem id [] found = absurd (cc found)
  any-mem id (r ∷ rows) found = elim (Bool-cases (r.id == id)) [
    | inl same ↦ (r, head refl, (eq_iff r.id id).0 same)
    | inr other ↦ let (q, m, same) = any-mem id rows (rw other at found) in (q, tail m, same)
  ]

  pub mem-put :
      (r new : EventRow B) (rows : List (EventRow B)) → Memᴰ r rows → Memᴰ r (put new rows)
  unfolding put
  mem-put r new rows m = elim (Bool-cases (any (λ (old : EventRow B). old.id == new.id) rows)) [
    | inl there ↦ rw there m
    | inr fresh ↦ rw fresh (append_left (new ∷ []) m)
  ]

  pub put-mem :
      (r new : EventRow B) (rows : List (EventRow B))
      → Memᴰ r (put new rows)
      → Memᴰ r rows ⊎ (r ≡ new)
  unfolding put
  put-mem r new rows m = elim (Bool-cases (any (λ (old : EventRow B). old.id == new.id) rows)) [
    | inl there ↦ inl (rw there at m)
    | inr fresh ↦ elim (append_cases rows (rw fresh at m)) [
      | inl old ↦ inl old
      | inr last ↦ inr (Memᴰ.eq_of_singleton last)
    ]
  ]

  -- a row is there once it was put, where the rows with its identifier are the same row
  pub put_self :
      (new : EventRow B) (rows : List (EventRow B))
      → ((r : EventRow B) → Memᴰ r rows → r.id ≡ new.id → r ≡ new)
      → Memᴰ new (put new rows)
  unfolding put
  put_self new rows alike = elim (Bool-cases (any (λ (old : EventRow B). old.id == new.id) rows)) [
    | inl there ↦
        let (r, m, same) = any-mem new.id rows there in
        rw there (Memᴰ.cast (sym (alike r m same)) m)
    | inr fresh ↦ rw fresh (append_right rows (head refl))
  ]

module _ {F B X W : Type 0} (db : Driver F B X W) where
  pub failure-world : (x : Option X × W) → (failure db x).1 ≡ x.1
  failure-world (none, w) = refl
  failure-world (some x, w) = refl

module _ {F B : Type 0} (row : Event F → EventRow B)
    (same_id : (e : Event F) → (row e).id ≡ e.id) where
  pub mem-put_events :
      (r : EventRow B) (es : List (Event F)) (rows : List (EventRow B))
      → Memᴰ r rows
      → Memᴰ r (put_events row es rows)
  mem-put_events r [] rows m = m
  mem-put_events r (e ∷ es) rows m =
      mem-put_events r es (put (row e) rows) (mem-put r (row e) rows m)

  abbrev pub Wrote : List (Event F) → EventRow B → Type 0
  Wrote es r = (e : Event F) × Memᴰ e es × (r ≡ row e)

  pub put_events-mem :
      (r : EventRow B) (es : List (Event F)) (rows : List (EventRow B))
      → Memᴰ r (put_events row es rows)
      → Memᴰ r rows ⊎ Wrote es r
  put_events-mem r [] rows m = inl m
  put_events-mem r (e ∷ es) rows m = elim (put_events-mem r es (put (row e) rows) m) [
    | inr (d, later, same) ↦ inr (d, tail later, same)
    | inl old ↦ elim (put-mem r (row e) rows old) [
      | inl older ↦ inl older
      | inr same ↦ inr (e, head refl, same)
    ]
  ]

  -- the rows that are there have no identifier of the events, or are theirs
  abbrev pub Alike : List (Event F) → List (EventRow B) → Type 0
  Alike es rows = (r : EventRow B) (e : Event F) → Memᴰ r rows → Memᴰ e es → r.id ≡ e.id → r ≡ row e

  pub Alike-put :
      (d : Event F) (es : List (Event F)) (rows : List (EventRow B))
      → SameIds (d ∷ es)
      → Alike (d ∷ es) rows
      → Alike es (put (row d) rows)
  Alike-put d es rows same alike r e m later h = elim (put-mem r (row d) rows m) [
    | inl old ↦ alike r e old (tail later) h
    | inr new ↦
        new
        ∙ ap (row)
            (same d e (head refl) (tail later) (sym (same_id d) ∙ sym (ap (λ q. q.id) new) ∙ h))
  ]

  pub put_events_self :
      (e : Event F) (es : List (Event F)) (rows : List (EventRow B))
      → SameIds es
      → Alike es rows
      → Memᴰ e es
      → Memᴰ (row e) (put_events row es rows)
  put_events_self e [] rows same alike m = absurd (not-nil m)
  put_events_self e (d ∷ es) rows same alike m = elim (cases_cons m) [
    | inl now ↦
        subst (λ c. Memᴰ (row c) (put_events row (d ∷ es) rows)) (sym now)
          (mem-put_events (row d) es (put (row d) rows)
            (put_self (row d) rows (λ r old h. alike r d old (head refl) (h ∙ same_id d))))
    | inr later ↦
        put_events_self e es (put (row d) rows) (λ b c mb mc. same b c (tail mb) (tail mc))
          (Alike-put d es rows same alike) later
  ]
