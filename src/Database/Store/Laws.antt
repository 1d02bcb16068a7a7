-- ===== src/Database/Store/Laws.antt =====
-- What the database gives back of the events that were written to it (internal/store/pg.go).
use mathlib.Core.List.{Memᴰ}
use mathlib.Core.List.Memᴰ as Memᴰ
use mathlib.Core.List.Memᴰ.{not-nil}
use mathlib.Core.List.{append-nil, append_assoc}
use tide.Prelude.{
  ℕ, String, true, false, ◌==◌, ◌≡◌, refl, sym, ap, ◌∙◌, subst, inl, inr, ◌↔◌, none, ℤ, pos, All,
  ltb_ℤ, List, [], ◌∷◌, ◌++◌, map, length, length-map, ok,
}
use tide.Schemas.Clock.{Time}
use tide.Schemas.Events.{Event}
use tide.Database.Queries.{clamped}
use tide.Database.Store.{
  Driver, EventRow, append_event, event_row, find_events, read_row, read_rows, read_answer, ask,
}
use tide.Database.Store.Server.{
  Meets, IsServer, append_events, put_events, given_back, conditions_of, SameIds, Asked,
}
use tide.Database.Store.Conditions.{recent_events-select, Meets-iff}
use tide.Database.Store.Rows.{failure-world, put_events-mem, put_events_self}

module _ {F B X W : Type 0} (db : Driver F B X W) where
  read_rows-map :
      (out : List (Event F)) (rows : List (EventRow B))
      → read_rows db out (map (λ r. ok r) rows) none ≡ (out ++ map (read_row db) rows, none)
  unfolding read_rows
  read_rows-map out [] = ap (λ es. (es, none)) (sym (append-nil out))
  read_rows-map out (r ∷ rows) =
      read_rows-map (out ++ (read_row db r ∷ [])) rows
      ∙ ap (λ es. (es, none)) (append_assoc out (read_row db r ∷ []) (map (read_row db) rows))

  abbrev kept_row : (Time → Time) → (B → B) → Event F → EventRow B
  kept_row micro normal e =
      let r = event_row db e in record r { ts = micro r.ts; payload = normal r.payload }

  kept_row-id :
      (micro : Time → Time) (normal : B → B) (e : Event F) → (kept_row micro normal e).id ≡ e.id
  unfolding event_row
  kept_row-id micro normal e = refl

  read_row-kept_row :
      (micro : Time → Time) (normal : B → B) (e : Event F)
      → read_row db (kept_row micro normal e) ≡ given_back db micro normal e
  unfolding read_row event_row
  read_row-kept_row micro normal e = refl

module _ {F B X W : Type 0} (db : Driver F B X W) (print : ℕ → String)
    {table : W → List (EventRow B)} (server : IsServer db print table) where
  open server use {micro, normal, IsStorable, inserted, selected, answered}

  append_events-table :
      (es : List (Event F)) (w : W)
      → All (λ e. IsStorable (event_row db e)) es
      → table (append_events db es w) ≡ put_events (kept_row db micro normal) es (table w)
  unfolding append_event
  append_events-table [] w fits = refl
  append_events-table (e ∷ es) w (fit, fits) =
      append_events-table es (append_event db e w).1 fits
      ∙ ap (put_events (kept_row db micro normal) es) (
          ap table (failure-world db (db.insert_event (event_row db e) w))
          ∙ inserted (event_row db e) w fit)

  find_events-selected :
      (tenant vehicle type : String) (limit : ℤ) (w : W)
      → tenant == "" ≡ false
      → find_events db print tenant vehicle type limit w
        ≡ (map (read_row db) (selected tenant vehicle type (clamped limit) w), none)
  unfolding find_events
  find_events-selected tenant vehicle type limit w named =
      ap (λ s. ask db s w) (recent_events-select print tenant vehicle type limit named)
      ∙ ap (read_answer db) (answered tenant vehicle type (clamped limit) w)
      ∙ read_rows-map db [] (selected tenant vehicle type (clamped limit) w)

module _ {F B X W : Type 0} (db : Driver F B X W) (print : ℕ → String)
    {table : W → List (EventRow B)} (server : IsServer db print table) where
  open server use {micro, normal, IsStorable, selected, sound, complete}

  -- An event that was asked for, of those that were written, as it is given back.
  abbrev pub IsReturned : List (Event F) → String → String → String → Event F → Type 0
  IsReturned es tenant vehicle type e =
      (d : Event F) × Memᴰ d es × Asked tenant vehicle type d × (e ≡ given_back db micro normal d)

  find_events_iff :
      (es : List (Event F)) (w : W) (tenant vehicle type : String) (limit : ℤ)
      → table w ≡ put_events (kept_row db micro normal) es []
      → SameIds es
      → let rows = selected tenant vehicle type limit w in
        ltb_ℤ (pos (length rows)) limit ≡ true
        → (e : Event F) → Memᴰ e (map (read_row db) rows) ↔ IsReturned es tenant vehicle type e
  unfolding event_row
  find_events_iff es w tenant vehicle type limit held same few e =
      let rows = selected tenant vehicle type limit w in
      let row = kept_row db micro normal in
      (
        λ m.
            let (r, found, reads) = Memᴰ.of_map (read_row db) rows m in
            let (there, mine, meets) = sound tenant vehicle type limit w r found in
            elim (put_events-mem row (kept_row-id db micro normal) r es []
              (subst (λ t. Memᴰ r t) held there)) [
                | inl nowhere ↦ absurd (not-nil nowhere)
                | inr (d, wrote, is_row) ↦
                    let (placed, typed) =
                      (Meets-iff vehicle type (row d)).0
                        (subst (Meets (conditions_of vehicle type)) is_row meets) in
                    (
                      d,
                      wrote,
                      (sym (ap (λ (q : EventRow B). q.tenant_id) is_row) ∙ mine, placed, typed),
                      sym reads ∙ ap (read_row db) is_row ∙ read_row-kept_row db micro normal d,
                    )
              ],
        λ (d, m, (mine, placed, typed), back).
            subst (λ c. Memᴰ c (map (read_row db) rows))
              (read_row-kept_row db micro normal d ∙ sym back)
              (Memᴰ.map (read_row db) (
                complete tenant vehicle type limit w (row d) few
                  (subst (λ t. Memᴰ (row d) t) (sym held)
                    (put_events_self row (kept_row-id db micro normal) d es [] same
                      (λ r d nowhere. absurd (not-nil nowhere)) m))
                  mine ((Meets-iff vehicle type (row d)).1 (placed, typed)))),
      )

  -- What was written to an empty table, in any number of deliveries, is what a query of a tenant gives
  -- back: while the database can be reached and its columns can hold the events, events that share an
  -- identifier are the same, and fewer events than the limit come back, there is no error, and the events
  -- that come back are exactly those that were written which are the tenant's, and the vehicle's and the
  -- type's where they are given, each with its time in the resolution of the column and its payload as
  -- the decoder reads what the column has made of its encoding.
  pub find_events-append_events :
      (es : List (Event F)) (w : W) (tenant vehicle type : String) (limit : ℤ)
      → table w ≡ []
      → All (λ e. IsStorable (event_row db e)) es
      → SameIds es
      → tenant == "" ≡ false
      → let (out, error) = find_events db print tenant vehicle type limit (append_events db es w) in
        ltb_ℤ (pos (length out)) (clamped limit) ≡ true
        → (error ≡ none) × ((e : Event F) → Memᴰ e out ↔ IsReturned es tenant vehicle type e)
  find_events-append_events es w tenant vehicle type limit empty fits same named few =
      let w' = append_events db es w in
      let rows = selected tenant vehicle type (clamped limit) w' in
      let found = find_events-selected db print server tenant vehicle type limit w' named in
      let row = kept_row db micro normal in
      let held : table w' ≡ put_events row es [] =
        append_events-table db print server es w fits ∙ ap (put_events row es) empty in
      let short : ltb_ℤ (pos (length rows)) (clamped limit) ≡ true =
        ap (λ n. ltb_ℤ (pos n) (clamped limit))
          (sym (length-map (read_row db) rows) ∙ ap (λ f. length f.0) (sym found))
        ∙ few in
      (
        ap (λ f. f.1) found,
        λ e.
            subst (λ out. Memᴰ e out ↔ IsReturned es tenant vehicle type e)
              (ap (λ f. f.0) (sym found))
              (find_events_iff es w' tenant vehicle type (clamped limit) held same short e),
      )
