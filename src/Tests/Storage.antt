-- ===== src/Tests/Storage.antt =====
-- A database of events, and the theorem at it.
use mathlib.Core.List.{Memᴰ}
use mathlib.Core.List.Memᴰ.{head, tail, cases_cons, not-nil, eq_of_singleton}
use tide.Prelude.{
  ℕ, ◌/◌, ◌*◌, String, Bool, true, false, ◌&&◌, ◌||◌, ◌==◌, if◌then◌else◌, eq_iff, ◌≡◌, refl, sym,
  ap, subst, ◌∙◌, arith, ◌⊎◌, inl, inr, ◌↔◌, Bool-cases, none, some, ℤ, pos, List, [], ◌∷◌, map, ok,
}
use tide.Schemas.Payload.{Fields, end}
use tide.Schemas.Events.{Event}
use tide.Database.Queries.{Argument, text, number, recent_events}
use tide.Database.Store.{
  Driver, EventRow, find_events, event_row, append_event, read_row, read_rows,
}
use tide.Database.Store.Server.{
  vehicle_id, select, put, IsServer, append_events, SameIds, conditions_of,
}
use tide.Database.Store.Conditions.{Meets-iff}
use tide.Database.Store.Laws.{IsReturned, find_events-append_events}
use tide.Tests.{ticks}

-- The rows of the table are the world, and their payloads are kept as they are.
abbrev Row : Type 0
Row = EventRow (Fields ℕ)

abbrev fits : String → String → String → Row → Bool
fits tenant vehicle type r =
    r.tenant_id == tenant
    && (vehicle == "" || r.vehicle_id == vehicle)
    && (type == "" || r.kind == type)

abbrev rows_for : String → String → String → List Row → List Row
rows_for tenant vehicle type [] = []
rows_for tenant vehicle type (r ∷ rows) =
    if fits tenant vehicle type r
    then r ∷ rows_for tenant vehicle type rows
    else rows_for tenant vehicle type rows

abbrev vehicle_query : String
vehicle_query = (select ticks "" ((vehicle_id, "") ∷ []) (pos 0)).query

-- The rows for a statement, by its text and its arguments.
abbrev answer : String → List Argument → List Row → List Row
answer query (text t ∷ number n ∷ []) rows = rows_for t "" "" rows
answer query (text t ∷ text v ∷ number n ∷ []) rows =
    if query == vehicle_query then rows_for t v "" rows else rows_for t "" v rows
answer query (text t ∷ text v ∷ text k ∷ number n ∷ []) rows = rows_for t v k rows
answer query _ rows = []

abbrev database : Driver ℕ (Fields ℕ) ℕ (List Row)
database = record {
  insert_point = λ p w. (none, w);
  insert_event = λ r w. (none, put (record r { ts = (r.ts / 1000) * 1000 }) w);
  insert_fence = λ id tenant name points w. (none, w);
  query = λ s w. ok (map (λ r. ok r) (answer s.query s.arguments w), none);
  encode_point = λ t. end;
  encode_raw = λ raw. end;
  encode_payload = λ p. p;
  decode_payload = λ p. some p;
}

database-answers :
    (tenant vehicle type : String) (limit : ℤ) (w : List Row)
    → let s = select ticks tenant (conditions_of vehicle type) limit in
      answer s.query s.arguments w ≡ rows_for tenant vehicle type w
database-answers tenant vehicle type limit w = elim (Bool-cases (vehicle == "")) [
  | inl v ↦ elim (Bool-cases (type == "")) [
    | inl k ↦ rw (v, k, (eq_iff vehicle "").0 v, (eq_iff type "").0 k) refl
    | inr k ↦ rw (v, k, (eq_iff vehicle "").0 v) refl
  ]
  | inr v ↦ elim (Bool-cases (type == "")) [
    | inl k ↦ rw (v, k, (eq_iff type "").0 k) refl
    | inr k ↦ rw (v, k) refl
  ]
]

fits_iff :
    (tenant vehicle type : String) (r : Row)
    → (fits tenant vehicle type r ≡ true) ↔ (
        (r.tenant_id ≡ tenant)
        × ((vehicle ≡ "") ⊎ (r.vehicle_id ≡ vehicle))
        × ((type ≡ "") ⊎ (r.kind ≡ type)))
fits_iff tenant vehicle type r = (
  (λ h. ground (
    arith,
    h,
    eq_iff r.tenant_id tenant,
    eq_iff vehicle "",
    eq_iff r.vehicle_id vehicle,
    eq_iff type "",
    eq_iff r.kind type,
  )),
  (λ h. ground (
    arith,
    h,
    eq_iff r.tenant_id tenant,
    eq_iff vehicle "",
    eq_iff r.vehicle_id vehicle,
    eq_iff type "",
    eq_iff r.kind type,
  )),
)

mem-rows_for :
    (tenant vehicle type : String) (r : Row) (rows : List Row)
    → Memᴰ r (rows_for tenant vehicle type rows)
    → Memᴰ r rows × (fits tenant vehicle type r ≡ true)
mem-rows_for tenant vehicle type r [] m = absurd (not-nil m)
mem-rows_for tenant vehicle type r (q ∷ rows) m = elim (Bool-cases (fits tenant vehicle type q)) [
  | inr other ↦
      let (old, asked) = mem-rows_for tenant vehicle type r rows (rw other at m) in
      (tail old, asked)
  | inl asked ↦ elim (cases_cons (rw asked at m)) [
    | inl same ↦ (head same, subst (λ x. fits tenant vehicle type x ≡ true) (sym same) asked)
    | inr later ↦
        let (old, more) = mem-rows_for tenant vehicle type r rows later in (tail old, more)
  ]
]

rows_for-mem :
    (tenant vehicle type : String) (r : Row) (rows : List Row)
    → Memᴰ r rows
    → fits tenant vehicle type r ≡ true
    → Memᴰ r (rows_for tenant vehicle type rows)
rows_for-mem tenant vehicle type r [] m asked = absurd (not-nil m)
rows_for-mem tenant vehicle type r (q ∷ rows) m asked =
    elim (Bool-cases (fits tenant vehicle type q)) [
      | inl fine ↦ elim (cases_cons m) [
        | inl same ↦ rw fine (head same)
        | inr later ↦ rw fine (tail (rows_for-mem tenant vehicle type r rows later asked))
      ]
      | inr other ↦ elim (cases_cons m) [
        | inl same ↦ absurd (cc (other, subst (λ x. fits tenant vehicle type x ≡ true) same asked))
        | inr later ↦ rw other (rows_for-mem tenant vehicle type r rows later asked)
      ]
    ]

abbrev database-IsServer : IsServer database ticks (λ w. w)
database-IsServer = record {
  micro = λ t. (t / 1000) * 1000;
  normal = λ p. p;
  IsStorable = λ r. Unit;
  inserted = λ r w fits. refl;
  selected = λ tenant vehicle type limit w. rows_for tenant vehicle type w;
  answered = λ tenant vehicle type limit w.
      ap (λ (rows : List Row). ok (map (λ r. ok r) rows, none))
        (database-answers tenant vehicle type limit w);
  sound = λ tenant vehicle type limit w r m.
      let (there, asked) = mem-rows_for tenant vehicle type r w m in
      let (mine, placed, typed) = (fits_iff tenant vehicle type r).0 asked in
      (there, mine, (Meets-iff vehicle type r).1 (placed, typed));
  complete = λ tenant vehicle type limit w r few m mine meets.
      let (placed, typed) = (Meets-iff vehicle type r).0 meets in
      rows_for-mem tenant vehicle type r w m
        ((fits_iff tenant vehicle type r).1 (mine, placed, typed));
}

abbrev event : String → String → Event ℕ
event id tenant = record {
  id = id;
  kind = "geofence.entered";
  tenant_id = tenant;
  vehicle_id = "truck";
  timestamp = 5020;
  rule_id = "";
  rule_version = "";
  correlation_id = "c";
  causation_id = "";
  payload = end;
  schema_version = pos 1;
}

-- The first event is delivered twice.
abbrev delivered : List (Event ℕ)
delivered = event "e" "acme" ∷ event "o" "other" ∷ event "e" "acme" ∷ []

delivered-cases :
    (d : Event ℕ) → Memᴰ d delivered → (d ≡ event "e" "acme") ⊎ (d ≡ event "o" "other")
delivered-cases d m = elim (cases_cons m) [
  | inl a ↦ inl a
  | inr m₁ ↦ elim (cases_cons m₁) [ inl a ↦ inr a | inr m₂ ↦ inl (eq_of_singleton m₂) ]
]

apart : ◌≡◌ {A = String} "e" "o" → ⊥
apart h = let bad : true ≡ false = ap (λ s. s == "e") h in absurd (cc bad)

delivered-SameIds : SameIds delivered
delivered-SameIds d e md me same = elim (delivered-cases d md) [
  | inl a ↦ elim (delivered-cases e me) [
    | inl b ↦ a ∙ sym b
    | inr b ↦ absurd (apart (sym (ap (λ x. x.id) a) ∙ same ∙ ap (λ x. x.id) b))
  ]
  | inr a ↦ elim (delivered-cases e me) [
    | inl b ↦ absurd (apart (sym (ap (λ x. x.id) b) ∙ sym same ∙ ap (λ x. x.id) a))
    | inr b ↦ a ∙ sym b
  ]
]

find_events-append_events_example :
    let (out, error) =
      find_events database ticks "acme" "" "" (pos 10) (append_events database delivered []) in
    (error ≡ none)
    × ((e : Event ℕ)
        → Memᴰ e out ↔ IsReturned database ticks database-IsServer delivered "acme" "" "" e)
unfolding find_events append_event event_row read_row read_rows recent_events put
find_events-append_events_example =
    find_events-append_events database ticks database-IsServer delivered [] "acme" "" "" (pos 10)
      refl (tt, (tt, (tt, tt))) delivered-SameIds refl refl
