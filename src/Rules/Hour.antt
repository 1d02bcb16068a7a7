-- ===== src/Rules/Hour.antt =====
-- What a rule has done at a vehicle in the last hour (internal/rules/rules.go).
use mathlib.Core.List.{append-nil}
use tide.Prelude.{
  ℕ, ◌+◌, ◌≤◌, ltb, leb_ℤ, String, true, false, ◌⊎◌, ◌≡◌, ap, sym, ◌∙◌, refl, inl, inr,
  if◌then◌else◌, ◌<>◌, ℤ, pos, List, [], ◌∷◌, ◌++◌, arith, length, length-append, Bool-cases, ◌==◌,
}
use tide.Schemas.Clock.{Time, hour}
use tide.Schemas.Events.{Event}
use tide.Rules.{Spec, Trigger, recent, emit_events}

-- the times that lie less than an hour before `now`
abbrev pub in_hour : Time → List Time → List Time
in_hour now [] = []
in_hour now (ts ∷ log) =
    let rest = in_hour now log in if ltb now (ts + hour) then ts ∷ rest else rest

recent_lem : (now : Time) (log : List Time) → recent now log ≡ in_hour now log
unfolding recent
recent_lem now [] = refl
recent_lem now (ts ∷ log) = rw (recent_lem now log) refl

-- What lies in the hour before a later time is there of what lies in the hour before `now`.
in_hour_later :
    (now later : Time) (log : List Time)
    → now ≤ later
    → in_hour later (in_hour now log) ≡ in_hour later log
in_hour_later now later [] h = refl
in_hour_later now later (ts ∷ log) h = elim (Bool-cases (ltb now (ts + hour))) [
  | inl new ↦ rw (new, in_hour_later now later log h) refl
  | inr old ↦
      let older : ltb later (ts + hour) ≡ false = ground (arith, h, old) in
      rw (old, older) (in_hour_later now later log h)
]

in_hour-length :
    (now later : Time) (log : List Time)
    → now ≤ later
    → length (in_hour later log) ≤ length (in_hour now log)
in_hour-length now later [] h = omega arith
in_hour-length now later (ts ∷ log) h = ground (arith, in_hour-length now later log h)

in_hour-append :
    (now : Time) (xs ys : List Time) → in_hour now (xs ++ ys) ≡ in_hour now xs ++ in_hour now ys
in_hour-append now [] ys = refl
in_hour-append now (x ∷ xs) ys = elim (Bool-cases (ltb now (x + hour))) [
  | inl new ↦ rw (new, in_hour-append now xs ys) refl
  | inr old ↦ rw old (in_hour-append now xs ys)
]

in_hour_self : (now : Time) → in_hour now (now ∷ []) ≡ now ∷ []
in_hour_self now = let new : ltb now (now + hour) ≡ true = ground arith in rw new refl

-- a rule, its version and a vehicle
abbrev pub action_key : String → String → String → String
action_key rule version vehicle = (rule <> "/" <> version) <> "/" <> vehicle

module _ {F : Type 0} where
  -- When the rule of a key has acted at its vehicle, by the record of what was done.
  abbrev pub acted : String → List (Trigger F) → List Time
  acted key [] = []
  acted key (a ∷ done) =
      let rest = acted key done in
      if action_key a.rule_id a.rule_version a.vehicle_id == key then a.at ∷ rest else rest

  -- How many of these events the rule of a key has emitted for its vehicle.
  abbrev pub emitted : String → List (Event F) → ℕ
  emitted key [] = 0
  emitted key (e ∷ es) =
      let rest = emitted key es in
      if action_key e.rule_id e.rule_version e.vehicle_id == key then rest + 1 else rest

  acted-snoc :
      (key : String) (done : List (Trigger F)) (a : Trigger F)
      → acted key (done ++ (a ∷ [])) ≡ acted key done ++ acted key (a ∷ [])
  acted-snoc key [] a = refl
  acted-snoc key (b ∷ done) a =
      elim (Bool-cases (action_key b.rule_id b.rule_version b.vehicle_id == key)) [
        | inl same ↦ rw (same, acted-snoc key done a) refl
        | inr other ↦ rw other (acted-snoc key done a)
      ]

  emitted-append :
      (key : String) (xs ys : List (Event F))
      → emitted key (xs ++ ys) ≡ emitted key xs + emitted key ys
  emitted-append key [] ys = omega arith
  emitted-append key (x ∷ xs) ys = ground (arith, emitted-append key xs ys)

  emit_events_cases :
      (spec : Spec F) (e : Event F) → (emit_events spec e ≡ []) ⊎ (emit_events spec e ≡ e ∷ [])
  unfolding emit_events
  emit_events_cases spec e = ground arith

  pub acted_same :
      (key : String) (done : List (Trigger F)) (a : Trigger F)
      → action_key a.rule_id a.rule_version a.vehicle_id == key ≡ true
      → acted key (done ++ (a ∷ [])) ≡ acted key done ++ (a.at ∷ [])
  acted_same key done a same = acted-snoc key done a ∙ rw same refl

  pub acted_other :
      (key : String) (done : List (Trigger F)) (a : Trigger F)
      → action_key a.rule_id a.rule_version a.vehicle_id == key ≡ false
      → acted key (done ++ (a ∷ [])) ≡ acted key done
  acted_other key done a other = acted-snoc key done a ∙ rw other (append-nil (acted key done))

  emitted_one : (key : String) (e : Event F) → emitted key (e ∷ []) ≤ 1
  emitted_one key e = ground arith

  pub emitted_few :
      (key : String) (spec : Spec F) (out : List (Event F)) (e : Event F)
      → emitted key (out ++ emit_events spec e) ≤ emitted key out + 1
  emitted_few key spec out e = elim (emit_events_cases spec e) [
    | inl nothing ↦ rw nothing (omega (arith, emitted-append key out []))
    | inr it ↦ rw it (omega (arith, emitted-append key out (e ∷ []), emitted_one key e))
  ]

  pub emitted_other :
      (key : String) (spec : Spec F) (out : List (Event F)) (e : Event F)
      → action_key e.rule_id e.rule_version e.vehicle_id == key ≡ false
      → emitted key (out ++ emit_events spec e) ≡ emitted key out
  emitted_other key spec out e other = elim (emit_events_cases spec e) [
    | inl nothing ↦ rw nothing (omega (arith, emitted-append key out []))
    | inr it ↦
        let none_sent : emitted key (e ∷ []) ≡ 0 = rw other refl in
        rw it (omega (arith, emitted-append key out (e ∷ []), none_sent))
  ]

module _ (now : Time) (most : ℕ) where
  -- The log of a key has the times at which it has acted in the last hour, which are no more than `most`,
  -- and at least as many as there were before with those that were sent since.
  abbrev pub Fit : ℕ → ℕ → List Time → List Time → Type 0
  Fit before sent times log =
      (in_hour now times ≡ in_hour now log)
      × (length (in_hour now times) ≤ most)
      × (before + sent ≤ length (in_hour now times))

  pub Fit-recent :
      (before sent : ℕ) (times log : List Time)
      → Fit before sent times log
      → Fit before sent times (recent now log)
  Fit-recent before sent times log (kept, few, all) = (
    kept
        ∙ sym (in_hour_later now now log (omega arith))
        ∙ ap (in_hour now) (sym (recent_lem now log)),
    few,
    all,
  )

  pub Fit-now :
      (before sent sent' : ℕ) (times log : List Time) (limit : ℤ)
      → Fit before sent times log
      → leb_ℤ limit (pos (length (recent now log))) ≡ false
      → leb_ℤ limit (pos most) ≡ true
      → sent' ≤ sent + 1
      → Fit before sent' (times ++ (now ∷ [])) (recent now log ++ (now ∷ []))
  Fit-now before sent sent' times log limit fit free fits one =
      let (kept, few, all) = Fit-recent before sent times log fit in
      let grown : in_hour now (times ++ (now ∷ [])) ≡ in_hour now times ++ (now ∷ []) =
        in_hour-append now times (now ∷ []) ∙ ap (λ l. in_hour now times ++ l) (in_hour_self now) in
      let size : length (in_hour now (times ++ (now ∷ []))) ≡ length (in_hour now times) + 1 =
        ap length grown ∙ length-append (in_hour now times) (now ∷ []) in
      let same : length (recent now log) ≡ length (in_hour now times) =
        ap length (recent_lem now log ∙ sym fit.0) in
      (
        grown
            ∙ ap (λ l. l ++ (now ∷ [])) kept
            ∙ ap (λ l. in_hour now (recent now log) ++ l) (sym (in_hour_self now))
            ∙ sym (in_hour-append now (recent now log) (now ∷ [])),
        ground (arith, size, same, free, fits),
        omega (arith, size, all, one),
      )

  pub Fit-later :
      (earlier : Time) (times log : List Time)
      → earlier ≤ now
      → in_hour earlier times ≡ in_hour earlier log
      → length (in_hour earlier times) ≤ most
      → Fit (length (in_hour now times)) 0 times log
  Fit-later earlier times log later kept few = (
    sym (in_hour_later earlier now times later)
        ∙ ap (in_hour now) kept
        ∙ in_hour_later earlier now log later,
    omega (arith, in_hour-length earlier now times later, few),
    omega arith,
  )
