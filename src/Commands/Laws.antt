-- ===== src/Commands/Laws.antt =====
-- What the batches of cmd/tide/simulate.go carry, and what the comparison of cmd/tide/replay.go decides.
use mathlib.Core.Option.{some-ne-none}
use mathlib.Core.List.{append_assoc, append-nil}
use tide.Prelude.{
  ℕ, zero, suc, ◌+◌, ◌≤◌, ◌<◌, ◌≡◌, ◌≢◌, ◌↔◌, ◌∙◌, refl, sym, ap, arith, true, ◌==◌, eq_iff,
  eq_refl, eqb, Option, none, some, List, [], ◌∷◌, ◌++◌, length, length-append, length-map, map,
  All, All-append, Bool-cases, inl, inr,
}
use tide.Schemas.Events.{Event}
use tide.Commands.{
  Posted, unreachable, replied, SendError, post_failed, api_returned, Sent, chunk, cut, after_post,
  post_from, post_batches, same_ids, is_deterministic,
}

cut-append : {A : Type 0} (n : ℕ) (xs : List A) → (cut n xs).0 ++ (cut n xs).1 ≡ xs
cut-append zero xs = refl
cut-append (suc n) [] = refl
cut-append (suc n) (x ∷ xs) = ap (λ ys. x ∷ ys) (cut-append n xs)

cut-le : {A : Type 0} (n : ℕ) (xs : List A) → length (cut n xs).0 ≤ n
cut-le zero xs = omega arith
cut-le (suc n) [] = omega arith
cut-le (suc n) (x ∷ xs) = omega (arith, cut-le n xs)

abbrev joined : {A : Type 0} → List (List A) → List A
joined [] = []
joined (xs ∷ xss) = xs ++ joined xss

joined-snoc :
    {A : Type 0} (xss : List (List A)) (xs : List A) → joined (xss ++ (xs ∷ [])) ≡ joined xss ++ xs
joined-snoc [] xs = append-nil xs
joined-snoc (ys ∷ xss) xs =
    ap (λ zs. ys ++ zs) (joined-snoc xss xs) ∙ sym (append_assoc ys (joined xss) xs)

-- The element at an index.
abbrev pub nth : {A : Type 0} → ℕ → List A → Option A
nth i [] = none
nth zero (x ∷ xs) = some x
nth (suc i) (x ∷ xs) = nth i xs

abbrev IsBatch : {A : Type 0} → List A → Type 0
IsBatch xs = (1 ≤ length xs) × (length xs ≤ chunk)

-- The world of the API, and the batches that it was given.
pub record Log (A W : Type 0) : Type 0 where
  pub world : W
  pub batches : List (List A)

-- The client with a log of the batches that it was given.
abbrev pub logged : {A W : Type 0} → (List A → W → Posted × W) → List A → Log A W → Posted × Log A W
logged post batch l =
    let (answer, w') = post batch l.world in
    (answer, record { world = w'; batches = l.batches ++ (batch ∷ []) })

-- How the loop ends on the points `pts`, with the batches that were posted.
abbrev pub Delivers : {A W : Type 0} → List A → Sent × Log A W → Type 0
Delivers pts ((sent, failure), l) =
    let given = joined l.batches in
    All IsBatch l.batches
    × (failure ≡ none → (given ≡ pts) × (sent ≡ length pts))
    × (failure ≢ none
        → (sent < length given)
          × (length given ≤ sent + chunk)
          × ((i : ℕ) → i < length given → nth i given ≡ nth i pts))

nth-append : {A : Type 0} (i : ℕ) (xs ys : List A) → i < length xs → nth i xs ≡ nth i (xs ++ ys)
nth-append i [] ys below = absurd (omega (arith, below))
nth-append zero (x ∷ xs) ys below = refl
nth-append (suc i) (x ∷ xs) ys below = nth-append i xs ys (omega (arith, below))

length-joined :
    {A : Type 0} (log : List (List A)) (batch : List A)
    → length (joined (log ++ (batch ∷ []))) ≡ length (joined log) + length batch
length-joined log batch = ap length (joined-snoc log batch) ∙ length-append (joined log) batch

module _ {A W : Type 0} (post : List A → W → Posted × W) (pts : List A) where
  -- an error after a batch
  stopped-Delivers :
      (e : SendError) (sent : ℕ) (w : W) (log : List (List A)) (batch others : List A)
      → All IsBatch (log ++ (batch ∷ []))
      → IsBatch batch
      → joined (log ++ (batch ∷ [])) ++ others ≡ pts
      → sent ≡ length (joined log)
      → Delivers pts ((sent, some e), record { world = w; batches = log ++ (batch ∷ []) })
  stopped-Delivers e sent w log batch others all size whole counted =
      let total = length-joined log batch in
      let given = joined (log ++ (batch ∷ [])) in
      (
        all,
        λ none_is. absurd (some-ne-none e none_is),
        λ _. (
          omega (arith, total, size, counted),
          omega (arith, total, size, counted),
          λ i below. nth-append i given others below ∙ ap (nth i) whole,
        ),
      )

  after_post-Delivers :
      (answer : Posted) (sent : ℕ) (w : W) (log : List (List A)) (batch others : List A)
      (next : Sent × Log A W)
      → All IsBatch (log ++ (batch ∷ []))
      → IsBatch batch
      → joined (log ++ (batch ∷ [])) ++ others ≡ pts
      → sent ≡ length (joined log)
      → Delivers pts next
      → Delivers pts (
          after_post {W = Log A W} answer sent
            (record { world = w; batches = log ++ (batch ∷ []) })
            next)
  after_post-Delivers (unreachable e) sent w log batch others next all size whole counted h =
      stopped-Delivers (post_failed e) sent w log batch others all size whole counted
  after_post-Delivers (replied status) sent w log batch others next all size whole counted h =
      elim (Bool-cases (eqb status 202)) [
        | inl taken ↦ rw taken h
        | inr other ↦
            rw other (
              stopped-Delivers (api_returned status) sent w log batch others all size whole counted)
      ]

  ended-Delivers :
      (sent : ℕ) (w : W) (log : List (List A))
      → All IsBatch log
      → joined log ++ [] ≡ pts
      → sent ≡ length (joined log)
      → Delivers pts ((sent, none), record { world = w; batches = log })
  ended-Delivers sent w log all whole counted =
      let same = sym (append-nil (joined log)) ∙ whole in
      (all, (λ _. (same, counted ∙ ap length same)), λ wrong. absurd (wrong refl))

  post_from-Delivers :
      (fuel : ℕ) (left : List A) (sent : ℕ) (w : W) (log : List (List A))
      → length left ≤ fuel
      → All IsBatch log
      → joined log ++ left ≡ pts
      → sent ≡ length (joined log)
      → Delivers pts (post_from (logged post) fuel left sent (record { world = w; batches = log }))
  unfolding post_from
  post_from-Delivers zero [] sent w log enough all whole counted =
      ended-Delivers sent w log all whole counted
  post_from-Delivers zero (x ∷ xs) sent w log enough all whole counted =
      absurd (omega (arith, enough))
  post_from-Delivers (suc fuel) [] sent w log enough all whole counted =
      ended-Delivers sent w log all whole counted
  post_from-Delivers (suc fuel) (x ∷ xs) sent w log enough all whole counted =
      let (batch, others) = cut chunk (x ∷ xs) in
      let (answer, w') = post batch w in
      let joins = cut-append chunk (x ∷ xs) in
      let lengths = sym (length-append batch others) ∙ ap length joins in
      let size : IsBatch batch = (omega arith, cut-le chunk (x ∷ xs)) in
      let all' = All-append IsBatch log (batch ∷ []) all (size, tt) in
      let whole' =
        ap (λ ys. ys ++ others) (joined-snoc log batch)
        ∙ append_assoc (joined log) batch others
        ∙ ap (λ ys. joined log ++ ys) joins
        ∙ whole in
      after_post-Delivers answer sent w' log batch others
        (post_from (logged post) fuel others (sent + length batch)
          (record { world = w'; batches = log ++ (batch ∷ []) }))
        all' size whole' counted
        (post_from-Delivers fuel others (sent + length batch) w' (log ++ (batch ∷ []))
          (omega (arith, lengths, enough)) all' whole'
          (omega (arith, counted, length-joined log batch)))

  -- Whatever the API answers, the loop ends with batches of one to 100 points, which are the points in
  -- their order: all of them, each once, and all counted as sent, where no error is returned; and where
  -- one is, a beginning of them, of which the last batch is not counted.
  pub post_batches-Delivers :
      (w : W) → Delivers pts (post_batches (logged post) pts (record { world = w; batches = [] }))
  unfolding post_batches
  post_batches-Delivers w = post_from-Delivers (length pts) pts 0 w [] (omega arith) tt refl refl

module _ {F : Type 0} where
  same_ids_iff :
      (ds es : List (Event F))
      → length ds ≡ length es
      → (same_ids ds es ≡ true) ↔ (map (λ e. e.id) ds ≡ map (λ e. e.id) es)
  same_ids_iff [] [] h = (λ _. refl, λ _. refl)
  same_ids_iff [] (e ∷ es) h = absurd (omega (arith, h))
  same_ids_iff (d ∷ ds) [] h = absurd (omega (arith, h))
  same_ids_iff (d ∷ ds) (e ∷ es) h =
      let (to, from) = same_ids_iff ds es (omega (arith, h)) in
      elim (Bool-cases (d.id == e.id)) [
        | inl same ↦ rw same (grind (arith, to, from, (eq_iff d.id e.id).0 same))
        | inr other ↦ rw other (grind (arith, other, eq_refl d.id))
      ]

  -- Two replays are called deterministic exactly when their events have the same identifiers in the same
  -- order.
  is_deterministic_iff :
      (ds es : List (Event F))
      → (is_deterministic ds es ≡ true) ↔ (map (λ e. e.id) ds ≡ map (λ e. e.id) es)
  unfolding is_deterministic
  is_deterministic_iff ds es = elim (Bool-cases (eqb (length ds) (length es))) [
    | inl same ↦ rw same (same_ids_iff ds es (ground (arith, same)))
    | inr other ↦ rw other (
      (λ wrong. ground (arith, wrong)),
      λ h. absurd (
          ground (
            arith,
            other,
            sym (length-map (λ (e : Event F). e.id) ds)
                ∙ ap length h
                ∙ length-map (λ (e : Event F). e.id) es,
          )),
    )
  ]
