-- ===== src/Prelude/Sort.antt =====
-- Insertion sort by a Boolean `less`, and when its result does not depend on the order of the input.
use mathlib.Core.Path.{◌≡◌, refl, ◌∙◌, ap, ap₂, subst, subst₂}
use mathlib.Core.Logic.{◌⊎◌, inl, inr}
use mathlib.Core.Bool.{Bool, true, false}
use mathlib.Core.List.{List, [], ◌∷◌, reverse, reverse_aux, foldl, Permᴰ, Memᴰ}
use mathlib.Core.List.Memᴰ.{head, tail, cases_cons, not-nil}
use native.Mathlib.Omega.{arith}
use tide.Prelude.Tests.{if◌then◌else◌, Bool-cases}
use tide.Prelude.Lists.{All}

module _ {ℓ} {A : Type ℓ} (less : A → A → Bool) where
  -- The inner loop, on the sorted prefix from its end: an element moves left while it is less.
  unfoldable pub sink : A → List A → List A
  sink a [] = a ∷ []
  sink a (p ∷ ps) = if less a p then p ∷ sink a ps else a ∷ p ∷ ps

  unfoldable pub sort_by : List A → List A
  sort_by xs = reverse (foldl (λ sorted a. sink a sorted) [] xs)

  pub record IsWeakOrder : Type ℓ where
    pub asym : (a b : A) → less a b ≡ true → less b a ≡ false
    pub cotrans : (a p b : A) → less a p ≡ true → (less a b ≡ true) ⊎ (less b p ≡ true)

  abbrev pub AreApart : A → A → Type 0
  AreApart a b = (less a b ≡ true) ⊎ (less b a ≡ true)

  -- No two elements are tied.
  abbrev pub Untied : List A → Type 0
  Untied [] = Unit
  Untied (x ∷ xs) = All (AreApart x) xs × Untied xs

All-perm {ℓ κ} : {A : Type ℓ} (P : A → Type κ) {xs ys : List A} → Permᴰ xs ys → All P xs → All P ys
All-perm P Permᴰ.nil h = h
All-perm P (Permᴰ.cons e p) (h, hs) = (subst P e h, All-perm P p hs)
All-perm P (Permᴰ.swap e f) (ha, (hb, hs)) = (subst P f hb, (subst P e ha, hs))
All-perm P (Permᴰ.trans p q) h = All-perm P q (All-perm P p h)

module _ {ℓ} {A : Type ℓ} (less : A → A → Bool) (order : IsWeakOrder less) where
  open order use {asym, cotrans}

  sink_comm :
      (a b : A) (l : List A)
      → AreApart less a b
      → sink less a (sink less b l) ≡ sink less b (sink less a l)
  unfolding sink
  sink_comm a b [] h = ground (arith, asym a b, asym b a)
  sink_comm a b (p ∷ ps) h =
      ground (arith, asym a b, asym b a, cotrans a p b, cotrans b p a, sink_comm a b ps h)

  AreApart-sym : (a b : A) → AreApart less a b → AreApart less b a
  AreApart-sym a b (inl h) = inr h
  AreApart-sym a b (inr h) = inl h

  Untied-perm : {xs ys : List A} → Permᴰ xs ys → Untied less xs → Untied less ys
  Untied-perm Permᴰ.nil h = h
  Untied-perm (Permᴰ.cons {l₂ = ys} e p) (h, hs) =
      (subst (λ z. All (AreApart less z) ys) e (All-perm _ p h), Untied-perm p hs)
  Untied-perm (Permᴰ.swap {a = a} {b = b} {l = l} e f) ((ab, al), (bl, hl)) = (
    (subst₂ (AreApart less) f e (AreApart-sym a b ab), subst (λ z. All (AreApart less z) l) f bl),
    (subst (λ z. All (AreApart less z) l) e al, hl),
  )
  Untied-perm (Permᴰ.trans p q) h = Untied-perm q (Untied-perm p h)

  foldl-sink-perm :
      {xs ys : List A} (sorted : List A)
      → Permᴰ xs ys
      → Untied less xs
      → foldl (λ acc a. sink less a acc) sorted xs ≡ foldl (λ acc a. sink less a acc) sorted ys
  foldl-sink-perm sorted Permᴰ.nil h = refl
  foldl-sink-perm sorted (Permᴰ.cons {a = a} {l₂ = ys} e p) (h, hs) =
      foldl-sink-perm (sink less a sorted) p hs
      ∙ ap (λ z. foldl (λ acc c. sink less c acc) (sink less z sorted) ys) e
  foldl-sink-perm sorted (Permᴰ.swap {a = a} {b = b} {l = l} e f) ((ab, al), (bl, hl)) =
      ap (λ acc. foldl (λ acc c. sink less c acc) acc l)
        (sink_comm b a sorted (AreApart-sym a b ab)
          ∙ ap₂ (λ x y. sink less x (sink less y sorted)) e f)
  foldl-sink-perm sorted (Permᴰ.trans p q) h =
      foldl-sink-perm sorted p h ∙ foldl-sink-perm sorted q (Untied-perm p h)

  -- Where no two elements are tied, the order of the input does not matter.
  pub sort_by-perm :
      {xs ys : List A} → Permᴰ xs ys → Untied less xs → sort_by less xs ≡ sort_by less ys
  unfolding sort_by
  sort_by-perm p h = ap reverse (foldl-sink-perm [] p h)

module _ {ℓ} {A : Type ℓ} (less : A → A → Bool) where
  mem-sink : (a x : A) (xs : List A) → Memᴰ a (sink less x xs) → (a ≡ x) ⊎ Memᴰ a xs
  unfolding sink
  mem-sink a x [] m = cases_cons m
  mem-sink a x (y ∷ ys) m = elim (Bool-cases (less x y)) [
    | inl later ↦ elim (cases_cons (rw later at m)) [
      | inl same ↦ inr (head same)
      | inr rest ↦ elim (mem-sink a x ys rest) [ inl new ↦ inl new | inr old ↦ inr (tail old) ]
    ]
    | inr here ↦ cases_cons (rw here at m)
  ]

  mem-sunk :
      (a : A) (sorted xs : List A)
      → Memᴰ a (foldl (λ acc x. sink less x acc) sorted xs)
      → Memᴰ a sorted ⊎ Memᴰ a xs
  mem-sunk a sorted [] m = inl m
  mem-sunk a sorted (x ∷ xs) m = elim (mem-sunk a (sink less x sorted) xs m) [
    | inr later ↦ inr (tail later)
    | inl sunk ↦ elim (mem-sink a x sorted sunk) [ inl new ↦ inr (head new) | inr old ↦ inl old ]
  ]

  mem-reverse_aux : (a : A) (xs ys : List A) → Memᴰ a (reverse_aux xs ys) → Memᴰ a xs ⊎ Memᴰ a ys
  mem-reverse_aux a [] ys m = inr m
  mem-reverse_aux a (x ∷ xs) ys m = elim (mem-reverse_aux a xs (x ∷ ys) m) [
    | inl old ↦ inl (tail old)
    | inr moved ↦ elim (cases_cons moved) [ inl same ↦ inl (head same) | inr rest ↦ inr rest ]
  ]

  -- what is in a sorted list was in the list
  pub mem-sort_by : (a : A) (xs : List A) → Memᴰ a (sort_by less xs) → Memᴰ a xs
  unfolding sort_by
  mem-sort_by a xs m = elim (mem-reverse_aux a (foldl (λ acc x. sink less x acc) [] xs) [] m) [
    | inr nowhere ↦ absurd (not-nil nowhere)
    | inl sunk ↦ elim (mem-sunk a [] xs sunk) [
      | inl nowhere ↦ absurd (not-nil nowhere)
      | inr there ↦ there
    ]
  ]
