-- ===== src/Api/Throttle/Laws.antt =====
-- The bytes that itoa of internal/api/security.go writes.
use tide.Prelude.{
  String, ℤ, ℕ, zero, suc, ◌+◌, ◌-◌, ◌*◌, ◌/◌, ◌%◌, ◌^◌, ◌≤◌, ◌<◌, ◌≡◌, ◌∙◌, refl, ap, arith, eqb,
  true, false, Option, none, some, pos, List, [], ◌∷◌, Bool-cases, inl, inr,
}
use tide.Schemas.Clock.{Time, Duration}
use tide.Api.{RateLimiter, allow}
use tide.Api.Throttle.{digits, itoa, middleware, handled}

-- The number that decimal digits stand for, after those of the number `n`.
abbrev value_after : ℕ → List ℕ → ℕ
value_after n [] = n
value_after n (b ∷ bs) = value_after (n * 10 + (b - 48)) bs

abbrev pub value : Option (List ℕ) → Option ℕ
value none = none
value (some bs) = some (value_after 0 bs)

digits-value :
    (room n : ℕ) (out : List ℕ)
    → n < 10 ^ room
    → value (digits room n out) ≡ some (value_after n out)
unfolding digits
digits-value zero n out below = elim (Bool-cases (eqb n 0)) [
  | inl done ↦ rw done (ap (λ m. some (value_after m out)) (ground (arith, done)))
  | inr more ↦ absurd (ground (arith, below, more))
]
digits-value (suc room) n out below = elim (Bool-cases (eqb n 0)) [
  | inl done ↦ rw done (ap (λ m. some (value_after m out)) (ground (arith, done)))
  | inr more ↦ rw more (
      digits-value room (n / 10) ((48 + n % 10) ∷ out) (omega (arith, below))
      ∙ ap (λ m. some (value_after m out)) (omega arith))
]

positive : (room : ℕ) → 1 ≤ 10 ^ room
positive zero = omega arith
positive (suc room) = omega (arith, positive room)

digits-none : (room n : ℕ) (out : List ℕ) → 10 ^ room ≤ n → digits room n out ≡ none
unfolding digits
digits-none zero n out above = ground (arith, above)
digits-none (suc room) n out above = elim (Bool-cases (eqb n 0)) [
  | inl done ↦ absurd (ground (arith, done, above, positive room))
  | inr more ↦ rw more (digits-none room (n / 10) ((48 + n % 10) ∷ out) (omega (arith, above)))
]

-- A count of seconds below 10^8 is written as the decimal digits that stand for it, and any from there on
-- makes the writing panic, since the array has eight bytes.
pub itoa_lem :
    (n : ℕ) → (n < 10 ^ 8 → value (itoa (pos n)) ≡ some n) × (10 ^ 8 ≤ n → itoa (pos n) ≡ none)
unfolding itoa
itoa_lem zero = (λ _. refl, λ above. absurd (omega (arith, above)))
itoa_lem (suc n) = (digits-value 8 (suc n) [], digits-none 8 (suc n) [])

-- The handler runs for the requests that pass, and for no other: those leave its world as it was. In both
-- cases the limiter counts the request.
middleware_lem :
    {A W : Type 0} (seconds : Duration → ℤ) (next : W → A × W) (now : Time) (ip : String)
    (l : RateLimiter) (w : W)
    → let (answer, l') = allow now ip l in
      let (through, counted, w') = middleware seconds next now ip (l, w) in
      (counted ≡ l')
      × (answer.0 ≡ true → (through ≡ handled (next w).0) × (w' ≡ (next w).1))
      × (answer.0 ≡ false → w' ≡ w)
unfolding middleware
middleware_lem seconds next now ip l w = ground arith
