-- ===== src/Api/Throttle.antt =====
-- internal/api/security.go: the limiter before a handler, and the number that its refusal carries.
pub mod Laws
use tide.Prelude.{
  ℕ, zero, suc, ◌+◌, ◌/◌, ◌%◌, String, eqb, if◌then◌else◌, Option, none, some, ℤ, pos, negsuc, List,
  [], ◌∷◌,
}
use tide.Schemas.Clock.{Time, Duration}
use tide.Api.{RateLimiter, allow}
use tide.Api.Replies.{Reply, refused}

-- The loop of `itoa`: `room` is the index `i` in the array, `out` what is written after it. `none` is the
-- panic of a write before the array.
unfoldable pub digits : ℕ → ℕ → List ℕ → Option (List ℕ)
digits zero n out = if eqb n 0 then some out else none
digits (suc room) n out =
    let rest = digits room (n / 10) ((48 + n % 10) ∷ out) in if eqb n 0 then some out else rest

-- `itoa`, as the bytes of the string.
unfoldable pub itoa : ℤ → Option (List ℕ)
unfolding digits
itoa (negsuc n) = some []
itoa (pos zero) = some (48 ∷ [])
itoa (pos (suc n)) = digits 8 (suc n) []

-- A request that the handler answers, one that is refused with the bytes of its Retry-After header, and
-- the panic of `itoa`.
pub data Throttled (A : Type 0) : Type 0 where
  handled : A → Throttled A
  limited : List ℕ → Reply A → Throttled A
  panicked : Throttled A

abbrev suc_ℤ : ℤ → ℤ
suc_ℤ (pos n) = pos (suc n)
suc_ℤ (negsuc zero) = pos 0
suc_ℤ (negsuc (suc n)) = negsuc n

abbrev refusal : {A : Type 0} → Option (List ℕ) → Throttled A
refusal none = panicked
refusal (some secs) = limited secs (refused 429 "rate limit exceeded")

-- `clientIP`, by the host that `SplitHostPort` finds in the remote address.
unfoldable pub client_ip : (String → Option String) → String → String
client_ip split_host remote = elim (split_host remote) [ some host ↦ host | none ↦ remote ]

-- `middleware` for the client `ip`, before the handler `next`; `seconds` is `int(retry.Seconds())`.
unfoldable pub middleware :
    {A W : Type 0}
    → (seconds : Duration → ℤ) → (next : W → A × W) → Time
    → String
    → RateLimiter × W
    → Throttled A × RateLimiter × W
middleware seconds next now ip (l, w) =
    let (answer, l') = allow now ip l in
    let (a, w') = next w in
    if answer.0 then (handled a, l', w') else (refusal (itoa (suc_ℤ (seconds answer.1))), l', w)
