-- ===== src/Commands.antt =====
-- cmd/tide/simulate.go: the points of a simulation, posted to the API in batches. cmd/tide/replay.go: the
-- comparison of two replays.
pub mod Laws
use tide.Prelude.{
  ℕ, zero, suc, ◌+◌, String, Bool, true, false, ◌&&◌, ◌==◌, eqb, if◌then◌else◌, Option, none, some,
  List, [], ◌∷◌, length,
}
use tide.Schemas.Events.{Event}

-- What a POST of a batch gives: an error of the client, or the status of the answer.
pub data Posted : Type 0 where
  unreachable : String → Posted
  replied : ℕ → Posted

-- The two errors of `postBatches`.
pub data SendError : Type 0 where
  post_failed : String → SendError
  api_returned : ℕ → SendError

-- The points that were sent, and the error that ended the loop.
abbrev pub Sent : Type 0
Sent = ℕ × Option SendError

abbrev pub chunk : ℕ
chunk = 100

-- The first `n` elements, and the others.
abbrev pub cut {ℓ} : {A : Type ℓ} → ℕ → List A → List A × List A
cut zero xs = ([], xs)
cut (suc n) [] = ([], [])
cut (suc n) (x ∷ xs) = let (batch, others) = cut n xs in (x ∷ batch, others)

-- What follows an answer: the next batch, or the end with the points that were sent before this one.
abbrev pub after_post {ℓ} : {W : Type ℓ} → Posted → ℕ → W → Sent × W → Sent × W
after_post (unreachable e) sent w next = ((sent, some (post_failed e)), w)
after_post (replied status) sent w next =
    if eqb status 202 then next else ((sent, some (api_returned status)), w)

module _ {A W : Type 0} (post : List A → W → Posted × W) where
  -- The loop of `postBatches` over `pts[i:]`, a round for each unit of fuel.
  unfoldable pub post_from : ℕ → List A → ℕ → W → Sent × W
  post_from zero pts sent w = ((sent, none), w)
  post_from (suc fuel) [] sent w = ((sent, none), w)
  post_from (suc fuel) (p ∷ pts) sent w =
      let (batch, others) = cut chunk (p ∷ pts) in
      let (answer, w') = post batch w in
      after_post answer sent w' (post_from fuel others (sent + length batch) w')

  -- `postBatches`, without the ticker that spaces the batches. There are no more batches than points.
  unfoldable pub post_batches : List A → W → Sent × W
  unfolding post_from
  post_batches pts w = post_from (length pts) pts 0 w

module _ {F : Type 0} where
  -- The loop over the identifiers of two replays.
  abbrev pub same_ids : List (Event F) → List (Event F) → Bool
  same_ids [] es = true
  same_ids (d ∷ ds) [] = true
  same_ids (d ∷ ds) (e ∷ es) = if d.id == e.id then same_ids ds es else false

  -- `deterministic` of `runReplay`.
  unfoldable pub is_deterministic : List (Event F) → List (Event F) → Bool
  is_deterministic ds es = eqb (length ds) (length es) && same_ids ds es
