-- ===== src/Redis.antt =====
-- What internal/state/state.go and internal/dedup/dedup.go use of the Redis client, as a parameter.
use tide.Prelude.{ℕ, String, Bool, Option, List, Result}
use tide.Schemas.Clock.{Time}

-- A client over a world `W`, with errors `X`; a value is a sequence of bytes, of a type `B`.
pub record Client (X B W : Type 0) : Type 0 where
  -- GET: `none` is `redis.Nil`
  pub get : String → W → Result X (Option B) × W
  -- SET without an expiry
  pub set : String → B → W → Option X × W
  -- SET NX with an expiry, at a time: whether the key was set
  pub set_nx : Time → String → B → ℕ → W → Result X Bool × W
  -- SCAN with a prefix: what the iterator gives, and its error
  pub scan : String → W → (List String × Option X) × W
