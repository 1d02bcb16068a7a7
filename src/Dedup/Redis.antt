-- ===== src/Dedup/Redis.antt =====
-- `RedisStore` of internal/dedup/dedup.go.
use tide.Prelude.{ℕ, ◌*◌, zero, suc, String, ◌<>◌, Bool, not, Result, ok, err}
use tide.Schemas.Clock.{Time, hour}
use tide.Redis.{Client}

abbrev pub seen_key : String → String
seen_key key = "tide:dedup:" <> key

-- `NewRedisStore`: a zero window means a day.
unfoldable pub ttl_or_day : ℕ → ℕ
ttl_or_day zero = 24 * hour
ttl_or_day (suc n) = suc n

module _ {X B W : Type 0} (client : Client X B W) (one : B) (ttl : ℕ) where
  abbrev pub negated : Result X Bool → Result X Bool
  negated (err x) = err x
  negated (ok set) = ok (not set)

  -- `Seen` at the time `now`; `one` is the value "1"
  unfoldable pub seen : Time → String → W → Result X Bool × W
  seen now key w =
      let (answer, w') = client.set_nx now (seen_key key) one ttl w in (negated answer, w')
