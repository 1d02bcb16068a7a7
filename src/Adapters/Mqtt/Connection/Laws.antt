-- ===== src/Adapters/Mqtt/Connection/Laws.antt =====
-- How the connection of adapters/mqtt/mqtt.go comes to an end.
use tide.Prelude.{
  ℕ, zero, suc, ◌≡◌, ◌≤◌, ◌+◌, ◌*◌, ltb, Bool-cases, Option-cases, arith, inl, inr, refl, ap, true,
  false,
}
use tide.Schemas.Clock.{nanos}
use tide.Adapters.{HealthState, healthy, failed, reconnecting, connecting}
use tide.Adapters.Mqtt.Connection.{
  Adapter, Net, Ending, connected, stopped, running, connect, connect_from, next_backoff, set_state,
  first_backoff,
}

-- The state that belongs to an end of the loop, and the dial that it comes from: one that succeeded and
-- was the last thing to happen, or one that failed. A run that is cut off has none.
abbrev pub IsLeftAs : {W : Type 0} → Net W → Ending → HealthState → W → Type 0
IsLeftAs {W} net connected s w = (s ≡ healthy) × (w₀ : W) × (net.dial w₀ ≡ (true, w))
IsLeftAs {W} net (stopped e) s w = (s ≡ failed) × (w₀ : W) × ((net.dial w₀).0 ≡ false)
IsLeftAs net running s w = ⊥

abbrev pub Ends : {W : Type 0} → Net W → Adapter → Ending × Adapter × W → Type 0
Ends net a (ending, a', w) = (a'.cfg ≡ a.cfg) × IsLeftAs net ending a'.state w

-- no pause is asked for that is longer than thirty seconds
pub next_backoff_le : (b : ℕ) → next_backoff b ≤ 30 * nanos
next_backoff_le b = ground arith

module _ {W : Type 0} (net : Net W) where
  open net use {dial, pause, print_attempt}

  connect_from-Ends :
      (fuel attempt backoff : ℕ) (a : Adapter) (w : W)
      → 10 ≤ fuel + attempt
      → (attempt ≤ 9)
      → Ends net a (connect_from net fuel attempt backoff a w)
  unfolding connect_from set_state
  connect_from-Ends zero attempt backoff a w h k = absurd (omega arith)
  connect_from-Ends (suc fuel) attempt backoff a w h k = elim (Bool-cases (dial w).0) [
    | inl up ↦ rw up (refl, (refl, w, ap (λ b. (b, (dial w).1)) up))
    | inr down ↦ elim (Option-cases (pause backoff (dial w).1).0) [
      | inl waited ↦ elim (Bool-cases (ltb 8 attempt)) [
        | inl last ↦ rw (down, waited, last) (refl, (refl, w, down))
        | inr more ↦
            rw (down, waited, more)
              (connect_from-Ends fuel (attempt + 1) (next_backoff backoff)
                (set_state reconnecting (print_attempt (attempt + 1)) a)
                (pause backoff (dial w).1).1 (omega arith) (ground (arith, more)))
      ]
      | inr (msg, cancelled) ↦ rw (down, cancelled) (refl, (refl, w, down))
    ]
  ]

  -- Whatever the network does, ten rounds of the loop are enough: the loop reports a connection, the adapter is
  -- healthy, and the last thing that happened is a dial that succeeded; or there is an error and the adapter
  -- has failed, and there was a dial that failed. Its configuration stays as it was.
  pub connect-Ends : (more : ℕ) (a : Adapter) (w : W) → Ends net a (connect net (10 + more) a w)
  unfolding connect set_state
  connect-Ends more a w =
      connect_from-Ends (10 + more) 0 first_backoff (set_state connecting "" a) w (omega arith)
        (omega arith)
