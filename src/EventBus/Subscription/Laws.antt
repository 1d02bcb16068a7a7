-- ===== src/EventBus/Subscription/Laws.antt =====
-- What the loop of `SubscribeResilient` (internal/eventbus/eventbus.go) keeps open.
use tide.Prelude.{inl, ◌⊎◌, subst, sym, ℕ, zero, suc, ◌+◌, ◌*◌, ◌≡◌, refl, arith}
use tide.Schemas.Clock.{nanos}
use tide.EventBus.Subscription.{
  first_backoff, Place, dialling, connected, watching, Loop, start, longer, Step, done_at_head,
  dial_fails, done_in_wait, wait_is_over, dial_succeeds, subscribe_fails, subscribe_succeeds,
  tick_finds_it_alive, tick_finds_it_dead, done_in_watch, Reach, begin, next,
}

abbrev pub open_conns : Place → ℕ
open_conns connected = 1
open_conns watching = 1
open_conns _ = 0

abbrev pub open_subs : Place → ℕ
open_subs watching = 1
open_subs _ = 0

-- One second, doubled up to five times.
abbrev pub IsDoubled : ℕ → Type 0
IsDoubled b =
    (b ≡ nanos)
    ⊎ (b ≡ 2 * nanos)
    ⊎ (b ≡ 4 * nanos)
    ⊎ (b ≡ 8 * nanos)
    ⊎ (b ≡ 16 * nanos)
    ⊎ (b ≡ 32 * nanos)

longer-IsDoubled : (b : ℕ) → IsDoubled b → IsDoubled (longer b)
longer-IsDoubled b h = ground (arith, h)

-- What is open is what the place needs.
abbrev pub IsTidyAt : Place → Loop → Type 0
IsTidyAt p s = (s.conns ≡ open_conns p) × (s.subs ≡ open_subs p) × IsDoubled s.backoff

Step-IsTidy : {s t : Loop} {p : Place} → Step s p t → IsTidyAt p s → IsTidyAt t.place t
Step-IsTidy done_at_head h = h
Step-IsTidy dial_fails h = h
Step-IsTidy done_in_wait h = h
Step-IsTidy {s} wait_is_over (conns, subs, b) = (conns, subs, longer-IsDoubled s.backoff b)
Step-IsTidy dial_succeeds (conns, subs, b) = (omega (arith, conns), subs, inl refl)
Step-IsTidy subscribe_fails (conns, subs, b) = (omega (arith, conns), subs, b)
Step-IsTidy subscribe_succeeds (conns, subs, b) = (conns, omega (arith, subs), b)
Step-IsTidy tick_finds_it_alive h = h
Step-IsTidy tick_finds_it_dead (conns, subs, b) = (omega (arith, conns), omega (arith, subs), b)
Step-IsTidy done_in_watch (conns, subs, b) = (omega (arith, conns), omega (arith, subs), b)

-- Whatever NATS answers and whenever the context ends, the loop has at every moment one connection open
-- where it is connected or watches, one subscription where it watches, and none of either elsewhere, so
-- that nothing is left open when it returns; and its backoff is one second, doubled up to five times.
pub Reach-IsTidy : {s : Loop} → Reach s → IsTidyAt s.place s
Reach-IsTidy begin = (refl, refl, inl refl)
Reach-IsTidy (next r st) = Step-IsTidy st (Reach-IsTidy r)

-- A subscription that fails on a new connection is tried again at once: the loop can dial any number of
-- times without having waited.
pub dials_without_wait :
    (n : ℕ) → (s : Loop) × Reach s × (s.place ≡ dialling) × (s.dials ≡ n) × (s.waits ≡ 0)
dials_without_wait zero = (start, begin, refl, refl, refl)
dials_without_wait (suc n) =
    let (s, r, at, dials, waits) = dials_without_wait n in
    let up : Loop = record s {
      place = connected;
      backoff = first_backoff;
      conns = s.conns + 1;
      dials = s.dials + 1;
    } in
    let dialled = subst (λ p. Step s p up) (sym at) dial_succeeds in
    (_, next (next r dialled) subscribe_fails, refl, omega (arith, dials), waits)
