-- ===== src/EventBus/Subscription.antt =====
-- `SubscribeResilient` of internal/eventbus/eventbus.go: the loop that keeps a subscription alive. What NATS
-- answers and when the context ends are left open: each is a step that may follow.
pub mod Laws
use tide.Prelude.{ℕ, ◌+◌, ◌-◌, ◌*◌, ltb, if◌then◌else◌}
use tide.Schemas.Clock.{nanos}

-- Where the loop stands.
pub data Place : Type 0 where
  -- the head of the loop
  dialling : Place
  -- waiting for the backoff
  waiting : Place
  -- connected and not yet subscribed
  connected : Place
  -- subscribed, between two ticks
  watching : Place
  returned : Place

-- The loop, with the connections and the subscriptions that are open, and how often it has dialled and
-- waited.
pub record Loop : Type 0 where
  pub place : Place
  pub backoff : ℕ
  pub conns : ℕ
  pub subs : ℕ
  pub dials : ℕ
  pub waits : ℕ

abbrev pub first_backoff : ℕ
first_backoff = nanos

abbrev pub start : Loop
start = record {
  place = dialling;
  backoff = first_backoff;
  conns = 0;
  subs = 0;
  dials = 0;
  waits = 0;
}

-- The backoff after a wait.
abbrev pub longer : ℕ → ℕ
longer backoff = if ltb backoff (30 * nanos) then backoff * 2 else backoff

-- One step, from a loop that stands at the place that is named.
pub data Step (s : Loop) : Place → Loop → Type 0 where
  -- the context has ended
  done_at_head : Step s dialling (record s { place = returned })
  dial_fails : Step s dialling (record s { place = waiting; dials = s.dials + 1 })
  done_in_wait : Step s waiting (record s { place = returned })
  wait_is_over :
      Step s waiting
        (record s { place = dialling; backoff = longer s.backoff; waits = s.waits + 1 })
  dial_succeeds : Step s dialling (record s {
    place = connected;
    backoff = first_backoff;
    conns = s.conns + 1;
    dials = s.dials + 1;
  })
  subscribe_fails : Step s connected (record s { place = dialling; conns = s.conns - 1 })
  subscribe_succeeds : Step s connected (record s { place = watching; subs = s.subs + 1 })
  tick_finds_it_alive : Step s watching (record s { place = watching })
  tick_finds_it_dead :
      Step s watching (record s { place = dialling; subs = s.subs - 1; conns = s.conns - 1 })
  done_in_watch :
      Step s watching (record s { place = returned; subs = s.subs - 1; conns = s.conns - 1 })

pub data Reach : Loop → Type 0 where
  begin : Reach start
  next : {s t : Loop} → Reach s → Step s s.place t → Reach t
