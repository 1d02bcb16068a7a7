-- ===== src/Boot/Services/Laws.antt =====
-- What the bus that `Build` makes delivers to the memory of the process (internal/boot/boot.go).
use tide.Prelude.{◌≡◌, refl, sym, ap, ◌∙◌, Option, none, some, List, [], ◌∷◌, ◌++◌, All}
use mathlib.Core.List.{append_assoc, append-nil}
use tide.Schemas.Clock.{Time}
use tide.Schemas.Runtime.{Runtime}
use tide.Schemas.Events.{Event, validate}
use tide.EventBus.{
  Bus, publish_memory, Transport, Dialled, connected, refused, Resilient, publish_resilient,
}
use tide.EventBus.Laws.{fan_out_lem}
use tide.Pipeline.{Ports, Clock, publish_all}
use tide.Boot.Services.{Buses, BusError, build_bus, bus_for, to_memory, to_nats, over_nats, sent_on}

-- A valid event that is handed to the bus is at the end of the memory, whatever the bus answers.
abbrev pub Records : {F C E W : Type 0} → Bus F (BusError E) (Buses F C E W) → Type 0
Records {F} {C} {E} {W} bus =
    (e : Event F) (b : Buses F C E W)
    → validate e ≡ none
    → (bus e b).1.mem.events ≡ b.mem.events ++ (e ∷ [])

module _ {F C E W : Type 0} where
  to_memory-records :
      (e : Event F) (b : Buses F C E W)
      → validate e ≡ none
      → (to_memory e b).1.mem.events ≡ b.mem.events ++ (e ∷ [])
  unfolding publish_memory
  to_memory-records e b valid = rw (valid, publish_memory) refl

module _ {F C E W : Type 0} (net : Transport F C E W) (now : Time) where
  sent_on-keeps :
      (b : Buses F C E W) (x : Option E × (Resilient C E × W)) → (sent_on b x).1.mem ≡ b.mem
  sent_on-keeps b (none, (r, w)) = refl
  sent_on-keeps b (some e, (r, w)) = refl

  over_nats-keeps :
      (e : Event F) (nats : Option (Resilient C E)) (b : Buses F C E W)
      → (over_nats net now e nats b).1.mem ≡ b.mem
  over_nats-keeps e none b = refl
  over_nats-keeps e (some r) b = sent_on-keeps b (publish_resilient net now e (r, b.rest))

  bus_for-Records : (dialled : Dialled C E × W) → Records (bus_for net now dialled).0
  bus_for-Records (refused x, w) = λ e b valid. to_memory-records e b valid
  bus_for-Records (connected conn, w) = λ e b valid.
      ap (λ r. r.1.mem.events) (fan_out_lem (to_nats net now ∷ to_memory ∷ []) e b)
      ∙ to_memory-records e (to_nats net now e b).1 valid
      ∙ ap (λ m. m.events ++ (e ∷ [])) (over_nats-keeps e b.nats b)

-- What the memory has more is the first of the events, at least one where there is one, and all of them
-- where no publish failed.
abbrev pub Keeps :
    {F C E W : Type 0}
    → List (Event F)
    → Buses F C E W
    → Option (BusError E) × Buses F C E W
    → Type 0
Keeps {F} evs b (failure, b') =
    (sent : List (Event F)) × (rest : List (Event F)) × (evs ≡ sent ++ rest)
    × (b'.mem.events ≡ b.mem.events ++ sent)
    × (failure ≡ none → rest ≡ [])
    × (sent ≡ [] → evs ≡ [])

module _ {F C E W : Type 0} where
  after_publish :
      (e : Event F) (es : List (Event F)) (b b' : Buses F C E W) (failure : Option (BusError E))
      (next : Option (BusError E) × Buses F C E W)
      → b'.mem.events ≡ b.mem.events ++ (e ∷ [])
      → Keeps es b' next
      → Keeps (e ∷ es) b (elim failure [ some x ↦ (some x, b') | none ↦ next ])
  after_publish e es b b' (some x) next h keeps =
      (e ∷ [], es, refl, h, λ fine. absurd (cc fine), λ nothing. absurd (cc nothing))
  after_publish e es b b' none next h (sent, rest, parts, held, all, _) = (
    e ∷ sent,
    rest,
    ap (λ xs. e ∷ xs) parts,
    held ∙ ap (λ xs. xs ++ sent) h ∙ append_assoc b.mem.events (e ∷ []) sent,
    all,
    λ nothing. absurd (cc nothing),
  )

module _ {F C E W : Type 0} ⦃r : Runtime F⦄ (p : Ports F (BusError E) (Buses F C E W))
    (clock : Clock) where
  publish_all-Keeps :
      (bus : Bus F (BusError E) (Buses F C E W)) (evs : List (Event F)) (b : Buses F C E W)
      → Records bus
      → All (λ e. validate e ≡ none) evs
      → Keeps evs b (publish_all (record p { publish = bus }) clock evs b)
  unfolding publish_all
  publish_all-Keeps bus [] b records valid =
      ([], [], refl, sym (append-nil b.mem.events), λ fine. refl, λ nothing. refl)
  publish_all-Keeps bus (e ∷ es) b records (fine, others) =
      let (failure, b') = bus e b in
      after_publish e es b b' failure (publish_all (record p { publish = bus }) clock es b')
        (records e b fine) (publish_all-Keeps bus es b' records others)

  -- Whether NATS answers when the bus is built or not, the pipeline's loop over valid events leaves the
  -- memory bus with the first of them behind what it held, in their order: at least one where there is one,
  -- and all of them where no publish failed.
  pub publish_all-build_bus :
      (net : Transport F C E W) (now : Time) (w : W) (evs : List (Event F)) (b : Buses F C E W)
      → All (λ e. validate e ≡ none) evs
      → Keeps evs b (publish_all (record p { publish = (build_bus net now w).0 }) clock evs b)
  unfolding build_bus
  publish_all-build_bus net now w evs b valid =
      publish_all-Keeps (bus_for net now (net.dial w)).0 evs b
        (bus_for-Records net now (net.dial w)) valid
