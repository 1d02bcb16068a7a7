-- ===== src/Api/Forward/Laws.antt =====
-- What the messages of the engine leave in the registry of the API (cmd/tide-engine/server.go,
-- adapters/registry/registry.go, internal/eventbus/eventbus.go and cmd/tide-api/server.go together).
use tide.Prelude.{
  String, false, ◌≡◌, ◌∙◌, refl, ap, Option, none, some, List, [], ◌∷◌, ◌++◌, All, ok, ◌≢◌, pos,
  ◌==◌, eq_iff, Bool-cases, inl, inr, foldl, split, map, if◌then◌else◌, lookup, lookup-insert,
}
use tide.Schemas.Clock.{Time, is_zero}
use tide.Schemas.Payload.{get}
use tide.Schemas.Runtime.{Runtime}
use tide.Schemas.Events.{Event, is_transition, valid_suffix}
use tide.Schemas.Events.Laws.{IsWellFormed, validate_of_IsWellFormed}
use tide.Adapters.{
  HealthState, HealthStatus, configured, connecting, healthy, degraded, reconnecting, failed,
}
use tide.Adapters.Registry
use tide.Adapters.Registry.{Environment, configure, heartbeat, heartbeats, state_name}
use tide.Adapters.Registry.Laws.{IsNamed, configure-IsNamed, heartbeat-IsWellFormed}
use tide.EventBus.Nats.{Wire, NatsError, publish_nats}
use tide.Engine
use tide.Engine.{Bundle, engine_heartbeat}
use tide.Api.Connections.{AdapterRegistry, RegistryEntry, set}
use tide.Api.Forward.{state_of, string_of, status_with, heartbeat_status, receive}

state_of-state_name : (s : HealthState) → state_of (state_name s) ≡ s
state_of-state_name configured = refl
state_of-state_name connecting = refl
state_of-state_name healthy = refl
state_of-state_name degraded = refl
state_of-state_name reconnecting = refl
state_of-state_name failed = refl

module _ {F B : Type 0} (encode : Event F → B) where
  -- A NATS that keeps what it is sent, in order.
  abbrev pub kept : Wire F String B (List B)
  kept = record { marshal = λ e. some (encode e); send = λ to raw q. (none, q ++ (raw ∷ [])) }

  -- An engine with no states, whose bus is that NATS.
  abbrev pub wired : Bundle F (NatsError String) (List B)
  wired = record {
    list_ids = none;
    get = λ id q. (ok none, q);
    set = λ s q. (none, q);
    publish = publish_nats kept;
  }

module _ {F B W : Type 0} ⦃r : Runtime F⦄ (decode : B → Option (Event F)) (inject : Event F → W → W)
    (at : Time) where
  abbrev pub receive_all : List B → AdapterRegistry F × W → AdapterRegistry F × W
  receive_all msgs s = foldl (λ s raw. receive inject at (decode raw) s) s msgs

  receive_all-snoc :
      (msgs : List B) (raw : B) (s : AdapterRegistry F × W)
      → receive_all (msgs ++ (raw ∷ [])) s ≡ receive inject at (decode raw) (receive_all msgs s)
  receive_all-snoc [] raw s = refl
  receive_all-snoc (m ∷ msgs) raw s = receive_all-snoc msgs raw (receive inject at (decode m) s)

module _ {F : Type 0} ⦃r : Runtime F⦄ (at : Time) where
  open r use {of_int}

  abbrev beaten : String → HealthState → AdapterRegistry F → AdapterRegistry F
  beaten name s registry = set name (status_with s "via tide.heartbeat") at registry

  -- the entry of a source whose heartbeat told this state
  abbrev pub told : HealthState → RegistryEntry F
  told s = record {
    status = record {
      state = s;
      message = "via tide.heartbeat";
      device_count = pos 0;
      msg_per_sec = of_int (pos 0);
    };
    seen = at;
  }

  -- The entry of a name after heartbeats with these names and states: the last one counts.
  abbrev pub shown_last :
      String → List (String × HealthState) → Option (RegistryEntry F) → Option (RegistryEntry F)
  shown_last name [] old = old
  shown_last name ((other, s) ∷ beats) old =
      shown_last name beats (if other == name then some (told s) else old)

  -- Every source with the state that it has at the engine.
  abbrev noted :
      (Registry.Adapter → HealthStatus F)
      → List Registry.Adapter
      → AdapterRegistry F
      → AdapterRegistry F
  noted health [] registry = registry
  noted health (a ∷ regs) registry = noted health regs (beaten a.name (health a).state registry)

  entries_noted :
      (name : String) (health : Registry.Adapter → HealthStatus F) (regs : List Registry.Adapter)
      (registry : AdapterRegistry F)
      → lookup name (noted health regs registry).entries
        ≡ shown_last name
            (map (λ a. (a.name, (health a).state)) regs)
            (lookup name registry.entries)
  unfolding set
  entries_noted name health [] registry = refl
  entries_noted name health (a ∷ regs) registry =
      entries_noted name health regs (beaten a.name (health a).state registry)
      ∙ ap (shown_last name (map (λ a. (a.name, (health a).state)) regs))
          (lookup-insert a.name name (told (health a).state) registry.entries)

-- What the API reads of a heartbeat comes back from the encoding as it was: the kind of the event, and
-- the texts under "name" and "state" of its payload.
abbrev pub IsReadBack : {F B : Type 0} → (Event F → B) → (B → Option (Event F)) → Event F → Type 0
IsReadBack {F} encode decode e =
    (d : Event F) × (decode (encode e) ≡ some d)
    × (d.kind ≡ e.kind)
    × (string_of (get "name" d.payload) ≡ string_of (get "name" e.payload))
    × (string_of (get "state" d.payload) ≡ string_of (get "state" e.payload))

module _ {F B W : Type 0} ⦃r : Runtime F⦄ (encode : Event F → B) (decode : B → Option (Event F))
    (inject : Event F → W → W) (now at : Time) (given : is_zero now ≡ false)
    (health : Registry.Adapter → HealthStatus F) (elapsed : Registry.Adapter → F) where
  publish_nats-keeps :
      (e : Event F) (q : List B)
      → IsWellFormed e
      → publish_nats (kept encode) e q ≡ (none, q ++ (encode e ∷ []))
  unfolding publish_nats
  publish_nats-keeps e q w = rw (validate_of_IsWellFormed e w, publish_nats) refl

  -- a heartbeat that names a source and its state
  receive-beat :
      (d : Event F) (name : String) (s : HealthState) (registry : AdapterRegistry F) (w : W)
      → d.kind ≡ "tide.heartbeat.created"
      → string_of (get "name" d.payload) ≡ name
      → string_of (get "state" d.payload) ≡ state_name s
      → name ≢ ""
      → receive inject at (some d) (registry, w) ≡ (beaten at name s registry, w)
  unfolding receive heartbeat_status
  receive-beat d name s registry w kind names states named = elim (Bool-cases (name == "")) [
    | inl empty ↦ absurd (named ((eq_iff name "").0 empty))
    | inr other ↦ rw (kind, names, states, other, state_of-state_name s) refl
  ]

  -- one more message, after those that gave the registry
  received :
      (e : Event F) (q : List B) (s : AdapterRegistry F × W) (name : String) (h : HealthState)
      (registry : AdapterRegistry F) (w : W)
      → IsReadBack encode decode e
      → e.kind ≡ "tide.heartbeat.created"
      → string_of (get "name" e.payload) ≡ name
      → string_of (get "state" e.payload) ≡ state_name h
      → name ≢ ""
      → receive_all decode inject at q s ≡ (registry, w)
      → receive_all decode inject at (q ++ (encode e ∷ [])) s ≡ (beaten at name h registry, w)
  received e q s name h registry w (d, reads, same, name_kept, state_kept) kind names states named
        before =
      receive_all-snoc decode inject at q (encode e) s
      ∙ ap (λ o. receive inject at o (receive_all decode inject at q s)) reads
      ∙ ap (receive inject at (some d)) before
      ∙ receive-beat d name h registry w (same ∙ kind) (name_kept ∙ names) (state_kept ∙ states)
          named

  heartbeats-noted :
      (regs : List Registry.Adapter) (q : List B) (s : AdapterRegistry F × W)
      (registry : AdapterRegistry F) (w : W)
      → All IsNamed regs
      → All (λ a. IsReadBack encode decode (heartbeat now health elapsed a)) regs
      → receive_all decode inject at q s ≡ (registry, w)
      → receive_all decode inject at
          (heartbeats (publish_nats (kept encode)) now health elapsed regs q)
          s
        ≡ (noted at health regs registry, w)
  unfolding heartbeats heartbeat get
  heartbeats-noted [] q s registry w named reads before = before
  heartbeats-noted (a ∷ regs) q s registry w (name, named) (read, reads) before =
      let e = heartbeat now health elapsed a in
      let next = beaten at a.name (health a).state registry in
      let sent = publish_nats-keeps e q (heartbeat-IsWellFormed now health elapsed a given name) in
      let msgs =
        λ (q' : List B). heartbeats (publish_nats (kept encode)) now health elapsed regs q' in
      ap (λ (p : Option (NatsError String) × List B). receive_all decode inject at (msgs p.1) s)
        sent
      ∙ heartbeats-noted regs (q ++ (encode e ∷ [])) s next w named reads
          (received e q s a.name (health a).state registry w read refl refl refl name before)

  engine_heartbeat-IsWellFormed : IsWellFormed {F = F} (engine_heartbeat now)
  unfolding is_transition valid_suffix split
  engine_heartbeat-IsWellFormed = record {
    id_given = (λ e. absurd (cc e));
    kind_given = (λ e. absurd (cc e));
    tenant_given = (λ e. absurd (cc e));
    vehicle_given = (λ e. absurd (cc e));
    kind_transition = refl;
    timestamp_given = given;
    correlation_given = (λ e. absurd (cc e));
    schema_current = refl;
  }

  engine-noted :
      (env : Environment) (registry : AdapterRegistry F) (w : W)
      → IsReadBack encode decode (engine_heartbeat now)
      → All (λ a. IsReadBack encode decode (heartbeat now health elapsed a)) (configure env)
      → receive_all decode inject at
          (Engine.heartbeat (wired encode) now health elapsed (configure env) [])
          (registry, w)
        ≡ (noted at health (configure env) (beaten at "tide-engine" healthy registry), w)
  unfolding Engine.heartbeat get
  engine-noted env registry w read reads =
      let e = engine_heartbeat now in
      let sent = publish_nats-keeps e [] engine_heartbeat-IsWellFormed in
      let msgs = λ (q' : List B).
        heartbeats (publish_nats (kept encode)) now health elapsed (configure env) q' in
      let first = beaten at "tide-engine" healthy registry in
      ap
        (λ (p : Option (NatsError String) × List B).
          receive_all decode inject at (msgs p.1) (registry, w))
        sent
      ∙ heartbeats-noted (configure env) (encode e ∷ []) (registry, w) first w
          (configure-IsNamed env) reads
          (received e [] (registry, w) "tide-engine" healthy registry w read refl refl refl
            (λ e. absurd (cc e)) refl)

  -- The heartbeats of the engine reach the connections of the API: where NATS keeps the messages in order
  -- and JSON gives back the kind, the name and the state of each heartbeat that is sent, then after all of
  -- them the entry of every name in the registry is the one of the last heartbeat with that name, or as
  -- before where there is none, and nothing else in the API changes. The heartbeats are that of the engine,
  -- as healthy, and then one for each source that the environment configures, with the state that it has
  -- at the engine, and an entry has the time of its arrival.
  pub heartbeat-receive_all :
      (env : Environment) (registry : AdapterRegistry F) (w : W)
      → IsReadBack encode decode (engine_heartbeat now)
      → All (λ a. IsReadBack encode decode (heartbeat now health elapsed a)) (configure env)
      → let sent = Engine.heartbeat (wired encode) now health elapsed (configure env) [] in
        let (registry', w') = receive_all decode inject at sent (registry, w) in
        ((name : String)
          → lookup name registry'.entries
            ≡ shown_last at name
                (("tide-engine", healthy) ∷ map (λ a. (a.name, (health a).state)) (configure env))
                (lookup name registry.entries))
        × (w' ≡ w)
  unfolding set
  heartbeat-receive_all env registry w read reads =
      let noted_all = engine-noted env registry w read reads in
      (
        λ name.
            ap (λ (p : AdapterRegistry F × W). lookup name p.0.entries) noted_all
            ∙ entries_noted at name health (configure env)
                (beaten at "tide-engine" healthy registry)
            ∙ ap (shown_last at name (map (λ a. (a.name, (health a).state)) (configure env)))
                (lookup-insert "tide-engine" name (told at healthy) registry.entries),
        ap (λ p. p.1) noted_all,
      )
