-- ===== src/Adapters/Mqtt/Mapping/Laws.antt =====
-- What `MapPayload` of adapters/mqtt/mapping.go answers.
use mathlib.Core.Option.{get_or}
use tide.Prelude.{
  ap, sym, ◌≡◌, ◌≢◌, ◌↔◌, ◌==◌, ◌||◌, Bool-cases, arith, Option, none, some, String, inl, inr, refl,
  ℤ, pos, negsuc, ◌⊎◌, split, Result, ok, err, eq_iff,
}
use tide.Schemas.Clock.{Time}
use tide.Schemas.Payload.{Fields}
use tide.Schemas.Runtime.{Runtime}
use tide.Schemas.Telemetry.{Telemetry, Invalid, validate}
use tide.Schemas.Telemetry.Laws.{IsCanonical, validate-none_iff}
use tide.Adapters.Mqtt.Mapping.{
  MappingConfig, Error, Host, get_elem?, panicked, text_at, to_text, get_field, vehicle_id,
  topic_vehicle, mapped, checked, identified, map_payload,
}

abbrev pub IsNegative : Option ℤ → Type 0
IsNegative (some (negsuc n)) = Unit {0}
IsNegative _ = ⊥

panicked-at :
    (index : Option ℤ) (topic own : String)
    → own ≡ ""
    → (elim (topic_vehicle index topic) [ err e ↦ err e | ok found ↦ ok (get_or found own) ]
        ≡ err panicked)
      ↔ ((own ≡ "") × IsNegative index)
unfolding topic_vehicle
panicked-at none topic own e = ((λ h. absurd (cc h)), (λ (_, n). absurd n))
panicked-at (some (pos n)) topic own e = ((λ h. absurd (cc h)), (λ (_, n). absurd n))
panicked-at (some (negsuc n)) topic own e = ((λ h. (e, tt)), (λ h. refl))

vehicle_id-panicked :
    (cfg : MappingConfig) (topic : String) (named : Option String)
    → (vehicle_id cfg topic named ≡ err panicked)
      ↔ ((get_or named "" ≡ "") × IsNegative cfg.topic_vehicle_index)
unfolding vehicle_id topic_vehicle
vehicle_id-panicked cfg topic named = elim (Bool-cases (get_or named "" == "")) [
  | inl missing ↦ rw missing (
      panicked-at cfg.topic_vehicle_index topic (get_or named "")
        ((eq_iff (get_or named "") "").0 missing))
  | inr given ↦ rw given (
    (λ h. absurd (cc h)),
    (λ (e, _). absurd (ground (arith, given, e, eq_iff (get_or named "") ""))),
  )
]

-- the level of a topic at the index of the mapping
abbrev pub level : Option ℤ → String → String
level (some (pos i)) topic = get_or (get_elem? (split b'/' topic) i) ""
level _ topic = ""

module _ {F : Type 0} ⦃r : Runtime F⦄ (host : Host F) where
  checked-ok :
      (t : Telemetry F) (found : Option Invalid) {t' : Telemetry F}
      → checked host t found ≡ ok t'
      → (found ≡ none) × (t ≡ t')
  checked-ok t none h = (refl, cc h)
  checked-ok t (some x) h = absurd (cc h)

  checked-not_panicked :
      (t : Telemetry F) (found : Option Invalid) → checked host t found ≢ err panicked
  checked-not_panicked t none h = absurd (cc h)
  checked-not_panicked t (some x) h = absurd (cc h)

  -- What a message becomes, for the vehicle.
  abbrev pub IsMappedOf : MappingConfig → String → String → Time → Telemetry F → Type 0
  IsMappedOf cfg corr_id vehicle now t =
      IsCanonical t
      × (t.id ≡ "")
      × (t.tenant_id ≡ text_at "tenant" cfg.defaults)
      × (t.vehicle_id ≡ vehicle)
      × (t.metadata.correlation_id ≡ corr_id)
      × (t.received_at ≡ now)

  identified-ok :
      (cfg : MappingConfig) (doc : Fields F) (corr_id vehicle : String) (now : Time)
      {t : Telemetry F}
      → identified host cfg doc corr_id (ok vehicle) now ≡ ok t
      → IsMappedOf cfg corr_id vehicle now t
  unfolding identified mapped
  identified-ok cfg doc corr_id vehicle now {t = t} h =
      let m = mapped host cfg doc corr_id vehicle now in
      elim (Bool-cases (m.tenant_id == "" || m.vehicle_id == "")) [
        | inl missing ↦ absurd (cc (rw missing at h))
        | inr given ↦
            let (valid, same) = checked-ok m (validate m) (rw given at h) in
            rw (← same) ((validate-none_iff m).0 valid, refl, refl, refl, refl, refl)
      ]

  identified_ok-vehicle :
      (cfg : MappingConfig) (doc : Fields F) (corr_id : String) (v : Result Error String)
      (now : Time) {t : Telemetry F}
      → identified host cfg doc corr_id v now ≡ ok t
      → IsMappedOf cfg corr_id t.vehicle_id now t × (v ≡ ok t.vehicle_id)
  unfolding identified
  identified_ok-vehicle cfg doc corr_id (err e) now h = absurd (cc h)
  identified_ok-vehicle cfg doc corr_id (ok v) now {t = t} h =
      let (canonical, unnamed, tenant, vehicle, corr, arrival) =
        identified-ok cfg doc corr_id v now {t = t} h in
      ((canonical, unnamed, tenant, refl, corr, arrival), ap ok (sym vehicle))

  identified-not_panicked :
      (cfg : MappingConfig) (doc : Fields F) (corr_id v : String) (now : Time)
      → identified host cfg doc corr_id (ok v) now ≢ err panicked
  unfolding identified mapped
  identified-not_panicked cfg doc corr_id v now h =
      let m = mapped host cfg doc corr_id v now in
      elim (Bool-cases (m.tenant_id == "" || m.vehicle_id == "")) [
        | inl missing ↦ absurd (cc (rw missing at h))
        | inr given ↦ checked-not_panicked m (validate m) (rw given at h)
      ]

  identified-panicked :
      (cfg : MappingConfig) (doc : Fields F) (corr_id : String) (v : Result Error String)
      (now : Time)
      → (identified host cfg doc corr_id v now ≡ err panicked) ↔ (v ≡ err panicked)
  unfolding identified
  identified-panicked cfg doc corr_id (err e) now = ((λ h. cc h), (λ h. cc h))
  identified-panicked cfg doc corr_id (ok v) now =
      ((λ h. absurd (identified-not_panicked cfg doc corr_id v now h)), (λ h. absurd (cc h)))

  -- The vehicle of a message: the one that it names itself, and only where it names none the level of the
  -- topic at the index, if there is one.
  abbrev pub NamesVehicle : Option ℤ → String → String → String → Type 0
  NamesVehicle index topic own vehicle =
      ((own ≢ "") × (vehicle ≡ own)) ⊎ ((own ≡ "") × (vehicle ≡ level index topic))

  from_topic-level :
      (index : Option ℤ) (topic own : String) {v : String}
      → own ≡ ""
      → ◌≡◌ {A = Result Error String}
          (elim (topic_vehicle index topic) [ err e ↦ err e | ok found ↦ ok (get_or found own) ])
          (ok v)
      → v ≡ level index topic
  unfolding topic_vehicle
  from_topic-level none topic own e h = cc (e, h)
  from_topic-level (some (negsuc n)) topic own e h = absurd (cc h)
  from_topic-level (some (pos n)) topic own e h = cc (e, h)

  vehicle_id-ok :
      (cfg : MappingConfig) (topic : String) (named : Option String) {v : String}
      → vehicle_id cfg topic named ≡ ok v
      → NamesVehicle cfg.topic_vehicle_index topic (get_or named "") v
  unfolding vehicle_id
  vehicle_id-ok cfg topic named {v = v} h = elim (Bool-cases (get_or named "" == "")) [
    | inl missing ↦
        let none_named = (eq_iff (get_or named "") "").0 missing in
        inr (
          none_named,
          from_topic-level cfg.topic_vehicle_index topic (get_or named "") {v = v} none_named
              (rw missing at h),
        )
    | inr given ↦
        inl (
          (λ e. absurd (ground (arith, given, e, eq_iff (get_or named "") ""))),
          cc (rw given at h),
        )
  ]

  -- A message that is mapped becomes a canonical point of the tenant that the mapping names, with the new
  -- correlation identifier, the time of its arrival, and an empty identifier of its own. Its vehicle is the
  -- one that the message names, whatever the topic; only where the message names none, it is the level of
  -- the topic at the index of the mapping, or empty where there is none.
  pub map_payload-ok :
      (cfg : MappingConfig) (corr_id topic : String) (doc : Fields F) (now : Time) {t : Telemetry F}
      → map_payload host cfg corr_id topic (some doc) now ≡ ok t
      → IsMappedOf cfg corr_id t.vehicle_id now t
        × NamesVehicle cfg.topic_vehicle_index topic
            (get_or (to_text host (get_field cfg doc "vehicleId")) "")
            t.vehicle_id
  unfolding map_payload
  map_payload-ok cfg corr_id topic doc now {t = t} h =
      let named = to_text host (get_field cfg doc "vehicleId") in
      let (mapped_of, found) =
        identified_ok-vehicle cfg doc corr_id (vehicle_id cfg topic named) now {t = t} h in
      (mapped_of, vehicle_id-ok cfg topic named {v = t.vehicle_id} found)

  -- The index of the mapping panics exactly for a message that names no vehicle, when the index is
  -- negative.
  pub map_payload-panicked :
      (cfg : MappingConfig) (corr_id topic : String) (doc : Fields F) (now : Time)
      → (map_payload host cfg corr_id topic (some doc) now ≡ err panicked) ↔ (
          (get_or (to_text host (get_field cfg doc "vehicleId")) "" ≡ "")
          × IsNegative cfg.topic_vehicle_index)
  unfolding map_payload
  map_payload-panicked cfg corr_id topic doc now =
      let named = to_text host (get_field cfg doc "vehicleId") in
      let at_index = vehicle_id-panicked cfg topic named in
      let through = identified-panicked cfg doc corr_id (vehicle_id cfg topic named) now in
      ((λ h. at_index.0 (through.0 h)), (λ h. through.1 (at_index.1 h)))
