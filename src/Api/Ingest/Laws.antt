-- ===== src/Api/Ingest/Laws.antt =====
-- What an accepted batch holds (internal/api/server.go and internal/ingest/http.go).
use tide.Prelude.{
  ℕ, suc, ◌+◌, ◌≡◌, ◌≢◌, length, String, false, ◌==◌, eq_iff, arith, Bool-cases, inl, inr, Option,
  none, some, List, [], ◌∷◌, Result, ok, err, refl, sym, subst, ap,
}
use tide.Schemas.Clock.{Time, after}
use tide.Schemas.Runtime.{Runtime}
use tide.Schemas.Telemetry.{Telemetry, Invalid, validate}
use tide.Schemas.Telemetry.Laws.{IsCanonical, validate-none_iff}
use tide.Pipeline
use tide.Pipeline.{Ports, Outcome, ProcessError, publish_failed, max_future_skew}
use tide.Api.Replies.{Reply, refused, answered}
use tide.Api.Ingest.{
  Decoder, Surroundings, Summary, unpacked, named, stamped, guarded, admit, admit_decoded, Rest,
  ingest_one, settled, ingest_from, handle_ingest, log_point, inject_all,
}

abbrev accepted_in : Reply Summary → ℕ
accepted_in (refused n msg) = 0
accepted_in (answered n s) = s.accepted

module _ {R F W : Type 0} ⦃r : Runtime F⦄ (decoder : Decoder R F) (around : Surroundings F W) where
  open around use {now, new_id, clock}

  guarded-ok :
      (at : Time) (t : Telemetry F) (found : Option Invalid) {t' : Telemetry F}
      → guarded decoder around at t found ≡ ok t'
      → (t ≡ t') × (found ≡ none) × (after t.timestamp (at + max_future_skew) ≡ false)
  guarded-ok at t (some e) h = absurd (cc h)
  guarded-ok at t none h = elim (Bool-cases (after t.timestamp (at + max_future_skew))) [
    | inl future ↦ absurd (cc (rw future at h))
    | inr past ↦ (cc (rw past at h), refl, past)
  ]

  named-id :
      (t : Telemetry F) (w : W) → ((w' : W) → (new_id w').0 ≢ "") → (named around t w).0.id ≢ ""
  named-id t w minted = elim (Bool-cases (t.id == "")) [
    | inl missing ↦ rw missing (minted w)
    | inr given ↦ rw given (λ e. absurd (ground (arith, given, e, eq_iff t.id "")))
  ]

  abbrev pub IsAdmissible : Telemetry F → Time → Type 0
  IsAdmissible t at =
      IsCanonical t × (t.id ≢ "") × (after t.timestamp (at + max_future_skew) ≡ false)

  admit_decoded-ok :
      (received : Time) (decoded : Result String (Telemetry F)) (w : W) {t : Telemetry F}
      → ((w' : W) → (new_id w').0 ≢ "")
      → (admit_decoded decoder around received decoded w).0 ≡ ok t
      → IsAdmissible t (now (admit_decoded decoder around received decoded w).1)
  admit_decoded-ok received (err msg) w minted h = absurd (cc h)
  admit_decoded-ok received (ok t₀) w minted h =
      let (t', w') = named around t₀ w in
      let point = stamped decoder around received (now w') t' in
      let (same, valid, past) = guarded-ok (now w') point (validate point) h in
      subst (λ t. IsAdmissible t (now w')) same
        ((validate-none_iff point).0 valid, named-id t₀ w minted, past)

  -- A message that the handler passes on to the pipeline is a canonical point with an identifier, not
  -- further in the future than the limit, provided that the identifiers of the server are not empty.
  pub admit-IsAdmissible :
      (received : Time) (raw : R) (w : W) {t : Telemetry F}
      → ((w' : W) → (new_id w').0 ≢ "")
      → (admit decoder around received raw w).0 ≡ ok t
      → IsAdmissible t (now (admit decoder around received raw w).1)
  unfolding admit
  admit-IsAdmissible received raw w minted h =
      admit_decoded-ok received (decoder.telemetry raw) w minted h

  guarded-refuses :
      (at : Time) (t : Telemetry F) (found : Option Invalid) (reply : Reply Summary)
      → guarded decoder around at t found ≡ err reply
      → (s : Summary) → reply ≢ answered 202 s
  guarded-refuses at t (some e) reply h s same = absurd (cc (h, same))
  guarded-refuses at t none reply h s same =
      elim (Bool-cases (after t.timestamp (at + max_future_skew))) [
        | inl future ↦ let k = rw future at h in absurd (cc (k, same))
        | inr past ↦ absurd (cc (rw past at h))
      ]

  admit_decoded-refuses :
      (received : Time) (decoded : Result String (Telemetry F)) (w : W) (reply : Reply Summary)
      → (admit_decoded decoder around received decoded w).0 ≡ err reply
      → (s : Summary) → reply ≢ answered 202 s
  admit_decoded-refuses received (err msg) w reply h s same = absurd (cc (h, same))
  admit_decoded-refuses received (ok t) w reply h s same =
      let (t', w') = named around t w in
      let point = stamped decoder around received (now w') t' in
      guarded-refuses (now w') point (validate point) reply h s same

  admit-refuses :
      (received : Time) (raw : R) (w : W) (reply : Reply Summary)
      → (admit decoder around received raw w).0 ≡ err reply
      → (s : Summary) → reply ≢ answered 202 s
  unfolding admit
  admit-refuses received raw w = admit_decoded-refuses received (decoder.telemetry raw) w

  module _ {E : Type 0} (ports : Ports F E W) where
    -- What it is for a point to be taken: the pipeline processes it without an error, and what follows,
    -- `P`, holds of the world that the handler leaves.
    abbrev pub Taken : (W → Type 0) → Result (Reply Summary) (Telemetry F) → W → Type 0
    Taken P (err reply) w = ⊥
    Taken P (ok t) w =
        let (o, w') = Pipeline.process ports (clock w) t w in
        (o.error ≡ none) × P (log_point around o.dup t (inject_all around o.events w'))

    -- Every message of a batch is a point that is taken, one after the other.
    abbrev pub AllTaken : Time → List R → W → Type 0
    AllTaken received [] w = Unit
    AllTaken received (raw ∷ raws) w =
        let (admitted, w') = admit decoder around received raw w in
        Taken (AllTaken received raws) admitted w'

    -- a rest of a batch of `n` points, which counts them where it accepts, and then has taken them
    abbrev pub Counts : ℕ → (W → Type 0) → Rest decoder around ports → Type 0
    Counts n P rest =
        (accepted emitted : ℕ) (w : W) (s : Summary)
        → (rest accepted emitted w).0 ≡ answered 202 s
        → (s.accepted ≡ accepted + n) × P w

    settled-Counts :
        (n : ℕ) (P : W → Type 0) (rest : Rest decoder around ports) (t : Telemetry F)
        (o : Outcome F E) (error : Option (ProcessError F E))
        → Counts n P rest
        → Counts
            (suc n)
            (λ w. (error ≡ none) × P (log_point around o.dup t (inject_all around o.events w)))
            (settled decoder around ports rest t o error)
    unfolding settled
    settled-Counts n P rest t o (some (Pipeline.publish_failed evs x)) h accepted emitted w s e =
        absurd (cc e)
    settled-Counts n P rest t o (some (Pipeline.invalid x)) h accepted emitted w s e = absurd (cc e)
    settled-Counts n P rest t o (some Pipeline.too_far_in_future) h accepted emitted w s e =
        absurd (cc e)
    settled-Counts n P rest t o (some (Pipeline.failed x)) h accepted emitted w s e = absurd (cc e)
    settled-Counts n P rest t o none h accepted emitted w s e =
        let (counted, taken) =
          h (accepted + 1) (emitted + length o.events)
            (log_point around o.dup t (inject_all around o.events w)) s e in
        (omega arith, (refl, taken))

    ingest_one-Counts :
        (n : ℕ) (P : W → Type 0) (rest : Rest decoder around ports)
        (admitted : Result (Reply Summary) (Telemetry F))
        → ((reply : Reply Summary)
            → (admitted ≡ err reply)
            → (s : Summary) → reply ≢ answered 202 s)
        → Counts n P rest
        → Counts (suc n) (Taken P admitted) (ingest_one decoder around ports rest admitted)
    unfolding ingest_one
    ingest_one-Counts n P rest (err reply) refusal h accepted emitted w s e =
        absurd (refusal reply refl s e)
    ingest_one-Counts n P rest (ok t) refusal h accepted emitted w s e =
        let (o, w') = Pipeline.process ports (clock w) t w in
        settled-Counts n P rest t o o.error h accepted emitted w' s e

    ingest_from-Counts :
        (received : Time) (raws : List R)
        → Counts
            (length raws)
            (AllTaken received raws)
            (ingest_from decoder around ports received raws)
    unfolding ingest_from
    ingest_from-Counts received [] accepted emitted w s e =
        let same : s.accepted ≡ accepted = sym (ap accepted_in e) in (omega arith, tt)
    ingest_from-Counts received (raw ∷ raws) accepted emitted w s e =
        ingest_one-Counts (length raws) (AllTaken received raws)
          (ingest_from decoder around ports received raws) (admit decoder around received raw w).0
          (admit-refuses received raw w) (ingest_from-Counts received raws) accepted emitted
          (admit decoder around received raw w).1 s e

    -- A batch that is answered with 202 was posted, and each of its points, in their order, passed the
    -- guards and went through the pipeline without an error, as a new point or as a duplicate; the number
    -- in the answer is that of the batch, whose envelope is opened where there is one.
    pub handle_ingest-accepted :
        (method : String) (raw : R) (w : W) (s : Summary)
        → (handle_ingest decoder around ports method (some raw) w).0 ≡ answered 202 s
        → let batch = unpacked decoder (raw ∷ []) in
          (method ≡ "POST") × (s.accepted ≡ length batch) × AllTaken (now w) batch w
    unfolding handle_ingest
    handle_ingest-accepted method raw w s e = elim (Bool-cases (method == "POST")) [
      | inr other ↦ absurd (cc (rw other at e))
      | inl post ↦
          let (count, taken) =
            ingest_from-Counts (now w) (unpacked decoder (raw ∷ [])) 0 0 w s (rw post at e) in
          ((eq_iff method "POST").0 post, omega arith, taken)
    ]
