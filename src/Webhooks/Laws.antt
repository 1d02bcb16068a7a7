-- ===== src/Webhooks/Laws.antt =====
-- What `Dispatch` promises (internal/webhooks/webhooks.go).
use tide.Prelude.{
  ◌==◌, ◌||◌, eq_refl, ℕ, zero, suc, ◌+◌, ◌≤◌, ◌≡◌, ◌↔◌, refl, String, true, false, Option, none,
  some, [], ◌∷◌, length, length-append, arith, inl, inr, Option-cases, Bool-cases, leb,
}
use tide.Schemas.Clock.{Time}
use tide.Schemas.Events.{Event}
use tide.Webhooks.{
  Net, Request, Dispatcher, Delivery, Ending, Error, attempts, dispatch, deliver, conclude,
  record_delivery, request, failure_of, next_delay, Headers, is_stale, verify, sign, answered,
  exhausted, blocked,
}

module _ {F W : Type 0} (net : Net F W) (sent : W → ℕ) where
  attempts-sent :
      (left delay : ℕ) (last : String) (q : Request F) (w : W)
      → ((q : Request F) (w : W) → sent (net.send q w).1 ≡ sent w + 1)
      → ((d : ℕ) (w : W) → sent (net.sleep d w) ≡ sent w)
      → sent (attempts net left delay last q w).1 ≤ sent w + left
  unfolding attempts
  attempts-sent zero delay last q w sends sleeps = omega arith
  attempts-sent (suc left) delay last q w sends sleeps =
      let w' = (net.send q w).1 in
      ground (
        arith,
        sends q w,
        sleeps delay w',
        attempts-sent left (next_delay delay) (failure_of net (net.send q w).0) q
            (net.sleep delay w') sends sleeps,
      )

  deliver-sent :
      (url secret : String) (e : Event F) (body : String) (d : Dispatcher) (w : W)
      → ((q : Request F) (w : W) → sent (net.send q w).1 ≡ sent w + 1)
      → ((d : ℕ) (w : W) → sent (net.sleep d w) ≡ sent w)
      → sent (deliver net url secret e body d w).1 ≤ sent w + (d.max_retries + 1)
  unfolding deliver
  deliver-sent url secret e body d w sends sleeps =
      elim (Option-cases (net.validate_url url d.allow_private)) [
        | inl open_url ↦
            rw (open_url, deliver)
              (attempts-sent (d.max_retries + 1) d.base_delay "" _ w sends sleeps)
        | inr (x, shut) ↦ rw (shut, deliver) (omega arith)
      ]

  -- The retry budget: whatever the endpoint answers, a dispatch sends at most one request more than
  -- `MaxRetries`, by any count that a request raises by one and a pause leaves alone.
  pub dispatch-sent :
      (url secret : String) (e : Event F) (d : Dispatcher) (w : W)
      → ((q : Request F) (w : W) → sent (net.send q w).1 ≡ sent w + 1)
      → ((d : ℕ) (w : W) → sent (net.sleep d w) ≡ sent w)
      → sent (dispatch net url secret e d w).1 ≤ sent w + (d.max_retries + 1)
  unfolding dispatch
  dispatch-sent url secret e d w sends sleeps = elim (Option-cases (net.marshal e)) [
    | inl bad ↦ rw (bad, dispatch) (omega arith)
    | inr (body, good) ↦ rw (good, dispatch) (deliver-sent url secret e body d w sends sleeps)
  ]

abbrev pub recorded : Dispatcher → ℕ
recorded d = length d.delivered + length d.dead_letter

-- A failure is a dead letter and a success is delivered, one record in all.
abbrev pub IsRecorded : Option Error → Dispatcher → Dispatcher → Type 0
IsRecorded failure d d' =
    (recorded d' ≡ recorded d + 1)
    × ((failure ≡ none) ↔ (length d'.delivered ≡ length d.delivered + 1))

dead_letter-IsRecorded :
    (x : Error) (url id : String) (n : ℕ) (error : String) (at : Time) (d : Dispatcher)
    → IsRecorded (some x) d (record_delivery false url id n error at d)
unfolding record_delivery
dead_letter-IsRecorded x url id n error at d =
    let del : Delivery = record { event_id = id; url = url; status = n; error = error; at = at } in
    ground (arith, length-append d.dead_letter (del ∷ []))

delivered-IsRecorded :
    (url id : String) (n : ℕ) (error : String) (at : Time) (d : Dispatcher)
    → IsRecorded none d (record_delivery true url id n error at d)
unfolding record_delivery
delivered-IsRecorded url id n error at d =
    let del : Delivery = record { event_id = id; url = url; status = n; error = error; at = at } in
    ground (arith, length-append d.delivered (del ∷ []))

module _ {F W : Type 0} (net : Net F W) where
  conclude-IsRecorded :
      (url id : String) (ending : Ending) (w : W) (d : Dispatcher)
      → let (failure, d') = conclude net url id ending w d in IsRecorded failure d d'
  unfolding conclude
  conclude-IsRecorded url id (answered n) w d = elim (Bool-cases (leb 400 n)) [
    | inl bad ↦ rw bad (dead_letter-IsRecorded _ url id n _ (net.now w) d)
    | inr good ↦ rw good (delivered-IsRecorded url id n "" (net.now w) d)
  ]
  conclude-IsRecorded url id (exhausted last) w d =
      dead_letter-IsRecorded _ url id 0 last (net.now w) d

  deliver-IsRecorded :
      (url secret : String) (e : Event F) (body : String) (d : Dispatcher) (w : W)
      → let (failure, d') = (deliver net url secret e body d w).0 in IsRecorded failure d d'
  unfolding deliver
  deliver-IsRecorded url secret e body d w =
      let q = request net url secret e body w in
      let (ending, w') = attempts net (d.max_retries + 1) d.base_delay "" q w in
      elim (Option-cases (net.validate_url url d.allow_private)) [
        | inl open_url ↦ rw (open_url, deliver) (conclude-IsRecorded url e.id ending w' d)
        | inr (x, shut) ↦ rw (shut, deliver) (dead_letter-IsRecorded _ url e.id 0 x (net.now w) d)
      ]

  -- Every dispatch of an event that can be encoded leaves exactly one record, and it is one of a delivery
  -- exactly when no error is reported.
  pub dispatch-IsRecorded :
      (url secret : String) (e : Event F) (d : Dispatcher) (w : W) {body : String}
      → net.marshal e ≡ some body
      → let (failure, d') = (dispatch net url secret e d w).0 in IsRecorded failure d d'
  unfolding dispatch
  dispatch-IsRecorded url secret e d w {body = body} good =
      rw (good, dispatch) (deliver-IsRecorded url secret e body d w)

  -- A blocked address costs nothing: no request is sent and no pause made, the world stays as it was, and
  -- the event is a dead letter at once.
  pub dispatch_blocked :
      (url secret : String) (e : Event F) (d : Dispatcher) (w : W) {body x : String}
      → net.marshal e ≡ some body
      → net.validate_url url d.allow_private ≡ some x
      → ((dispatch net url secret e d w).1 ≡ w)
        × ((dispatch net url secret e d w).0.0 ≡ some (blocked x))
        × (length (dispatch net url secret e d w).0.1.dead_letter ≡ length d.dead_letter + 1)
  unfolding dispatch deliver record_delivery
  dispatch_blocked url secret e d w {x = x} good shut =
      let del : Delivery = record {
        event_id = e.id;
        url = url;
        status = 0;
        error = x;
        at = net.now w;
      } in
      rw (good, dispatch) (rw (shut, deliver) (refl, refl, length-append d.dead_letter (del ∷ [])))

module _ {F W : Type 0} (net : Net F W) (parse_unix : String → Option Time) where
  -- A request that was signed verifies: with the secret of the sender, the headers that `Sign` made for the
  -- same event and body are accepted within five minutes, where the timestamp is read back as a time that
  -- is written the same, and no header is empty.
  pub verify-sign :
      (secret id body : String) (at back now : Time)
      → let (signature, timestamp) = sign net secret id at body in
        let h : Headers = record { event_id = id; timestamp = timestamp; signature = signature } in
        parse_unix timestamp ≡ some back
        → net.print_unix back ≡ timestamp
        → is_stale now back ≡ false
        → (id == "" || timestamp == "" || signature == "") ≡ false
        → verify net parse_unix secret h body now ≡ none
  unfolding verify sign
  verify-sign secret id body at back now parsed same recent given =
      rw (given, parsed, recent, same, eq_refl) refl
