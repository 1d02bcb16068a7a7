-- ===== src/Webhooks.antt =====
-- internal/webhooks/webhooks.go: the delivery of events with retries and dead letters.
pub mod Laws
pub mod Ssrf
pub mod Guard
use tide.Prelude.{
  ℕ, zero, suc, ◌+◌, ◌*◌, String, Bool, true, false, ◌&&◌, ◌||◌, not, if◌then◌else◌, ◌<>◌, ◌==◌,
  Option, none, some, ltb, leb, eqb, List, [], ◌∷◌, ◌++◌, min,
}
use tide.Schemas.Clock.{Time, nanos, minute, after}
use tide.Schemas.Events.{Event}

pub record Delivery : Type 0 where
  pub event_id : String
  pub url : String
  pub status : ℕ
  pub error : String
  pub at : Time

pub record Dispatcher : Type 0 where
  pub max_retries : ℕ
  -- nanoseconds
  pub base_delay : ℕ
  pub allow_private : Bool
  pub delivered : List Delivery
  pub dead_letter : List Delivery

unfoldable pub new_dispatcher : Dispatcher
new_dispatcher = record {
  max_retries = 5;
  base_delay = 200_000_000;
  allow_private = false;
  delivered = [];
  dead_letter = [];
}

pub record Request (F : Type 0) : Type 0 where
  pub url : String
  pub event_id : String
  pub timestamp : String
  pub signature : String
  pub body : String

-- What a request comes to: a status code or an error of the transport.
pub data Reply : Type 0 where
  code : ℕ → Reply
  broken : String → Reply

-- What is taken from Go's libraries and from the network, over a world `W`.
pub record Net (F W : Type 0) : Type 0 where
  -- `json.Marshal`
  pub marshal : Event F → Option String
  -- `hex(HMAC-SHA256(secret, text))`
  pub mac : String → String → String
  -- `strconv.FormatInt(ts.Unix(), 10)`
  pub print_unix : Time → String
  -- `ValidateURL`: the reason why a target is blocked
  pub validate_url : String → Bool → Option String
  -- `http.NewRequest`: the reason why it fails
  pub bad_request : String → Option String
  pub send : Request F → W → Reply × W
  -- `time.Sleep`, which the jitter lengthens by less than the delay
  pub sleep : ℕ → W → W
  pub now : W → Time
  -- `endpoint returned %d`
  pub print_status : ℕ → String

pub data Error : Type 0 where
  not_encoded : Error
  blocked : String → Error
  client_error : ℕ → Error
  dead_lettered : String → Error

-- `record`
unfoldable pub record_delivery :
    Bool → String → String → ℕ → String → Time → Dispatcher → Dispatcher
record_delivery delivered url id status error at d =
    let del : Delivery = record {
      event_id = id;
      url = url;
      status = status;
      error = error;
      at = at;
    } in
    if delivered
    then record d { delivered = d.delivered ++ (del ∷ []) }
    else record d { dead_letter = d.dead_letter ++ (del ∷ []) }

abbrev pub max_delay : ℕ
max_delay = 10 * nanos

-- `delay *= 2`, at most ten seconds.
abbrev pub next_delay : ℕ → ℕ
next_delay delay = if ltb max_delay (delay * 2) then max_delay else delay * 2

-- How the loop over the attempts ends: with a status that is not retried, or with the last error.
pub data Ending : Type 0 where
  answered : ℕ → Ending
  exhausted : String → Ending

abbrev pub is_final : ℕ → Bool
is_final n = ltb n 500 && not (eqb n 429)

module _ {F W : Type 0} (net : Net F W) where
  open net use {marshal, mac, print_unix, validate_url, bad_request, send, sleep, now, print_status}

  -- `Sign`
  unfoldable pub sign : String → String → Time → String → String × String
  sign secret event_id ts body =
      let timestamp = print_unix ts in
      (mac secret (timestamp <> "." <> event_id <> "." <> body), timestamp)

  abbrev pub failure_of : Reply → String
  failure_of (code n) = "endpoint returned " <> print_status n
  failure_of (broken x) = x

  -- The answer that ends the loop, if the reply is one.
  abbrev pub final : Reply → Option ℕ
  final (broken x) = none
  final (code n) = if is_final n then some n else none

  -- The loop, with the number of attempts that are left, the delay and the last error.
  unfoldable pub attempts : ℕ → ℕ → String → Request F → W → Ending × W
  attempts zero delay last q w = (exhausted last, w)
  attempts (suc left) delay last q w =
      let (reply, w') = send q w in
      let rest = attempts left (next_delay delay) (failure_of reply) q (sleep delay w') in
      elim (bad_request q.url) [
        | some x ↦ (exhausted x, w)
        | none ↦ elim (final reply) [ some n ↦ (answered n, w') | none ↦ rest ]
      ]

  unfoldable pub conclude : String → String → Ending → W → Dispatcher → Option Error × Dispatcher
  unfolding record_delivery
  conclude url id (answered n) w d =
      if leb 400 n
      then (
        some (client_error n),
        record_delivery false url id n ("client error " <> print_status n) (now w) d,
      )
      else (none, record_delivery true url id n "" (now w) d)
  conclude url id (exhausted last) w d =
      (some (dead_lettered last), record_delivery false url id 0 last (now w) d)

  -- The request that every attempt sends.
  unfoldable pub request : String → String → Event F → String → W → Request F
  unfolding sign
  request url secret e body w =
      let (signature, timestamp) = sign secret e.id (now w) body in
      record {
        url = url;
        event_id = e.id;
        timestamp = timestamp;
        signature = signature;
        body = body;
      }

  -- From the check of the address on.
  unfoldable pub deliver :
      String → String → Event F → String → Dispatcher → W → (Option Error × Dispatcher) × W
  unfolding attempts conclude request
  deliver url secret e body d w = elim (validate_url url d.allow_private) [
    | some x ↦ ((some (blocked x), record_delivery false url e.id 0 x (now w) d), w)
    | none ↦
        let (ending, w') =
          attempts (d.max_retries + 1) d.base_delay "" (request url secret e body w) w in
        (conclude url e.id ending w' d, w')
  ]

  -- `Dispatch`
  unfoldable pub dispatch :
      String → String → Event F → Dispatcher → W → (Option Error × Dispatcher) × W
  unfolding deliver
  dispatch url secret e d w = elim (marshal e) [
    | none ↦ ((some not_encoded, d), w)
    | some body ↦ deliver url secret e body d w
  ]

-- The headers of a request that was received, "" where one is missing.
pub record Headers : Type 0 where
  pub event_id : String
  pub timestamp : String
  pub signature : String

pub data Rejected : Type 0 where
  missing_headers bad_timestamp stale_timestamp bad_signature : Rejected

-- More than five minutes apart.
abbrev pub is_stale : Time → Time → Bool
is_stale now t = ltb (t + 5 * minute) now || ltb (now + 5 * minute) t

module _ {F W : Type 0} (net : Net F W) (parse_unix : String → Option Time) where
  -- A header's timestamp is read as the time that it stands for (`ParseInt`, then `time.Unix`).
  abbrev check_signature : String → Headers → String → Time → Option Time → Option Rejected
  check_signature secret h body now none = some bad_timestamp
  check_signature secret h body now (some t) =
      if is_stale now t
      then some stale_timestamp
      else if (sign net secret h.event_id t body).0 == h.signature
      then none
      else some bad_signature

  -- `Verify`
  unfoldable pub verify : String → Headers → String → Time → Option Rejected
  unfolding sign
  verify secret h body now =
      if h.event_id == "" || h.timestamp == "" || h.signature == ""
      then some missing_headers
      else check_signature secret h body now (parse_unix h.timestamp)
