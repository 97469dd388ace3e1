-- ===== src/Webhooks.antt =====
-- src/lib/webhooks.ts: the events that a client's endpoints are told of, and their delivery.
-- Times are whole milliseconds; one run reads the clock once. What a post comes to is an input.
pub mod Signatures
pub mod Dedupe
pub mod Events
pub mod Runs
pub mod Attempts
mod Tests
use openipaas.Prelude.{
  ℕ, zero, suc, ◌+◌, ◌-◌, ◌*◌, ◌^◌, min, String, Bool, true, false, not, ◌&&◌, Option, none, some,
  List, [], ◌∷◌, ◌==◌, ltb, leb, eqb, if◌then◌else◌, length, filter, any, map, take, is_some,
  get_or,
}
use mathlib.Core.List as Lists
use openipaas.Prelude.Text
use openipaas.Prelude.Text.{◌++◌, show}
use openipaas.Prelude.Assoc
use openipaas.Prelude.Assoc.{Assoc}

pub data EventType : Type 0 where
  connected expired disconnected : EventType

abbrev pub event_text : EventType → String
event_text connected = "connection.connected"
event_text expired = "connection.expired"
event_text disconnected = "connection.disconnected"

abbrev pub event_types : List EventType
event_types = connected ∷ expired ∷ disconnected ∷ []

abbrev pub is_event_type : String → Bool
is_event_type value = any (λ e. event_text e == value) event_types

-- `secret` is stored enciphered.
pub record Endpoint : Type 0 where
  pub id : String
  pub client_id : String
  pub url : String
  pub secret : String
  pub events : List EventType
  pub active : Bool

pub data DeliveryStatus : Type 0 where
  pending delivered failed : DeliveryStatus

-- The payload is flat: names and texts.
pub record Delivery : Type 0 where
  pub id : String
  pub endpoint : Endpoint
  pub event_type : EventType
  pub payload : Assoc String
  pub status : DeliveryStatus
  pub attempts : ℕ
  pub response_status : Option ℕ
  pub last_error : Option String
  pub last_attempt_at : Option ℕ
  pub next_attempt_at : Option ℕ
  pub created_at : ℕ

-- MAX_ATTEMPTS
abbrev pub max_attempts : ℕ
max_attempts = 6

-- `hmac` is HMAC-SHA256 in hexadecimal digits, by the secret and the text.
unfoldable pub sign_payload :
    (hmac : String → String → String) → (secret timestamp body : String) → String
sign_payload hmac secret timestamp body = "sha256=" ++ hmac secret (timestamp ++ "." ++ body)

pub record Signed : Type 0 where
  pub secret : String
  pub timestamp : String
  pub body : String
  pub signature : String

abbrev pub distance : ℕ → ℕ → ℕ
distance a b = (a - b) + (b - a)

-- `as_number` is what `Number` reads where it is finite, in whole milliseconds. Two buffers of one
-- length that compare equal are one text.
unfoldable pub verify_signature :
    (hmac : String → String → String)
    → (as_number : String → Option ℕ) → (tolerance_ms now : ℕ) → Signed
    → Bool
unfolding sign_payload
verify_signature hmac as_number tolerance_ms now s = elim (as_number s.timestamp) [
  | none ↦ false
  | some sent ↦
      leb (distance now sent) tolerance_ms
      && s.signature == sign_payload hmac s.secret s.timestamp s.body
]

pub record DedupeKey : Type 0 where
  pub field : String
  pub value : String

pub record Event : Type 0 where
  pub client_id : String
  pub event_type : EventType
  pub payload : Assoc String
  -- The key with its window.
  pub dedupe : Option (DedupeKey × ℕ)

abbrev pub same_event : EventType → EventType → Bool
same_event a b = event_text a == event_text b

-- findMany: active endpoints of the client that subscribe to the type
unfoldable pub subscribed : Event → List Endpoint → List Endpoint
subscribed e endpoints =
    filter
      (λ (p : Endpoint).
        p.client_id == e.client_id && p.active && any (same_event e.event_type) p.events)
      endpoints

abbrev pub has_value : DedupeKey → Assoc String → Bool
has_value k payload = elim (Assoc.lookup k.field payload) [ none ↦ false | some v ↦ v == k.value ]

-- A delivery of the event to the endpoint that is not older than the window.
unfoldable pub is_recent : DedupeKey → (window_ms now : ℕ) → EventType → Endpoint → Delivery → Bool
is_recent k window_ms now type p d =
    d.endpoint.id == p.id
    && same_event type d.event_type
    && leb (now - window_ms) d.created_at
    && has_value k d.payload

unfoldable pub targets : Event → (now : ℕ) → List Endpoint → List Delivery → List Endpoint
unfolding subscribed
targets e now endpoints deliveries = elim e.dedupe [
  | none ↦ subscribed e endpoints
  | some (k, window_ms) ↦
      if ltb 0 window_ms
      then filter (λ p. not (any (is_recent k window_ms now e.event_type p) deliveries))
          (subscribed e endpoints)
      else subscribed e endpoints
]

-- `id_of` draws the identifier of the delivery to an endpoint.
abbrev pub queued : (id_of : String → String) → Event → (now : ℕ) → Endpoint → Delivery
queued id_of e now p = record {
  id = id_of p.id;
  endpoint = p;
  event_type = e.event_type;
  payload = e.payload;
  status = pending;
  attempts = 0;
  response_status = none;
  last_error = none;
  last_attempt_at = none;
  next_attempt_at = some now;
  created_at = now;
}

-- How many deliveries were queued, and the deliveries with them.
unfoldable pub emit :
    (id_of : String → String)
    → Event
    → (now : ℕ) → List Endpoint
    → List Delivery
    → ℕ × List Delivery
unfolding targets
emit id_of e now endpoints deliveries =
    let to = targets e now endpoints deliveries in
    (length to, Lists.◌++◌ deliveries (map (queued id_of e now) to))

-- 60_000 * 5 ** (attempts - 1), at most twelve hours
unfoldable pub next_attempt_delay_ms : ℕ → ℕ
next_attempt_delay_ms attempts = min (60000 * 5 ^ (attempts - 1)) (12 * 60 * 60 * 1000)

-- The changes that scheduleRetry writes.
unfoldable pub schedule_retry :
    (now attempts : ℕ) → (error : String) → Option ℕ → Delivery → Delivery
unfolding next_attempt_delay_ms
schedule_retry now attempts error response_status d =
    let exhausted = leb max_attempts attempts in
    record d {
      status = if exhausted then failed else pending;
      attempts = attempts;
      response_status = response_status;
      last_error = some (Text.take 500 error);
      last_attempt_at = some now;
      next_attempt_at = if exhausted then none else some (now + next_attempt_delay_ms attempts);
    }

unfoldable pub mark_delivered : (now attempts response_status : ℕ) → Delivery → Delivery
mark_delivered now attempts response_status d = record d {
  status = delivered;
  attempts = attempts;
  response_status = some response_status;
  last_attempt_at = some now;
}
