-- ===== src/Webhooks/Runs.antt =====
-- src/lib/webhooks.ts: `deliverPending`, one run over the deliveries that are due.
use openipaas.Prelude.{
  ℕ, ◌+◌, String, Bool, true, false, ◌&&◌, Option, none, some, List, [], ◌∷◌, ◌==◌, leb, ltb,
  if◌then◌else◌, filter, map, take, get_or,
}
use openipaas.Prelude.Text.{show}
use openipaas.Prelude.Text
use openipaas.Webhooks.{
  Delivery, DeliveryStatus, pending, delivered, failed, sign_payload, schedule_retry,
  mark_delivered,
}

-- One request to an endpoint, with its headers.
pub record Post : Type 0 where
  pub url : String
  pub timestamp : String
  pub signature : String
  pub body : String

-- What the post comes to: a response, or an error with its message.
pub data Sent : Type 0 where
  answered : (status : ℕ) → Sent
  errored : (message : Option String) → Sent

-- What deciphering a secret comes to: its text, or an error with its message.
pub data Opened : Type 0 where
  plain : String → Opened
  unreadable : (message : Option String) → Opened

-- `render` writes the delivery's identifier, type, time and payload.
pub record Sender : Type 0 where
  pub hmac : String → String → String
  pub decrypt : String → Opened
  pub render : Delivery → String
  pub post : Post → Sent

abbrev pub is_pending : DeliveryStatus → Bool
is_pending pending = true
is_pending delivered = false
is_pending failed = false

abbrev pub is_due : ℕ → Delivery → Bool
is_due now d =
    is_pending d.status && (elim d.next_attempt_at [ none ↦ false | some at ↦ leb at now ])

abbrev at_of : Delivery → ℕ
at_of d = get_or d.next_attempt_at 0

unfoldable pub insert_due : Delivery → List Delivery → List Delivery
insert_due d [] = d ∷ []
insert_due d (e ∷ es) =
    let rest = insert_due d es in if leb (at_of d) (at_of e) then d ∷ e ∷ es else e ∷ rest

-- orderBy nextAttemptAt, ascending
unfoldable pub sort_due : List Delivery → List Delivery
unfolding insert_due
sort_due [] = []
sort_due (d ∷ ds) = insert_due d (sort_due ds)

unfoldable pub due : (now limit : ℕ) → List Delivery → List Delivery
unfolding sort_due
due now limit deliveries = take limit (sort_due (filter (is_due now) deliveries))

-- update where id
unfoldable pub update : String → (Delivery → Delivery) → List Delivery → List Delivery
update id change deliveries = map (λ d. if d.id == id then change d else d) deliveries

unfoldable pub attempt : Sender → (now : ℕ) → Delivery → Sent
unfolding sign_payload
attempt sender now item = elim (sender.decrypt item.endpoint.secret) [
  | unreadable message ↦ errored message
  | plain secret ↦
      let body = sender.render item in
      sender.post (record {
        url = item.endpoint.url;
        timestamp = show now;
        signature = sign_payload sender.hmac secret (show now) body;
        body = body;
      })
]

-- The change that an attempt's result makes, and whether the item was delivered.
unfoldable pub change_of : (now attempts : ℕ) → Sent → Bool × (Delivery → Delivery)
unfolding schedule_retry mark_delivered
change_of now attempts (answered status) =
    if leb 200 status && ltb status 300
    then (true, mark_delivered now attempts status)
    else (false, schedule_retry now attempts (Text.◌++◌ "HTTP " (show status)) (some status))
change_of now attempts (errored message) =
    (false, schedule_retry now attempts (get_or message "network error") none)

pub record Tally : Type 0 where
  pub delivered_count : ℕ
  pub failed_count : ℕ

abbrev pub counted : Bool → Tally → Tally
counted true t = record t { delivered_count = t.delivered_count + 1 }
counted false t = record t { failed_count = t.failed_count + 1 }

unfoldable pub deliver_all :
    Sender → (now : ℕ) → List Delivery → Tally → List Delivery → Tally × List Delivery
unfolding attempt change_of update
deliver_all sender now [] tally deliveries = (tally, deliveries)
deliver_all sender now (item ∷ items) tally deliveries =
    let (done, change) = change_of now (item.attempts + 1) (attempt sender now item) in
    deliver_all sender now items (counted done tally) (update item.id change deliveries)

unfoldable pub deliver_pending : Sender → (now limit : ℕ) → List Delivery → Tally × List Delivery
unfolding due deliver_all
deliver_pending sender now limit deliveries =
    deliver_all sender now (due now limit deliveries)
      (record { delivered_count = 0; failed_count = 0 }) deliveries
