-- ===== src/Webhooks.antt =====
-- app/sms_relay/webhooks.py and fanout_loop of app/sms_relay/worker.py: the deliveries of inbound
-- messages to the subscribers.
use sms_relay.Common.{
  ℕ, suc, ◌+◌, ◌-◌, ◌*◌, ◌^◌, min, Bool, ◌&&◌, not, Option, none, some, List, [], ◌∷◌, ◌++◌, ltb,
  leb, if◌then◌else◌, length, take, all, any, select, update, Text, text, str_eq, decimal,
}
use sms_relay.Common.Result.{
  Fault, Result, ok, raise, integrity_error, transport_error, other_error,
}
use sms_relay.Common.Sort.{sort}
use sms_relay.Config.{Settings, Subscriber, is_interested}
use sms_relay.External.{External}
use sms_relay.Models.{
  second, Message, WebhookDelivery, DeliveryStatus, pending, cancelled, is_pending,
}
use sms_relay.Models.Db.{Db, is_due, delivery_clash, insert_all}
use sms_relay.Messages.{get_row}
use sms_relay.Payload.{DeliveryRequest, request_of}
pub mod Delivering
pub mod Draining
pub mod Fanout
pub mod Keys

abbrev pub max_delivery_attempts : ℕ
max_delivery_attempts = 6

-- `backoff_seconds(attempts)` and `backoff(attempts)`
unfoldable pub backoff_seconds : ℕ → ℕ
backoff_seconds attempts = min (30 * 2 ^ (attempts - 1)) 3600

unfoldable pub backoff : ℕ → ℕ → ℕ
unfolding backoff_seconds
backoff now attempts = now + backoff_seconds attempts * second

abbrev pub new_delivery : ℕ → Text → Message → Subscriber → WebhookDelivery
new_delivery now id message sub = record {
  id = id;
  message_id = message.id;
  subscriber = sub.name;
  url = sub.url;
  status = pending;
  attempts = 0;
  next_attempt_at = some now;
  response_code = none;
  error = none;
  created_at = now;
  updated_at = now;
}

-- The subscribers that a message already has a delivery to.
abbrev pub has_delivery : List WebhookDelivery → Text → Text → Bool
has_delivery deliveries message_id name =
    any (λ (d : WebhookDelivery). str_eq d.message_id message_id && str_eq d.subscriber name)
      deliveries

-- The rows that `enqueue_fanout` adds; `existing` is read before the first of them.
unfoldable pub fanout_rows :
    ℕ → (ℕ → Text) → ℕ → List WebhookDelivery → Message → List Subscriber → List WebhookDelivery
fanout_rows now uuid4 n existing message [] = []
fanout_rows now uuid4 n existing message (sub ∷ subs) =
    let row = new_delivery now (uuid4 n) message sub in
    let rest = fanout_rows now uuid4 (suc n) existing message subs in
    if is_interested sub && not (has_delivery existing message.id sub.name)
    then row ∷ rest
    else rest

-- `enqueue_fanout` and the flush of its rows: the count and the deliveries, or an IntegrityError.
unfoldable pub enqueue_fanout :
    Settings → ℕ → (ℕ → Text) → Message → List WebhookDelivery → Result (ℕ × List WebhookDelivery)
unfolding fanout_rows insert_all
enqueue_fanout settings now uuid4 message deliveries =
    let rows = fanout_rows now uuid4 0 deliveries message settings.subscribers in
    elim (insert_all delivery_clash rows deliveries) [
      | none ↦ raise integrity_error
      | some stored ↦ ok (length rows, stored)
    ]

-- What the subscriber's server did: httpx.HTTPError with its text, another exception, or a response.
pub data PostOutcome : Type 0 where
  http_error : Text → PostOutcome
  broken : PostOutcome
  response : (status_code : ℕ) → (body : Text) → PostOutcome

-- `_subscriber(name)`
unfoldable pub subscriber_named : Text → List Subscriber → Option Subscriber
subscriber_named name [] = none
subscriber_named name (sub ∷ subs) =
    if str_eq sub.name name then some sub else subscriber_named name subs

-- After an attempt that failed: give up, or try again later.
unfoldable pub after_failure : ℕ → WebhookDelivery → WebhookDelivery
unfolding backoff
after_failure now d =
    if leb max_delivery_attempts d.attempts
    then record d { status = DeliveryStatus.failed }
    else record d { status = pending; next_attempt_at = some (backoff now d.attempts) }

-- f"HTTP {response.status_code}: {response.text[:200]}"
abbrev pub http_failure : ℕ → Text → Text
http_failure status_code body =
    text "HTTP " ++ (decimal status_code ++ (text ": " ++ take 200 body))

-- The row after its attempt was answered; None is an exception that leaves `deliver`.
unfoldable pub after_post : ℕ → PostOutcome → WebhookDelivery → Option WebhookDelivery
unfolding after_failure
after_post now (http_error exc) d =
    some (after_failure now (record d { error = some (take 500 exc) }))
after_post now broken d = none
after_post now (response status_code body) d =
    if ltb status_code 300
    then some (record d {
      response_code = some status_code;
      status = DeliveryStatus.delivered;
      error = none;
    })
    else some (
        after_failure now (record d {
          response_code = some status_code;
          error = some (http_failure status_code body);
        }))

-- `deliver`, where `post` is what comes of a request.
unfoldable pub deliver :
    External
    → Settings
    → ℕ
    → (DeliveryRequest → PostOutcome)
    → WebhookDelivery
    → Message
    → Option WebhookDelivery
unfolding subscriber_named after_post request_of
deliver x settings now post d message = elim (subscriber_named d.subscriber settings.subscribers) [
  | none ↦
      some (record d { status = cancelled; error = some (text "subscriber no longer configured") })
  | some sub ↦
      after_post now (post (request_of x sub d message)) (record d { attempts = d.attempts + 1 })
]

-- One row of the batch: a delivery whose message is gone is cancelled.
unfoldable pub deliver_row :
    External
    → Settings
    → ℕ
    → (DeliveryRequest → PostOutcome)
    → List Message
    → WebhookDelivery
    → Option WebhookDelivery
unfolding deliver get_row
deliver_row x settings now post messages d = elim (get_row d.message_id messages) [
  | none ↦ some (record d { status = cancelled })
  | some message ↦ deliver x settings now post d message
]

abbrev pub earlier : WebhookDelivery → WebhookDelivery → Bool
earlier d e = leb d.created_at e.created_at

abbrev pub is_due_delivery : ℕ → WebhookDelivery → Bool
is_due_delivery now d = is_pending d.status && is_due d.next_attempt_at now

-- The batch of a round: at most 20 due deliveries, the oldest first.
unfoldable pub due_deliveries : ℕ → List WebhookDelivery → List WebhookDelivery
due_deliveries now rows = take 20 (sort earlier (select (is_due_delivery now) rows))

-- The UPDATE of a delivery that was attempted, by the columns that an attempt sets.
abbrev pub write_back : WebhookDelivery → List WebhookDelivery → List WebhookDelivery
write_back d rows =
    update (λ (e : WebhookDelivery). str_eq e.id d.id)
      (λ e. record e {
        status = d.status;
        attempts = d.attempts;
        next_attempt_at = d.next_attempt_at;
        response_code = d.response_code;
        error = d.error;
        updated_at = d.updated_at;
      })
      rows

-- The batch, row by row; None is an exception, which undoes the writes of the whole round.
unfoldable pub deliver_batch :
    External
    → Settings
    → ℕ
    → (DeliveryRequest → PostOutcome)
    → List Message
    → List WebhookDelivery
    → List WebhookDelivery
    → Option (List WebhookDelivery)
unfolding deliver_row
deliver_batch x settings now post messages [] rows = some rows
deliver_batch x settings now post messages (d ∷ batch) rows =
    elim (deliver_row x settings now post messages d) [
      | none ↦ none
      | some d' ↦
          deliver_batch x settings now post messages batch
            (write_back (record d' { updated_at = now }) rows)
    ]

-- Whether the UPDATEs of a batch find their rows; the ORM raises where one does not.
unfoldable pub are_there : List WebhookDelivery → List WebhookDelivery → Bool
are_there batch rows =
    all (λ (d : WebhookDelivery). any (λ (e : WebhookDelivery). str_eq e.id d.id) rows) batch

-- One round of `fanout_loop`, which reads from `seen` and commits to `db`.
unfoldable pub fanout_round :
    External → Settings → ℕ → (DeliveryRequest → PostOutcome) → (seen db : Db) → Db
unfolding deliver_batch due_deliveries are_there
fanout_round x settings now post seen db =
    let batch = due_deliveries now seen.deliveries in
    if are_there batch db.deliveries
    then elim (deliver_batch x settings now post seen.messages batch db.deliveries) [
      | none ↦ db
      | some rows ↦ record db { deliveries = rows }
    ]
    else db

-- What a round of the fan-out meets: its time, and what comes of its requests.
pub record Round : Type 0 where
  pub now : ℕ
  pub post : DeliveryRequest → PostOutcome

-- The rounds of `fanout_loop`, with no other commit in their course.
unfoldable pub fanout_loop : External → Settings → List Round → Db → Db
unfolding fanout_round
fanout_loop x settings [] db = db
fanout_loop x settings (r ∷ rounds) db =
    fanout_loop x settings rounds (fanout_round x settings r.now r.post db db)
