-- ===== src/Inbound.antt =====
-- app/sms_relay/routes/inbound.py: the webhook by which the gateway hands over received messages and
-- delivery receipts.
use sms_relay.Common.{
  ℕ, Bool, true, false, ◌&&◌, ◌||◌, not, Option, none, some, [], ◌∷◌, ◌++◌, ◌==◌, if◌then◌else◌,
  take, select, Text, text, str_eq, is_empty,
}
use sms_relay.Auth.{SignedRequest, verify_inbound_signature}
use sms_relay.Common.Dict.{lookup}
use sms_relay.Common.Json.{Json, null, bool, num, str, arr, obj, Props, props, truthy, or_else, get}
use sms_relay.Common.Result.{
  Fault, Result, ok, raise, http, invalid_phone_number, value_error, integrity_error, require,
  ◌>>=◌, ◌>>◌, raise_if,
}
use sms_relay.Config.{Settings, to_str}
use sms_relay.External.{External, Loaded, loaded, malformed, undecodable}
use sms_relay.Messages.{one_or_none}
use sms_relay.Models.{
  Message, WebhookDelivery, MessageStatus, inbound, received, sms, is_inbound, status_eq,
}
use sms_relay.Models.Db.{Db, opt_eq, message_clash, insert_all, update_message}
use sms_relay.Phone.{normalize_json}
use sms_relay.Providers.{column_text}
use sms_relay.Webhooks.{enqueue_fanout}
pub mod Changes
pub mod Duplicates
pub mod Growing
pub mod Keeping
pub mod Races
pub mod Receipts
pub mod Settling

-- What the route answers with 202.
pub data InboundReply : Type 0 where
  ignored unknown : InboundReply
  duplicate : (id : Text) → InboundReply
  accepted : (id : Text) → (subscribers : ℕ) → InboundReply
  updated : (id : Text) → InboundReply

-- `event.get("payload")` if that is a dict, else the event.
unfoldable pub payload_of : Props → Props
payload_of event = elim (get (text "payload") event) [ obj ps ↦ ps | _ ↦ event ]

-- `_extract`, one definition for each part.
unfoldable pub sender_of : Props → Json
unfolding payload_of
sender_of event =
    let payload = payload_of event in
    or_else (get (text "phoneNumber") payload)
      (or_else (get (text "from") payload) (get (text "sender") payload))

unfoldable pub body_of : Props → Json
unfolding payload_of
body_of event =
    let payload = payload_of event in
    or_else (get (text "message") payload)
      (or_else (get (text "text") payload) (or_else (get (text "body") payload) (str [])))

unfoldable pub received_at_of : Props → Json
unfolding payload_of
received_at_of event =
    or_else (get (text "receivedAt") (payload_of event)) (get (text "receivedAt") event)

unfoldable pub provider_id_of : External → Props → Text
unfolding payload_of to_str
provider_id_of x event =
    let payload = payload_of event in
    to_str x (
      or_else (get (text "id") event)
        (or_else (get (text "messageId") payload) (or_else (get (text "id") payload) (str []))))

-- The id in a receipt.
unfoldable pub receipt_id_of : External → Props → Text
unfolding payload_of to_str
receipt_id_of x event =
    let payload = payload_of event in
    to_str x (or_else (get (text "messageId") payload) (or_else (get (text "id") payload) (str [])))

-- `value.replace("Z", "+00:00")`
unfoldable pub zone_spelled : Text → Text
zone_spelled [] = []
zone_spelled (c ∷ s) =
    let rest = zone_spelled s in if c == b'Z' then text "+00:00" ++ rest else c ∷ rest

-- `_parse_timestamp`
unfoldable pub parse_timestamp : External → ℕ → Json → ℕ
unfolding zone_spelled
parse_timestamp x now (str s) = elim (x.fromisoformat (zone_spelled s)) [ none ↦ now | some t ↦ t ]
parse_timestamp x now _ = now

-- A text as a nullable column: `provider_id or None`.
abbrev pub or_none : Text → Option Text
or_none [] = none
or_none (c ∷ s) = some (c ∷ s)

abbrev pub has_provider_id : Text → Message → Bool
has_provider_id id m = opt_eq m.provider_message_id (some id)

-- The inbound row that already has a provider's id.
unfoldable pub already_received : Text → Db → Result (Option Message)
unfolding one_or_none
already_received provider_id db =
    if is_empty provider_id
    then ok none
    else one_or_none (
        select (λ (m : Message). is_inbound m.direction && has_provider_id provider_id m)
          db.messages)

module _ (x : External) (settings : Settings) where
  -- `from_number`: a number, or the first 20 characters of a sender that is none.
  unfoldable pub from_number_of : Json → Result (Option Text)
  unfolding normalize_json to_str
  from_number_of sender =
      if truthy sender
      then elim (normalize_json x settings sender) [
        | ok n ↦ ok (some n)
        | raise (invalid_phone_number e) ↦ ok (some (take 20 (to_str x sender)))
        | raise e ↦ raise e
      ]
      else ok none

  -- The new row, with its body bound to a text column.
  abbrev pub inbound_message : Text → ℕ → Props → Option Text → Text → Message
  inbound_message id now event from_number body = record {
    id = id;
    direction = inbound;
    status = received;
    to_number = none;
    from_number = from_number;
    body = body;
    service = text "inbound";
    idempotency_key = none;
    transport = sms;
    notification_topic = none;
    notification_priority = 3;
    attempts = 0;
    next_attempt_at = none;
    provider_message_id = or_none (provider_id_of x event);
    error = none;
    created_at = parse_timestamp x now (received_at_of event);
    updated_at = now;
    sent_at = none;
  }

  -- The insertion of the row, its deliveries and the commit of both.
  unfoldable pub store_inbound : ℕ → (ℕ → Text) → Message → Db → Result InboundReply × Db
  unfolding insert_all enqueue_fanout
  store_inbound now uuid4 message db = elim (insert_all message_clash (message ∷ []) db.messages) [
    | none ↦ (raise integrity_error, db)
    | some rows ↦ elim (enqueue_fanout settings now uuid4 message db.deliveries) [
      | raise e ↦ (raise e, db)
      | ok (fanned, stored) ↦
          (ok (accepted message.id fanned), record { messages = rows; deliveries = stored })
    ]
  ]

  -- The steps that only read: the sender, the duplicate if there is one, and the body as a text.
  unfoldable pub inbound_read : Props → Db → Result (Option Text × Option Message)
  unfolding from_number_of already_received
  inbound_read event db = do
    raise_if (not (truthy (body_of event))) (http 400 (text "message body is empty"))
    from_number ← from_number_of (sender_of event)
    already ← already_received (provider_id_of x event) db
    ok (from_number, already)

  -- The insertion of a message that is not known yet.
  unfoldable pub receive_new :
      ℕ → Text → (ℕ → Text) → Props → Option Text → Db → Result InboundReply × Db
  unfolding store_inbound
  receive_new now id uuid4 event from_number db =
      elim (column_text x (body_of event) >>= λ (b : Option Text). require b integrity_error) [
        | raise e ↦ (raise e, db)
        | ok body ↦ store_inbound now uuid4 (inbound_message id now event from_number body) db
      ]

  -- A received message. Other commits may fall between the reads, from `seen`, and the commit, to `db`.
  unfoldable pub receive : ℕ → Text → (ℕ → Text) → Props → (seen db : Db) → Result InboundReply × Db
  unfolding inbound_read receive_new
  receive now id uuid4 event seen db = elim (inbound_read event seen) [
    | raise e ↦ (raise e, db)
    | ok (from_number, some known) ↦ (ok (duplicate known.id), db)
    | ok (from_number, none) ↦ receive_new now id uuid4 event from_number db
  ]

-- The write of a receipt: the ORM updates a row only if the status that it has read changes.
unfoldable pub mark_delivered : ℕ → Message → Db → Db
mark_delivered now m db =
    if status_eq m.status MessageStatus.delivered
    then db
    else update_message m.id
        (λ row. record row { status = MessageStatus.delivered; updated_at = now }) db

-- `_apply_receipt`, which reads from `seen` and writes to `db`. A row that is pruned in between is not
-- written, which the ORM answers with an error.
unfoldable pub apply_receipt :
    External → ℕ → (is_delivered : Bool) → Props → (seen db : Db) → Result InboundReply × Db
unfolding receipt_id_of one_or_none mark_delivered
apply_receipt x now is_delivered event seen db =
    let provider_id = receipt_id_of x event in
    if is_empty provider_id
    then (ok ignored, db)
    else elim (one_or_none (select (has_provider_id provider_id) seen.messages)) [
      | raise e ↦ (raise e, db)
      | ok none ↦ (ok unknown, db)
      | ok (some m) ↦ (ok (updated m.id), if is_delivered then mark_delivered now m db else db)
    ]

-- `event.get("event", "sms:received")`
unfoldable pub event_type : Props → Json
event_type event = elim (lookup (text "event") (props event)) [
  | none ↦ str (text "sms:received")
  | some v ↦ v
]

abbrev pub is_kind : Text → Json → Bool
is_kind kind (str t) = str_eq t kind
is_kind kind _ = false

abbrev pub is_reception : Json → Bool
is_reception t = is_kind (text "sms:received") t || is_kind (text "message.received") t

module _ (x : External) (settings : Settings) where
  -- By the type of the event.
  unfoldable pub handle_event :
      ℕ → Text → (ℕ → Text) → Props → (seen db : Db) → Result InboundReply × Db
  unfolding event_type receive apply_receipt
  handle_event now id uuid4 event seen db =
      if is_reception (event_type event)
      then receive x settings now id uuid4 event seen db
      else if is_kind (text "sms:delivered") (event_type event)
      then apply_receipt x now true event seen db
      else if is_kind (text "sms:sent") (event_type event)
      then apply_receipt x now false event seen db
      else (ok ignored, db)

  -- `android_gateway_inbound` on a body whose signature has been checked.
  unfoldable pub android_gateway_inbound :
      ℕ → Text → (ℕ → Text) → Text → (seen db : Db) → Result InboundReply × Db
  unfolding handle_event
  android_gateway_inbound now id uuid4 raw_body seen db = elim (x.loads raw_body) [
    | malformed ↦ (raise (http 400 (text "body is not JSON")), db)
    | undecodable ↦ (raise value_error, db)
    | loaded (obj event) ↦ handle_event now id uuid4 event seen db
    | loaded _ ↦ (raise (http 400 (text "expected a JSON object")), db)
  ]

  -- The route, with the check that it depends on.
  unfoldable pub inbound_webhook :
      ℕ → Text → (ℕ → Text) → SignedRequest → (seen db : Db) → Result InboundReply × Db
  unfolding android_gateway_inbound verify_inbound_signature
  inbound_webhook now id uuid4 request seen db =
      elim (verify_inbound_signature x settings request) [
        | raise e ↦ (raise e, db)
        | ok raw_body ↦ android_gateway_inbound now id uuid4 raw_body seen db
      ]
