-- ===== src/Schemas.antt =====
-- app/sms_relay/schemas.py: the request that a caller posts, with its bounds, and the view of a
-- message that it gets back.
use sms_relay.Common.{ℕ, ◌⊎◌, Bool, true, ◌&&◌, Option, none, some, List, leb, length, Text}
use sms_relay.Models.{Direction, MessageStatus, Transport, Message}

-- `to` is one recipient or a list.
pub record SendRequest : Type 0 where
  pub notification_priority : ℕ
  pub to : Text ⊎ List Text
  pub body : Text
  pub idempotency_key : Option Text

abbrev key_fits : Option Text → Bool
key_fits none = true
key_fits (some k) = leb (length k) 128

-- The bounds of the fields; a request outside of them never reaches a handler.
unfoldable pub is_valid_request : SendRequest → Bool
is_valid_request r =
    leb 1 r.notification_priority
    && leb r.notification_priority 5
    && leb 1 (length r.body)
    && leb (length r.body) 4000
    && key_fits r.idempotency_key

pub record MessageOut : Type 0 where
  pub id : Text
  pub direction : Direction
  pub status : MessageStatus
  pub to : Option Text
  pub sender : Option Text
  pub body : Text
  pub service : Text
  pub attempts : ℕ
  pub transport : Transport
  pub notification_topic : Option Text
  pub notification_priority : ℕ
  pub provider_message_id : Option Text
  pub error : Option Text
  pub created_at : ℕ
  pub updated_at : ℕ
  pub sent_at : Option ℕ

-- `MessageOut.of`; `sender` is the field `from_`.
unfoldable pub message_out : Message → MessageOut
message_out m = record {
  id = m.id;
  direction = m.direction;
  status = m.status;
  to = m.to_number;
  sender = m.from_number;
  body = m.body;
  service = m.service;
  attempts = m.attempts;
  transport = m.transport;
  notification_topic = m.notification_topic;
  notification_priority = m.notification_priority;
  provider_message_id = m.provider_message_id;
  error = m.error;
  created_at = m.created_at;
  updated_at = m.updated_at;
  sent_at = m.sent_at;
}
