-- ===== src/Models.antt =====
-- app/sms_relay/models.py: the two tables and their enumerations. A time is a count of
-- microseconds since the first one that `datetime` can hold.
pub mod Db
pub mod Held
pub mod Lifecycle
use sms_relay.Common.{ℕ, Bool, true, false, Option, ◌==◌, Text, text}

abbrev pub second : ℕ
second = 1000000

pub data Direction : Type 0 where
  outbound inbound : Direction

pub data MessageStatus : Type 0 where
  queued sending sent delivered failed published received : MessageStatus

-- The values that `messages.transport` takes.
pub data Transport : Type 0 where
  sms ntfy sms_fallback : Transport

-- The values that `webhook_deliveries.status` takes.
pub data DeliveryStatus : Type 0 where
  pending delivered failed cancelled : DeliveryStatus

abbrev pub is_outbound : Direction → Bool
is_outbound outbound = true
is_outbound inbound = false

abbrev pub is_inbound : Direction → Bool
is_inbound outbound = false
is_inbound inbound = true

abbrev status_code : MessageStatus → ℕ
status_code queued = 0
status_code sending = 1
status_code sent = 2
status_code MessageStatus.delivered = 3
status_code MessageStatus.failed = 4
status_code published = 5
status_code received = 6

abbrev pub status_eq : MessageStatus → MessageStatus → Bool
status_eq s t = status_code s == status_code t

abbrev pub is_pending : DeliveryStatus → Bool
is_pending pending = true
is_pending _ = false

abbrev pub is_ntfy : Transport → Bool
is_ntfy ntfy = true
is_ntfy _ = false

-- The texts behind the members of the StrEnum classes.
unfoldable pub direction_value : Direction → Text
direction_value outbound = text "outbound"
direction_value inbound = text "inbound"

unfoldable pub status_value : MessageStatus → Text
status_value queued = text "queued"
status_value sending = text "sending"
status_value sent = text "sent"
status_value MessageStatus.delivered = text "delivered"
status_value MessageStatus.failed = text "failed"
status_value published = text "published"
status_value received = text "received"

-- TERMINAL_STATUSES
abbrev pub is_terminal : MessageStatus → Bool
is_terminal MessageStatus.delivered = true
is_terminal MessageStatus.failed = true
is_terminal received = true
is_terminal published = true
is_terminal _ = false

pub record Message : Type 0 where
  pub id : Text
  pub direction : Direction
  pub status : MessageStatus
  pub to_number : Option Text
  pub from_number : Option Text
  pub body : Text
  pub service : Text
  pub idempotency_key : Option Text
  pub transport : Transport
  pub notification_topic : Option Text
  pub notification_priority : ℕ
  pub attempts : ℕ
  pub next_attempt_at : Option ℕ
  pub provider_message_id : Option Text
  pub error : Option Text
  pub created_at : ℕ
  pub updated_at : ℕ
  pub sent_at : Option ℕ

pub record WebhookDelivery : Type 0 where
  pub id : Text
  pub message_id : Text
  pub subscriber : Text
  pub url : Text
  pub status : DeliveryStatus
  pub attempts : ℕ
  pub next_attempt_at : Option ℕ
  pub response_code : Option ℕ
  pub error : Option Text
  pub created_at : ℕ
  pub updated_at : ℕ
