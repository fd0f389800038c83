-- ===== src/Tests/Hooks.antt =====
-- The webhooks, their fan-out, the gateway and the Grafana text (app/sms_relay/webhooks.py,
-- app/sms_relay/routes/inbound.py, app/sms_relay/providers/, app/sms_relay/routes/grafana.py).
use sms_relay.Common.{
  ℕ, ◌+◌, ◌≡◌, refl, inl, true, false, none, some, [], ◌∷◌, arith, length, Text, text, str_eq,
  strip,
}
use sms_relay.Auth.{SignedRequest, verify_inbound_signature}
use sms_relay.Common.Json.{str, obj, prop, end}
use sms_relay.Common.Result.{Fault, ok, raise, integrity_error}
use sms_relay.Config.{Settings, is_interested}
use sms_relay.External.{External, loaded}
use sms_relay.Inbound.{
  apply_receipt, updated, receipt_id_of, duplicate, android_gateway_inbound, inbound_webhook,
  body_of, parse_timestamp, provider_id_of, received_at_of, sender_of,
}
use sms_relay.Inbound.Races.{inbound_race}
use sms_relay.Models.Db.{Db}
use sms_relay.Common.Result.{multiple_results_found}
use sms_relay.Inbound.Duplicates.{inbound_again}
use sms_relay.Inbound.Keeping.{KeepsSound, inbound_webhook-KeepsSound}
use sms_relay.Payload.{DeliveryRequest, payload, request_of}
use sms_relay.Payload.Signing.{request_verified}
use sms_relay.Providers.{column_text}
use sms_relay.Inbound.Receipts.{AreDelivered, apply_receipt-AreDelivered}
use sms_relay.Tests.Fixtures.{
  gateway_event, libraries, configured, hook, ids, empty_db, incoming, to_hook, queue, inbox,
}
use sms_relay.Webhooks.{
  PostOutcome, enqueue_fanout, after_failure, fanout_round, deliver, deliver_row, due_deliveries,
}
use sms_relay.Webhooks.Delivering.{IsAttempted, deliver-IsAttempted}
use sms_relay.Common.Sort.{sort}
use sms_relay.Webhooks.Fanout.{fanout_round_poisoned, twins_stop_fanout}

abbrev refuse : DeliveryRequest → PostOutcome
refuse _ = PostOutcome.http_error (text "timed out")

deliver-IsAttempted_example :
    IsAttempted 10 to_hook
      (after_failure 10 (record to_hook { attempts = 1; error = some (text "timed out") }))
unfolding deliver str_eq text
deliver-IsAttempted_example =
    deliver-IsAttempted libraries configured 10 refuse to_hook incoming (omega arith) refl

fanout_round_poisoned_example :
    fanout_round libraries configured 10 (λ _. PostOutcome.broken) inbox inbox ≡ inbox
unfolding due_deliveries sort deliver_row str_eq text
fanout_round_poisoned_example =
    fanout_round_poisoned libraries configured 10 (λ _. PostOutcome.broken) inbox inbox (inl refl)

abbrev twins : Settings
twins = record configured { subscribers = hook ∷ hook ∷ [] }

twins_stop_fanout_example : enqueue_fanout twins 9 ids incoming [] ≡ raise integrity_error
unfolding is_interested str_eq text
twins_stop_fanout_example =
    twins_stop_fanout 9 ids incoming twins [] (λ other. refl) (inl (refl, inl (refl, refl)))

inbound_again_example :
    android_gateway_inbound libraries configured 50 (text "new") ids (text "{}") inbox queue
    ≡ (ok (duplicate (text "in")), queue)
unfolding provider_id_of str_eq text android_gateway_inbound body_of sender_of strip column_text
    is_interested parse_timestamp received_at_of
inbound_again_example =
    inbound_again libraries configured 9 50 (text "in") (text "new") ids ids (text "{}")
      gateway_event empty_db inbox queue refl refl refl

abbrev signed : SignedRequest
signed = record { body = text "{}"; x_signature = some (text "5a"); x_hub_signature = none }

abbrev other_ids : ℕ → Text
other_ids n = (n + 120) ∷ []

-- What two deliveries of one event leave.
abbrev received_twice : Db
received_twice =
    (android_gateway_inbound libraries configured 9 (text "in2") other_ids (text "{}") empty_db
      inbox).1

inbound_race_example :
    (length received_twice.messages ≡ length empty_db.messages + 2)
    × (android_gateway_inbound libraries configured 50
          (text "in3")
          ids
          (text "{}")
          received_twice
          queue
        ≡ (raise multiple_results_found, queue))
unfolding provider_id_of str_eq text android_gateway_inbound body_of sender_of strip column_text
    is_interested parse_timestamp received_at_of
inbound_race_example =
    inbound_race libraries configured (text "{}") gateway_event refl 9 9 50 (text "in") (text "in2")
      (text "in3") ids other_ids ids empty_db empty_db inbox received_twice queue refl refl refl

inbound_webhook-KeepsSound_example :
    KeepsSound queue (inbound_webhook libraries configured 9 (text "in") ids signed empty_db queue)
    × ((e : Fault)
        → verify_inbound_signature libraries configured signed ≡ raise e
        → inbound_webhook libraries configured 9 (text "in") ids signed empty_db queue
          ≡ (raise e, queue))
inbound_webhook-KeepsSound_example =
    inbound_webhook-KeepsSound libraries configured 9 (text "in") ids signed empty_db queue
      (record {
        valid = record { messages_distinct = (tt, tt); deliveries_distinct = tt };
        referential = tt;
      })

request_verified_example :
    verify_inbound_signature libraries configured (record {
      body = (request_of libraries hook to_hook incoming).content;
      x_signature = (request_of libraries hook to_hook incoming).x_signature;
      x_hub_signature = none;
    })
    ≡ ok (payload libraries incoming)
unfolding text
request_verified_example =
    request_verified libraries configured hook to_hook incoming (λ _ _. refl) (λ _ _. refl) refl
      refl

abbrev state_libraries : External
state_libraries = record libraries {
  loads = λ s. loaded (obj (prop (text "state") (str (text "Delivered")) end));
}

apply_receipt-AreDelivered_example :
    ((id : Text)
      → (apply_receipt libraries 20 true gateway_event inbox inbox).0 ≡ ok (updated id)
      → AreDelivered
          (receipt_id_of libraries gateway_event)
          (apply_receipt libraries 20 true gateway_event inbox inbox).1.messages)
    × ((apply_receipt libraries 20 false gateway_event inbox inbox).1 ≡ inbox)
apply_receipt-AreDelivered_example = apply_receipt-AreDelivered libraries 20 gateway_event inbox
