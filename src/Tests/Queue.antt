-- ===== src/Tests/Queue.antt =====
-- Sends, reads and keys (app/sms_relay/routes/messages.py, app/sms_relay/auth.py,
-- app/sms_relay/notifications.py, app/sms_relay/phone.py, app/sms_relay/config.py).
use sms_relay.Common.{
  ◌-◌, min, ◌≡◌, refl, ◌↔◌, ◌⊎◌, inr, false, none, some, List, [], ◌∷◌, ◌++◌, map, arith, length,
  All, Text, text, str_eq, is_empty, strip,
}
use sms_relay.Auth.{presented_key, require_api_key}
use sms_relay.Auth.Keys.{require_api_key_iff}
use sms_relay.Common.Dict.{lookup, IsDict}
use sms_relay.Common.Result.{Fault, ok, raise, integrity_error, traverse}
use sms_relay.Common.Sort.{IsSorted}
use sms_relay.Messages.{
  ListQuery, send_message, list_messages, existing_by_idempotency_key, checked_recipients,
  new_messages,
}
use sms_relay.Messages.Idempotency.{send_message_replay, send_message_race}
use sms_relay.Messages.Queueing.{AreQueuedFor, send_message_all_or_nothing, empty_key_refused}
use sms_relay.Messages.Reading.{IsVisible, shown_newer, list_messages-IsVisible}
use sms_relay.Models.{Message}
use sms_relay.Notifications.{topic_for}
use sms_relay.Notifications.Routing.{Admits, topic_for-Admits}
use sms_relay.Phone.{redact, normalize, normalize_json}
use sms_relay.Phone.Redaction.{redact_only_last_four}
use sms_relay.Schemas.{message_out}
use sms_relay.Config.{api_keys_of}
use sms_relay.Config.ApiKeys.{owner, api_keys_of-lookup}
use sms_relay.Common.Json.{str, obj, Props, end, prop, props}
use sms_relay.Tests.Fixtures.{
  libraries, configured, ids, request, unkeyed, empty_keyed, empty_db, waiting, queue, inbox,
}

send_message_replay_example :
    send_message libraries configured request (text "grafana") 50 ids queue inbox
    ≡ (ok (message_out waiting ∷ []), inbox)
unfolding text send_message traverse normalize strip topic_for str_eq normalize_json
send_message_replay_example =
    send_message_replay libraries configured request request (text "grafana") 7 50 ids ids empty_db
      queue inbox refl refl refl refl

send_message_race_example :
    send_message libraries configured request (text "grafana") 9 ids empty_db queue
    ≡ (ok (message_out waiting ∷ []), queue)
unfolding text checked_recipients traverse normalize strip new_messages topic_for str_eq
    normalize_json existing_by_idempotency_key
send_message_race_example =
    send_message_race libraries configured request (text "grafana") 9 ids empty_db queue refl refl
      refl refl refl

send_message_all_or_nothing_example :
    ((e : Fault) × (send_message libraries configured unkeyed (text "grafana") 9 ids queue queue
        ≡ (raise e, queue)))
    ⊎ ((created : List Message) × AreQueuedFor libraries configured unkeyed
          (text "grafana")
          9
          ids
          (text "+15550001" ∷ text "+15550002" ∷ [])
          created
        × (send_message libraries configured unkeyed (text "grafana") 9 ids queue queue ≡ (
          ok (map message_out created),
          record queue { messages = queue.messages ++ created },
        )))
unfolding checked_recipients traverse normalize strip text
send_message_all_or_nothing_example =
    send_message_all_or_nothing libraries configured unkeyed (text "grafana") 9 ids queue queue refl
      refl

empty_key_refused_example :
    send_message libraries configured empty_keyed (text "grafana") 9 ids queue queue
    ≡ (raise integrity_error, queue)
unfolding checked_recipients traverse normalize strip text new_messages topic_for str_eq
    normalize_json
empty_key_refused_example =
    empty_key_refused libraries configured empty_keyed (text "grafana") 9 ids queue queue refl refl
      refl (inr (omega arith))

abbrev first_page : ListQuery
first_page = record { direction = none; message_status = none; limit = 1; offset = 0 }

list_messages-IsVisible_example :
    All (IsVisible (text "grafana")) (list_messages first_page (text "grafana") queue).0
    × (length (list_messages first_page (text "grafana") queue).0
        ≡ min 1 ((list_messages first_page (text "grafana") queue).1 - 0))
    × IsSorted
        (shown_newer first_page (text "grafana"))
        (list_messages first_page (text "grafana") queue).0
list_messages-IsVisible_example = list_messages-IsVisible first_page (text "grafana") queue

require_api_key_iff_example :
    (require_api_key configured none (some (text " k1 ")) ≡ ok (text "grafana")) ↔ (
      (is_empty (presented_key none (some (text " k1 "))) ≡ false)
      × (lookup (presented_key none (some (text " k1 "))) configured.api_keys
          ≡ some (text "grafana"))
      × (is_empty (text "grafana") ≡ false))
unfolding presented_key text strip
require_api_key_iff_example =
    require_api_key_iff configured none (some (text " k1 ")) (text "grafana") refl (refl, tt)
      (refl, tt)

topic_for-Admits_example :
    (topic_for libraries configured (text "grafana") (text "+15550001") (text "disk full")
      ≡ ok (some (text "alerts")))
    ↔ Admits libraries configured
        (text "grafana")
        (text "+15550001")
        (text "disk full")
        (text "alerts")
topic_for-Admits_example =
    topic_for-Admits libraries configured (text "grafana") (text "+15550001") (text "disk full")
      (text "alerts")

redact_only_last_four_example :
    (length (redact libraries.isdigit (some (text "+15550001"))) ≡ 8)
    × (redact libraries.isdigit (some (text "+15550001"))
        ≡ redact libraries.isdigit (some (text "+49770001")))
unfolding text
redact_only_last_four_example =
    redact_only_last_four libraries.isdigit b'+' b'+' (text "15550001") (text "49770001") refl
      (λ _. refl)

abbrev key_map : Props
key_map = prop (text "grafana") (str (text "k1")) (prop (text "home") (str (text "k1")) end)

api_keys_of-lookup_example :
    IsDict (api_keys_of libraries (obj key_map))
    × ((key : Text)
        → lookup key (api_keys_of libraries (obj key_map)) ≡ owner libraries key (props key_map))
api_keys_of-lookup_example = api_keys_of-lookup libraries key_map
