-- ===== src/Tests/Alerts.antt =====
-- The Grafana webhook (app/sms_relay/routes/grafana.py) on a group of two alerts.
use sms_relay.Common.{
  ◌≡◌, refl, inl, true, some, [], ◌∷◌, arith, if◌then◌else◌, replicate, Text, text, str_eq, strip,
  join,
}
use mathlib.Core.List.{Permᴰ}
use sms_relay.Common.Json.{Json, str, arr, obj, nil, cons, end, prop}
use sms_relay.Common.Json.{subscript}
use sms_relay.Common.Result.{◌>>=◌, ok, traverse}
use sms_relay.External.{External, loaded}
use sms_relay.Grafana.{
  recipients_field, group_request, grafana_request, grafana, load_body, read_body, read_entries,
}
use sms_relay.Grafana.Alerts.{Entry, firing, resolved, entries_of}
use sms_relay.Grafana.Fields.{group_request-is_valid}
use sms_relay.Grafana.Repeats.{sent_entries, grafana_recipients_fixed, grafana_again}
use sms_relay.Schemas.{is_valid_request}
use sms_relay.Common.Sort.{sort}
use sms_relay.Notifications.{topic_for}
use sms_relay.Phone.{normalize, normalize_json}
use sms_relay.Tests.Fixtures.{libraries, configured, ids, empty_db, queue}

abbrev alert : Text → Text → Json
alert name status = obj (
    prop (text "labels") (obj (prop (text "alertname") (str name) end)) (
      prop (text "status") (str status)
        (prop (text "fingerprint") (str name) (prop (text "startsAt") (str (text "2026")) end))))

abbrev group : Json → Json → Json
group a b = obj (prop (text "alerts") (arr (cons a (cons b nil))) end)

abbrev disk : Json
disk = alert (text "disk") (text "firing")

abbrev load : Json
load = alert (text "load") (text "resolved")

-- A reader that finds the alerts in one order in the body "1" and in the other elsewhere.
abbrev alert_libraries : External
alert_libraries = record libraries {
  sha256 = λ body. replicate 64 b'0';
  loads = λ body. loaded (if str_eq body (b'1' ∷ []) then group disk load else group load disk);
  fromisoformat = λ s. some 0;
}

abbrev disk_entry : Entry
disk_entry = record {
  fingerprint = text "disk";
  starts = text "2026";
  state = firing;
  reminder = 0;
  line = text "[FIRING] disk: disk";
  priority = 3;
}

abbrev load_entry : Entry
load_entry = record {
  fingerprint = text "load";
  starts = text "2026";
  state = resolved;
  reminder = 0;
  line = text "[RESOLVED] load: Alert condition cleared.";
  priority = 1;
}

group_request-is_valid_example :
    is_valid_request
      (group_request alert_libraries (inl (text "+15550001")) (disk_entry ∷ load_entry ∷ []))
    ≡ true
unfolding entries_of str_eq text is_valid_request join
group_request-is_valid_example =
    group_request-is_valid alert_libraries (λ n. n) (inl (text "+15550001")) (disk ∷ load ∷ [])
      (λ _. refl) (omega arith) (omega arith) refl

abbrev configured_route : Json
configured_route =
    obj (prop (text "to") (str (text "+15550001")) (prop (text "topic") (str (text "alerts")) end))

grafana_recipients_fixed_example :
    (str_eq (text "grafana") (text "grafana") ≡ true)
    × ((subscript configured_route (text "to") >>= recipients_field) ≡ ok (inl (text "+15550001")))
unfolding grafana_request str_eq text sort join
grafana_recipients_fixed_example =
    grafana_recipients_fixed alert_libraries configured (text "grafana") (λ n. n) ((b'1' ∷ []) ∷ [])
      refl

grafana_again_example :
    grafana alert_libraries configured
      (text "grafana")
      (λ n. n)
      50
      ids
      ((b'2' ∷ []) ∷ [])
      (grafana alert_libraries configured
        (text "grafana")
        (λ n. n)
        9
        ids
        ((b'1' ∷ []) ∷ [])
        empty_db
        empty_db).1
      queue
    ≡ (ok 2, queue)
unfolding sent_entries read_body load_body read_entries str_eq text grafana sort join traverse
    normalize strip topic_for normalize_json
grafana_again_example =
    grafana_again alert_libraries configured (text "grafana") (λ n. n) (λ n. n) 9 50 ids ids
      ((b'1' ∷ []) ∷ []) ((b'2' ∷ []) ∷ []) empty_db _ queue (λ _. refl) refl refl
      (Permᴰ.swap refl refl) refl
