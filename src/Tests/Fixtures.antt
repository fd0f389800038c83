-- ===== src/Tests/Fixtures.antt =====
-- A small world for the tests: stand-ins for the libraries that the program calls, settings with one
-- subscriber and one notification route, and a few rows.
use sms_relay.Common.{ℕ, ◌+◌, inl, inr, true, ◌&&◌, none, some, [], ◌∷◌, leb, Text, text, decimal}
use sms_relay.Common.Int.{pos}
use sms_relay.Common.Json.{str, obj, Props, end, prop}
use sms_relay.Config.{Settings, Subscriber}
use sms_relay.External.{External, loaded}
use sms_relay.Models.{
  Message, WebhookDelivery, outbound, inbound, queued, received, sms, ntfy, pending,
}
use sms_relay.Models.Db.{Db}
use sms_relay.Schemas.{SendRequest}

-- What the gateway posts for a message that it received.
abbrev pub gateway_event : Props
gateway_event =
    prop (text "id") (str (text "g1"))
      (prop (text "message") (str (text "hi")) (prop (text "from") (str (text "+15550002")) end))

abbrev pub libraries : External
libraries = record {
  PhoneNumber = Text;
  parse = λ s region. inr s;
  is_valid_number = λ n. true;
  format_number = λ n. n;
  text_repr = λ s. s;
  re_search = λ p s. some true;
  hmac_sha256 = λ key body. text "5a";
  sha256 = λ body. text "00";
  loads = λ s. loaded (obj gateway_event);
  json_str = λ v. [];
  bind_text = λ v. some [];
  fromisoformat = λ s. none;
  names_zone = λ s. true;
  isoformat = λ t. decimal t;
  isdigit = λ c. leb 48 c && leb c 57;
}

abbrev pub hook : Subscriber
hook = record {
  name = text "home";
  url = text "http://home/hook";
  secret = text "s3";
  events = str (text "message.received") ∷ [];
}

abbrev pub configured : Settings
configured = record {
  db_path = text "/data/sms-relay.db";
  gateway_user = [];
  gateway_password = [];
  public_url = [];
  dev_output_dir = text "/tmp/sms-relay";
  ntfy_user = text "alerts";
  ntfy_password = [];
  provider = text "android_gateway";
  gateway_url = text "http://phone";
  default_region = text "US";
  rate_limit_per_minute = pos 2;
  max_attempts = pos 3;
  webhook_secret = text "s3";
  stuck_after_seconds = pos 300;
  retention_days = pos 30;
  ntfy_url = text "http://ntfy";
  notification_routes =
      (
        text "grafana",
        obj (
            prop (text "to") (str (text "+15550001"))
              (prop (text "topic") (str (text "alerts")) end)),
      )
      ∷ [];
  api_keys = (text "k1", text "grafana") ∷ [];
  subscribers = hook ∷ [];
}

abbrev pub ids : ℕ → Text
ids n = (n + 97) ∷ []

abbrev pub request : SendRequest
request = record {
  to = inl (text "+15550001");
  body = text "disk full";
  idempotency_key = some (text "key");
  notification_priority = 3;
}

abbrev pub unkeyed : SendRequest
unkeyed = record request {
  to = inr (text "+15550001" ∷ text "+15550002" ∷ []);
  idempotency_key = none;
}

abbrev pub empty_keyed : SendRequest
empty_keyed = record unkeyed { idempotency_key = some [] }

abbrev pub empty_db : Db
empty_db = record { messages = []; deliveries = [] }

abbrev pub waiting : Message
waiting = record {
  id = 97 ∷ [];
  direction = outbound;
  status = queued;
  to_number = some (text "+15550001");
  from_number = none;
  body = text "disk full";
  service = text "grafana";
  idempotency_key = some (text "key");
  transport = ntfy;
  notification_topic = some (text "alerts");
  notification_priority = 3;
  attempts = 0;
  next_attempt_at = some 7;
  provider_message_id = none;
  error = none;
  created_at = 7;
  updated_at = 7;
  sent_at = none;
}

abbrev pub incoming : Message
incoming = record {
  id = text "in";
  direction = inbound;
  status = received;
  to_number = none;
  from_number = some (text "+15550002");
  body = text "hi";
  service = text "inbound";
  idempotency_key = none;
  transport = sms;
  notification_topic = none;
  notification_priority = 3;
  attempts = 0;
  next_attempt_at = none;
  provider_message_id = some (text "g1");
  error = none;
  created_at = 9;
  updated_at = 9;
  sent_at = none;
}

abbrev pub to_hook : WebhookDelivery
to_hook = record {
  id = 97 ∷ [];
  message_id = text "in";
  subscriber = text "home";
  url = text "http://home/hook";
  status = pending;
  attempts = 0;
  next_attempt_at = some 9;
  response_code = none;
  error = none;
  created_at = 9;
  updated_at = 9;
}

abbrev pub queue : Db
queue = record { messages = waiting ∷ []; deliveries = [] }

abbrev pub inbox : Db
inbox = record { messages = incoming ∷ []; deliveries = to_hook ∷ [] }
