-- ===== src/Config.antt =====
-- app/sms_relay/config.py: the settings, read from the environment.
pub mod ApiKeys
pub mod Numbers
use sms_relay.Common.{
  ℕ, zero, suc, ◌+◌, ◌-◌, ◌*◌, Bool, true, false, ◌&&◌, Option, none, some, List, [], ◌∷◌, map,
  reverse, leb, length, select, ◌==◌, if◌then◌else◌, any, Text, text, str_eq, is_empty, strip,
}
use sms_relay.Common.Int.{ℤ, pos, negsuc}
use sms_relay.Common.Dict.{Dict, lookup, insert}
use sms_relay.Common.Json.{end, nil, Json, str, arr, obj, elems, props, truthy, or_else, get}
use sms_relay.External.{External, loaded, malformed, undecodable}

-- os.environ
abbrev pub Environ : Type 0
Environ = Dict Text

unfoldable pub env : Environ → Text → Text → Text
env environ key default = strip (elim (lookup key environ) [ none ↦ default | some v ↦ v ])

-- The digits of `int(raw)`; an underscore stands between two digits. `prev` tells whether the
-- character before was a digit.
unfoldable pub int_digits : Bool → ℕ → Text → Option ℕ
int_digits prev acc [] = if prev then some acc else none
int_digits prev acc (c ∷ s) =
    let digit = int_digits true (acc * 10 + (c - b'0')) s in
    let gap = int_digits false acc s in
    if leb b'0' c && leb c b'9' then digit else if prev && c == b'_' then gap else none

abbrev negate : ℕ → ℤ
negate zero = pos 0
negate (suc n) = negsuc n

abbrev positive : Option ℕ → Option ℤ
positive none = none
positive (some n) = some (pos n)

abbrev negative : Option ℕ → Option ℤ
negative none = none
negative (some n) = some (negate n)

-- sys.get_int_max_str_digits(): `int` of a text with more digits is a ValueError.
abbrev pub int_max_str_digits : ℕ
int_max_str_digits = 4300

abbrev pub is_digit : ℕ → Bool
is_digit c = leb b'0' c && leb c b'9'

-- The text behind a sign, if there is one.
unfoldable pub int_value : Text → Option ℕ
unfolding int_digits
int_value s =
    let value = int_digits false 0 s in
    if leb (length (select is_digit s)) int_max_str_digits then value else none

-- `int(raw)` for a stripped text in ASCII, None for a ValueError.
unfoldable pub py_int : Text → Option ℤ
unfolding int_value
py_int [] = none
py_int (c ∷ s) =
    if c == b'-'
    then negative (int_value s)
    else if c == b'+'
    then positive (int_value s)
    else positive (int_value (c ∷ s))

unfoldable pub env_int : Environ → Text → ℤ → ℤ
unfolding env py_int
env_int environ key default =
    let raw = env environ key [] in
    if is_empty raw then default else elim (py_int raw) [ none ↦ default | some n ↦ n ]

-- The subscriber and the settings as the dataclasses hold them.
pub record Subscriber : Type 0 where
  pub name : Text
  pub url : Text
  pub secret : Text
  pub events : List Json

pub record Settings : Type 0 where
  pub db_path : Text
  pub provider : Text
  pub gateway_url : Text
  pub gateway_user : Text
  pub gateway_password : Text
  pub default_region : Text
  pub rate_limit_per_minute : ℤ
  pub max_attempts : ℤ
  pub webhook_secret : Text
  pub public_url : Text
  pub dev_output_dir : Text
  pub stuck_after_seconds : ℤ
  pub retention_days : ℤ
  pub ntfy_url : Text
  pub ntfy_user : Text
  pub ntfy_password : Text
  pub notification_routes : Dict Json
  pub api_keys : Dict Text
  pub subscribers : List Subscriber

-- `s.rstrip("/")`
unfoldable pub lstrip_slash : Text → Text
lstrip_slash [] = []
lstrip_slash (c ∷ s) = let rest = lstrip_slash s in if c == b'/' then rest else c ∷ s

unfoldable pub rstrip_slash : Text → Text
unfolding lstrip_slash
rstrip_slash s = reverse (lstrip_slash (reverse s))

module _ (x : External) where
  open x use {loads, json_str}

  -- `str(v)`
  unfoldable pub to_str : Json → Text
  to_str (str s) = s
  to_str v = json_str v

  -- Invalid JSON counts as absent; None is another ValueError, which is not caught.
  unfoldable pub env_json : Environ → Text → Json → Option Json
  unfolding env
  env_json environ key default =
      let raw = env environ key [] in
      if is_empty raw
      then some default
      else elim (loads raw) [ loaded v ↦ some v | malformed ↦ some default | undecodable ↦ none ]

  -- One round of the comprehension in `api_keys`.
  unfoldable pub add_key : Dict Json → Dict Text → Dict Text
  unfolding to_str
  add_key [] keys = keys
  add_key ((name, key) ∷ configured) keys =
      add_key configured (if truthy key then insert (to_str key) name keys else keys)

  unfoldable pub api_keys_of : Json → Dict Text
  unfolding add_key
  api_keys_of (obj ps) = add_key (props ps) []
  api_keys_of _ = []

  unfoldable pub routes_of : Json → Dict Json
  routes_of (obj ps) = props ps
  routes_of _ = []

  -- `tuple(v or ("message.received",))`: a text is a tuple of its characters, a dict one of its
  -- keys; any other value is refused by `tuple` with a TypeError.
  unfoldable pub events_of : Json → Option (List Json)
  events_of v =
      if truthy v
      then elim v [
        | arr vs ↦ some (elems vs)
        | str s ↦ some (map (λ c. str (c ∷ [])) s)
        | obj ps ↦ some (map (λ (p : Text × Json). str p.0) (props ps))
        | _ ↦ none
      ]
      else some (str (text "message.received") ∷ [])

  -- The entry's subscriber, or None where the entry is skipped; the outer None is the TypeError.
  unfoldable pub subscriber_of : Json → Option (Option Subscriber)
  unfolding events_of to_str
  subscriber_of (obj ps) =
      if truthy (get (text "url") ps)
      then elim (events_of (get (text "events") ps)) [
        | none ↦ none
        | some events ↦ some (
            some (record {
              name = to_str (or_else (get (text "name") ps) (get (text "url") ps));
              url = to_str (get (text "url") ps);
              secret = elim (lookup (text "secret") (props ps)) [ none ↦ [] | some v ↦ to_str v ];
              events = events;
            }))
      ]
      else some none
  subscriber_of _ = some none

  unfoldable pub subscribers_from : List Json → Option (List Subscriber)
  unfolding subscriber_of
  subscribers_from [] = some []
  subscribers_from (entry ∷ raw) =
      let rest = subscribers_from raw in
      elim (subscriber_of entry) [
        | none ↦ none
        | some none ↦ rest
        | some (some sub) ↦ elim rest [ none ↦ none | some out ↦ some (sub ∷ out) ]
      ]

  -- The `subscribers` property; None is the TypeError of `tuple`.
  unfoldable pub subscribers_of : Json → Option (List Subscriber)
  unfolding subscribers_from
  subscribers_of (arr vs) = subscribers_from (elems vs)
  subscribers_of _ = some []

  -- The settings that an environment gives; None where reading one of the three that are JSON raises.
  unfoldable pub settings_of : Environ → Option Settings
  unfolding env env_int env_json rstrip_slash routes_of api_keys_of subscribers_of
  settings_of environ = elim (env_json environ (text "SMS_RELAY_NOTIFICATION_ROUTES") (obj end)) [
    | none ↦ none
    | some routes ↦ elim (env_json environ (text "SMS_RELAY_API_KEYS") (obj end)) [
      | none ↦ none
      | some keys ↦ elim (env_json environ (text "SMS_RELAY_SUBSCRIBERS") (arr nil)) [
        | none ↦ none
        | some listed ↦ elim (subscribers_of listed) [
          | none ↦ none
          | some subscribers ↦ some (record {
            db_path = env environ (text "SMS_RELAY_DB_PATH") (text "/data/sms-relay.db");
            provider = env environ (text "SMS_RELAY_PROVIDER") (text "android_gateway");
            gateway_url = rstrip_slash (env environ (text "SMS_RELAY_GATEWAY_URL") []);
            gateway_user = env environ (text "SMS_RELAY_GATEWAY_USER") [];
            gateway_password = env environ (text "SMS_RELAY_GATEWAY_PASSWORD") [];
            default_region = env environ (text "SMS_RELAY_DEFAULT_REGION") (text "US");
            rate_limit_per_minute =
                env_int environ (text "SMS_RELAY_RATE_LIMIT_PER_MINUTE") (pos 30);
            max_attempts = env_int environ (text "SMS_RELAY_MAX_ATTEMPTS") (pos 5);
            webhook_secret = env environ (text "SMS_RELAY_WEBHOOK_SECRET") [];
            public_url = rstrip_slash (env environ (text "SMS_RELAY_PUBLIC_URL") []);
            dev_output_dir = env environ (text "SMS_RELAY_DEV_OUTPUT_DIR") (text "/tmp/sms-relay");
            stuck_after_seconds = env_int environ (text "SMS_RELAY_STUCK_AFTER_SECONDS") (pos 120);
            retention_days = env_int environ (text "SMS_RELAY_RETENTION_DAYS") (pos 90);
            ntfy_url = env environ (text "SMS_RELAY_NTFY_URL") [];
            ntfy_user = env environ (text "SMS_RELAY_NTFY_USER") (text "alerts");
            ntfy_password = env environ (text "SMS_RELAY_NTFY_PASSWORD") [];
            notification_routes = routes_of routes;
            api_keys = api_keys_of keys;
            subscribers = subscribers;
          })
        ]
      ]
    ]
  ]

-- `"message.received" in s.events`
unfoldable pub is_received_event : Json → Bool
is_received_event (str s) = str_eq s (text "message.received")
is_received_event _ = false

unfoldable pub is_interested : Subscriber → Bool
unfolding is_received_event
is_interested sub = any is_received_event sub.events
