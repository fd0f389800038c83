-- ===== src/Notifications.antt =====
-- app/sms_relay/notifications.py: which messages go to an ntfy topic, and the publication.
use sms_relay.Common.{
  ℕ, Bool, false, ◌&&◌, ◌||◌, not, Option, none, some, leb, ◌==◌, if◌then◌else◌, length, all, Text,
  text, str_eq, is_empty,
}
use sms_relay.Common.Dict.{lookup}
use sms_relay.Common.Json.{Json, null, str, obj, end, props, truthy, get, subscript}
use sms_relay.Common.Result.{
  Fault, Result, ok, raise, value_error, type_error, attribute_error, re_error, transport_error,
  other_error, ◌>>=◌, ◌>>◌, raise_if, require,
}
use sms_relay.Config.{Settings}
use sms_relay.External.{External, Loaded, loaded, malformed, undecodable}
use sms_relay.Phone.{normalize_json}
pub mod Routing

-- [a-zA-Z0-9_-]
unfoldable pub is_topic_char : ℕ → Bool
is_topic_char c =
    (leb b'a' c && leb c b'z')
    || (leb b'A' c && leb c b'Z')
    || (leb b'0' c && leb c b'9')
    || c == b'_'
    || c == b'-'

-- re.fullmatch(r"[a-zA-Z0-9_-]{1,64}", topic)
unfoldable pub is_topic : Text → Bool
unfolding is_topic_char
is_topic t = leb 1 (length t) && leb (length t) 64 && all is_topic_char t

-- `route.get(k)` on a route that has had a subscript: a dict.
unfoldable pub route_get : Json → Text → Result Json
route_get (obj ps) k = ok (get k ps)
route_get _ k = raise attribute_error

module _ (x : External) (settings : Settings) where
  open x use {re_search}

  -- `pattern and not re.search(pattern, body)`: true where the body does not match.
  unfoldable pub pattern_misses : Json → Text → Result Bool
  pattern_misses (str p) body =
      if is_empty p
      then ok false
      else elim (re_search p body) [ none ↦ raise re_error | some hit ↦ ok (not hit) ]
  pattern_misses v body = if truthy v then raise type_error else ok false

  -- `route.get("topic", "")`: a value that is no text is a TypeError of `re.fullmatch`.
  unfoldable pub topic_of : Json → Result Text
  unfolding is_topic
  topic_of (obj ps) = elim (lookup (text "topic") (props ps)) [
    | none ↦ raise value_error
    | some (str t) ↦ if is_topic t then ok t else raise value_error
    | some _ ↦ raise type_error
  ]
  topic_of _ = raise attribute_error

  -- The route of a service, an empty dict where there is none.
  unfoldable pub route_for : Text → Json
  route_for service = elim (lookup service settings.notification_routes) [
    | none ↦ obj end
    | some r ↦ r
  ]

  -- `topic_for` once there is a route.
  unfoldable pub topic_by : Json → Text → Text → Result (Option Text)
  unfolding pattern_misses topic_of route_get
  topic_by route recipient body = do
    owner ← normalize_json x settings (← subscript route (text "to"))
    if not (str_eq owner recipient) then ok none else do
      missed ← pattern_misses (← route_get route (text "bodyPattern")) body
      if missed then ok none else (do ok (some (← topic_of route)))

  unfoldable pub topic_for : Text → Text → Text → Result (Option Text)
  unfolding route_for topic_by
  topic_for service recipient body =
      let route = route_for service in
      if not (truthy route) || is_empty settings.ntfy_url
      then ok none
      else topic_by route recipient body

-- What the POST to ntfy came to: the exchange failed (HTTPError or TimeoutError), another exception
-- (a URL that httpx cannot read, say), or an answer.
pub data Exchange : Type 0 where
  unreachable broken : Exchange
  answered : (status_code : ℕ) → (body : Text) → Exchange

-- `response.is_success`, outside of which `raise_for_status` raises.
abbrev pub is_success : ℕ → Bool
is_success status_code = leb 200 status_code && leb status_code 299

-- The receipt's id, or a ValueError if ntfy did not acknowledge a message.
unfoldable pub acknowledged : Json → Result Text
acknowledged (obj ps) = elim (get (text "event") ps) [
  | str event ↦
      if str_eq event (text "message")
      then elim (get (text "id") ps) [ str id ↦ ok id | _ ↦ raise value_error ]
      else raise value_error
  | _ ↦ raise value_error
]
acknowledged _ = raise value_error

-- `publish`, which returns the id of the receipt.
unfoldable pub publish : External → Exchange → Result Text
unfolding acknowledged
publish x unreachable = raise transport_error
publish x broken = raise other_error
publish x (answered status_code body) =
    if is_success status_code
    then elim (x.loads body) [
      | loaded v ↦ acknowledged v
      | malformed ↦ raise value_error
      | undecodable ↦ raise value_error
    ]
    else raise transport_error
