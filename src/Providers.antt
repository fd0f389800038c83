-- ===== src/Providers.antt =====
-- app/sms_relay/providers/: what a handset's gateway answers, turned into the worker's terms.
use sms_relay.Common.{
  ℕ, Bool, false, ◌&&◌, ◌||◌, not, Option, none, some, ◌++◌, ltb, leb, ◌==◌, if◌then◌else◌, take,
  Text, text, str_eq, decimal,
}
use sms_relay.Common.Json.{Json, null, bool, num, str, arr, obj, truthy, get}
use sms_relay.Common.Result.{Result, ok, raise, statement_error, other_error, ◌>>=◌, require}
use sms_relay.External.{External, Loaded, loaded, malformed, undecodable}
use sms_relay.Models.{MessageStatus, sent}
pub mod Dev
pub mod Gateway

-- What one call of the HTTP client came to: an httpx.HTTPError with its text, another exception, or
-- a response with its status and its text.
pub data HttpOutcome : Type 0 where
  http_error : Text → HttpOutcome
  broken : HttpOutcome
  response : (status_code : ℕ) → (body : Text) → HttpOutcome

-- What `provider.send` does: it returns the provider's id of the message, raises a ProviderError, or
-- raises another exception.
pub data SendOutcome : Type 0 where
  accepted : (provider_message_id : Json) → SendOutcome
  provider_error : (message : Text) → (permanent : Bool) → SendOutcome
  crashed : SendOutcome

-- `(response.json() or {}).get(key)`; None is the AttributeError of a value that is no dict.
unfoldable pub body_field : Text → Json → Option Json
body_field key (obj ps) = some (get key ps)
body_field key v = if truthy v then none else some null

abbrev pub is_permanent : ℕ → Bool
is_permanent status_code = leb 400 status_code && ltb status_code 500 && not (status_code == 429)

-- The id in the body of an accepted message.
unfoldable pub accepted_body : External → Text → SendOutcome
unfolding body_field
accepted_body x body = elim (x.loads body) [
  | loaded v ↦ elim (body_field (text "id") v) [ none ↦ crashed | some id ↦ accepted id ]
  | malformed ↦ accepted null
  | undecodable ↦ accepted null
]

-- AndroidGatewayProvider.send, by the outcome of its POST.
unfoldable pub android_send : External → HttpOutcome → SendOutcome
unfolding accepted_body
android_send x (http_error exc) = provider_error (text "gateway unreachable: " ++ exc) false
android_send x broken = crashed
android_send x (response status_code body) =
    if leb 400 status_code
    then provider_error
        (text "gateway returned " ++ (decimal status_code ++ (text ": " ++ take 200 body)))
        (is_permanent status_code)
    else accepted_body x body

-- _STATE_MAP.get(state)
unfoldable pub state_map : Json → Option MessageStatus
state_map (str s) =
    if str_eq s (text "Pending") || str_eq s (text "Processed") || str_eq s (text "Sent")
    then some sent
    else if str_eq s (text "Delivered")
    then some MessageStatus.delivered
    else if str_eq s (text "Failed")
    then some MessageStatus.failed
    else none
state_map _ = none

-- AndroidGatewayProvider.fetch_status, by the outcome of its GET; the outer None is an exception that
-- it does not catch (a list or a dict as the state cannot be hashed).
unfoldable pub state_of : Json → Option (Option MessageStatus)
unfolding state_map
state_of (arr vs) = none
state_of (obj ps) = none
state_of v = some (state_map v)

unfoldable pub fetch_status : External → HttpOutcome → Option (Option MessageStatus)
unfolding body_field state_of
fetch_status x (http_error exc) = some none
fetch_status x broken = none
fetch_status x (response status_code body) =
    if status_code == 404
    then some none
    else if leb 200 status_code && leb status_code 299
    then elim (x.loads body) [
      | loaded v ↦ elim (body_field (text "state") v) [ none ↦ none | some state ↦ state_of state ]
      | malformed ↦ some none
      | undecodable ↦ some none
    ]
    else some none

-- A value bound to a nullable text column.
unfoldable pub column_text : External → Json → Result (Option Text)
column_text x null = ok none
column_text x (str s) = ok (some s)
column_text x (bool b) = do ok (some (← require (x.bind_text (bool b)) other_error))
column_text x (num z s) = do ok (some (← require (x.bind_text (num z s)) other_error))
column_text x (arr vs) = raise statement_error
column_text x (obj ps) = raise statement_error
