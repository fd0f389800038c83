-- ===== src/Grafana.antt =====
-- app/sms_relay/routes/grafana.py: the webhook that turns a group of alerts into one message.
use sms_relay.Common.{
  ℕ, ◌+◌, ◌-◌, max, ◌⊎◌, inl, inr, ◌&&◌, not, none, some, List, [], ◌∷◌, ◌++◌, map, ltb, leb,
  if◌then◌else◌, length, Text, text, str_eq, decimal, join,
}
use sms_relay.Common.Json.{Json, null, str, arr, Elems, elems, truthy, subscript}
use sms_relay.Common.Dict.{lookup}
use sms_relay.Common.Order.{Order, descending, ascending, by_text, by_pair}
use sms_relay.Common.Result.{
  Fault, Result, ok, raise, http, key_error, type_error, value_error, ◌>>=◌, ◌>>◌, raise_if,
  traverse,
}
use sms_relay.Common.Sort.{sort}
use sms_relay.Config.{Settings}
use sms_relay.External.{External, Loaded, loaded, malformed, undecodable}
use sms_relay.Grafana.Alerts.{Entry, state_text, entries_of}
use sms_relay.Messages.{send_message}
use sms_relay.Models.Db.{Db}
use sms_relay.Payload.{quoted}
use sms_relay.Schemas.{SendRequest, is_valid_request, MessageOut}
pub mod Alerts
pub mod Appending
pub mod Fields
pub mod Keys
pub mod Repeats
pub mod Size

-- `[fingerprint, starts, state, reminder]`
abbrev pub Identity : Type 0
Identity = Text × (Text × (Text × ℕ))

abbrev pub identity : Entry → Identity
identity e = (e.fingerprint, (e.starts, (state_text e.state, e.reminder)))

-- What an entry is sorted by, `(-x[2], x[0])`.
abbrev pub rank : Entry → ℕ × Identity
rank e = (e.priority, identity e)

abbrev pub rank_order : Order (ℕ × Identity)
rank_order = by_pair descending (by_pair by_text (by_pair by_text (by_pair by_text ascending)))

unfoldable pub ordered : List Entry → List Entry
ordered = sort (λ a b. rank_order.le (rank a) (rank b))

-- `json.dumps` of the identities.
unfoldable pub dump_identity : Identity → Text
dump_identity (fingerprint, (starts, (state, reminder))) =
    b'['
    ∷ (join (text ", ") (quoted fingerprint ∷ quoted starts ∷ quoted state ∷ decimal reminder ∷ [])
        ++ text "]")

unfoldable pub dump_identities : List Identity → Text
unfolding dump_identity
dump_identities ids = b'[' ∷ (join (text ", ") (map dump_identity ids) ++ text "]")

-- The idempotency key of a group.
unfoldable pub group_key : External → List Entry → Text
unfolding ordered dump_identities
group_key x entries =
    text "grafana-group-" ++ x.sha256 (dump_identities (map identity (ordered entries)))

-- `max(x[2] for x in entries)`
unfoldable pub max_priority : List Entry → ℕ
max_priority [] = 0
max_priority (e ∷ entries) = max e.priority (max_priority entries)

-- The loop over the sorted entries' texts; `used` is `sum(len(s) + 2 for s in lines)`.
unfoldable pub kept_lines : ℕ → List Text → List Text
kept_lines used [] = []
kept_lines used (line ∷ texts) =
    let rest = kept_lines (used + length line + 2) texts in
    if ltb 3800 (used + length line) then [] else line ∷ rest

-- Lines with an empty line between them.
abbrev pub joined : List Text → Text
joined = join (10 ∷ 10 ∷ [])

-- The suffix that counts what is left out.
unfoldable pub left_out : ℕ → Text
left_out n = 10 ∷ 10 ∷ (decimal n ++ text " additional alerts; see Grafana.")

unfoldable pub group_text : List Text → Text
unfolding kept_lines left_out
group_text texts =
    let lines = kept_lines 0 texts in
    if ltb (length lines) (length texts)
    then joined lines ++ left_out (length texts - length lines)
    else joined lines

-- The field `to` of a request: a text or a list of texts.
unfoldable pub as_text : Json → Result Text
as_text (str s) = ok s
as_text _ = raise value_error

unfoldable pub recipients_field : Json → Result (Text ⊎ List Text)
unfolding as_text
recipients_field (str s) = ok (inl s)
recipients_field (arr vs) = do ok (inr (← traverse as_text (elems vs)))
recipients_field _ = raise value_error

-- A list of 1 to 100 alerts.
unfoldable pub alert_list : Json → Result (List Json)
alert_list (arr vs) =
    if leb 1 (length (elems vs)) && leb (length (elems vs)) 100
    then ok (elems vs)
    else raise value_error
alert_list _ = raise value_error

-- The request made of the entries, before its fields are checked.
abbrev pub group_request : External → Text ⊎ List Text → List Entry → SendRequest
group_request x to entries = record {
  notification_priority = max_priority entries;
  to = to;
  body = group_text (map (λ (e : Entry). e.line) (ordered entries));
  idempotency_key = some (group_key x entries);
}

-- The entries of a payload. `clock n` is the time at which the n-th alert is read.
unfoldable pub read_entries : External → (clock : ℕ → ℕ) → Json → Result (List Entry)
unfolding entries_of alert_list
read_entries x clock payload = do
  alerts ← alert_list (← subscript payload (text "alerts"))
  entries_of x clock 0 alerts

-- `SendRequest(...)`, a ValueError where a field is refused.
unfoldable pub made_request : External → Json → List Entry → Result (SendRequest × ℕ)
unfolding recipients_field group_text group_key is_valid_request max_priority
made_request x route entries = do
  to ← recipients_field (← subscript route (text "to"))
  raise_if (not (is_valid_request (group_request x to entries))) value_error
  ok (group_request x to entries, length entries)

-- The body of the `try`: the request and the number of entries.
unfoldable pub read_group : External → (clock : ℕ → ℕ) → Json → Json → Result (SendRequest × ℕ)
unfolding read_entries made_request
read_group x clock route payload = do
  entries ← read_entries x clock payload
  made_request x route entries

-- `except (KeyError, TypeError, ValueError)`
unfoldable pub as_invalid {ℓ} : {A : Type ℓ} → Result A → Result A
as_invalid (raise key_error) = raise (http 400 (text "invalid Grafana webhook"))
as_invalid (raise type_error) = raise (http 400 (text "invalid Grafana webhook"))
as_invalid (raise value_error) = raise (http 400 (text "invalid Grafana webhook"))
as_invalid r = r

-- The body of a request, chunk by chunk.
unfoldable pub read_body : Text → List Text → Result Text
read_body body [] = ok body
read_body body (chunk ∷ chunks) = do
  raise_if (ltb 65536 (length (body ++ chunk))) (http 413 (text "payload too large"))
  read_body (body ++ chunk) chunks

unfoldable pub load_body : External → Text → Result Json
load_body x body = elim (x.loads body) [
  | loaded v ↦ ok v
  | malformed ↦ raise value_error
  | undecodable ↦ raise value_error
]

-- The route's answer, once the message is sent or refused.
unfoldable pub answered : ℕ → Result (List MessageOut) × Db → Result ℕ × Db
answered n (raise e, db) = (raise e, db)
answered n (ok outs, db) = (ok n, db)

module _ (x : External) (settings : Settings) where
  -- Everything that comes before the send.
  unfoldable pub grafana_request : Text → (clock : ℕ → ℕ) → List Text → Result (SendRequest × ℕ)
  unfolding read_body load_body read_group as_invalid
  grafana_request service clock chunks = do
    raise_if (not (str_eq service (text "grafana"))) (http 403 (text "Grafana credential required"))
    let route : Json = elim (lookup service settings.notification_routes) [
      | none ↦ null
      | some r ↦ r
    ]
    raise_if (not (truthy route)) (http 503 (text "Grafana notifications not configured"))
    body ← read_body [] chunks
    as_invalid (load_body x body >>= read_group x clock route)

  -- `grafana`, for a service that its key has shown: the number of alerts accepted.
  unfoldable pub grafana :
      Text → (clock : ℕ → ℕ) → ℕ → (ℕ → Text) → List Text → (seen db : Db) → Result ℕ × Db
  unfolding grafana_request send_message answered
  grafana service clock now uuid4 chunks seen db = elim (grafana_request service clock chunks) [
    | raise e ↦ (raise e, db)
    | ok (request, n) ↦ answered n (send_message x settings request service now uuid4 seen db)
  ]
