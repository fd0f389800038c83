-- ===== src/Grafana/Alerts.antt =====
-- app/sms_relay/routes/grafana.py: one alert of a webhook, checked and put into words.
use sms_relay.Common.{
  ℕ, suc, ◌-◌, ◌*◌, ◌/◌, Bool, false, not, none, some, List, [], ◌∷◌, ◌++◌, if◌then◌else◌, take,
  Text, text, str_eq, is_empty, join,
}
use sms_relay.Common.Dict.{lookup}
use sms_relay.Common.Json.{Json, str, obj, Props, end, props, truthy, get, subscript}
use sms_relay.Common.Result.{Result, ok, raise, value_error, ◌>>=◌, ◌>>◌, raise_if, require}
use sms_relay.Config.{to_str}
use sms_relay.External.{External}
use sms_relay.Inbound.{zone_spelled}
use sms_relay.Models.{second}

pub data AlertState : Type 0 where
  firing resolved : AlertState

abbrev pub state_text : AlertState → Text
state_text firing = text "firing"
state_text resolved = text "resolved"

-- `state.upper()`
abbrev pub state_upper : AlertState → Text
state_upper firing = text "FIRING"
state_upper resolved = text "RESOLVED"

-- A member of `entries`: the parts of x[0], then x[1] and x[2].
pub record Entry : Type 0 where
  pub fingerprint : Text
  pub starts : Text
  pub state : AlertState
  pub reminder : ℕ
  pub line : Text
  pub priority : ℕ

-- A value that must be a dict.
abbrev pub dict_of : Json → Result Props
dict_of (obj ps) = ok ps
dict_of _ = raise value_error

-- `alert.get("annotations", {})`
abbrev pub annotations_of : Props → Json
annotations_of alert = elim (lookup (text "annotations") (props alert)) [
  | none ↦ obj end
  | some v ↦ v
]

unfoldable pub alert_state : Json → Result AlertState
alert_state (str s) =
    if str_eq s (text "firing")
    then ok firing
    else if str_eq s (text "resolved")
    then ok resolved
    else raise value_error
alert_state _ = raise value_error

-- A value that must be a text that is not empty.
abbrev pub filled : Json → Result Text
filled (str (c ∷ s)) = ok (c ∷ s)
filled _ = raise value_error

-- The labels among `names` that are set, as `label=value`.
unfoldable pub shown_labels : External → List Text → Props → List Text
unfolding to_str
shown_labels x [] labels = []
shown_labels x (name ∷ names) labels =
    let rest = shown_labels x names labels in
    if truthy (get name labels) then (name ++ (b'=' ∷ to_str x (get name labels))) ∷ rest else rest

abbrev pub main_labels : List Text
main_labels =
    text "app"
    ∷ text "checks"
    ∷ text "node"
    ∷ text "namespace"
    ∷ text "persistentvolumeclaim"
    ∷ text "job_name"
    ∷ text "cronjob"
    ∷ text "service"
    ∷ []

abbrev pub other_labels : List Text
other_labels = text "instance" ∷ text "pod" ∷ []

unfoldable pub affected : External → Props → Text
unfolding shown_labels
affected x labels =
    let shown = join (text ", ") (shown_labels x main_labels labels) in
    if is_empty shown then join (text ", ") (shown_labels x other_labels labels) else shown

abbrev pub description : AlertState → Text → Text
description firing summary = summary
description resolved summary = text "Alert condition cleared."

-- The text of an alert, before it is cut.
unfoldable pub alert_text : AlertState → Text → Text → Text → Text
alert_text state name summary where_ =
    let head : Text =
      b'['
      ∷ (state_upper state ++ (text "] " ++ (name ++ (text ": " ++ description state summary)))) in
    if is_empty where_ then head else head ++ (10 ∷ where_)

abbrev pub is_critical : Json → Bool
is_critical (str s) = str_eq s (text "critical")
is_critical _ = false

unfoldable pub priority_of : AlertState → Bool → ℕ
priority_of firing critical = if critical then 4 else 3
priority_of resolved critical = if critical then 3 else 1

-- `max(0, int((time.time() - started.timestamp()) // 14400))` for a firing alert.
unfoldable pub reminder_of : AlertState → (now started : ℕ) → ℕ
reminder_of firing now started = (now - started) / (14400 * second)
reminder_of resolved now started = 0

-- What the loop reads of one alert.
pub record Alert : Type 0 where
  pub labels : Props
  pub state : AlertState
  pub name : Text
  pub summary : Text
  pub fingerprint : Text
  pub starts : Text
  pub started : ℕ

module _ (x : External) where
  -- The checks of one alert.
  unfoldable pub alert_of : Json → Result Alert
  unfolding alert_state zone_spelled
  alert_of value = do
    alert ← dict_of value
    labels ← dict_of (get (text "labels") alert)
    annotations ← dict_of (annotations_of alert)
    state ← alert_state (← subscript value (text "status"))
    alertname ← subscript (obj labels) (text "alertname")
    fingerprint_value ← subscript value (text "fingerprint")
    starts_value ← subscript value (text "startsAt")
    name ← filled alertname
    summary ←
        filled
          (elim (lookup (text "summary") (props annotations)) [ none ↦ alertname | some v ↦ v ])
    fingerprint ← filled fingerprint_value
    starts ← filled starts_value
    started ← require (x.fromisoformat (zone_spelled starts)) value_error
    raise_if (not (x.names_zone (zone_spelled starts))) value_error
    ok (record {
      labels = labels;
      state = state;
      name = name;
      summary = summary;
      fingerprint = fingerprint;
      starts = starts;
      started = started;
    })

  -- The entry of an alert that is read at a time.
  unfoldable pub entry_of : ℕ → Alert → Entry
  unfolding affected alert_text priority_of reminder_of
  entry_of now a = record {
    fingerprint = a.fingerprint;
    starts = a.starts;
    state = a.state;
    reminder = reminder_of a.state now a.started;
    line = take 1800 (alert_text a.state a.name a.summary (affected x a.labels));
    priority = priority_of a.state (is_critical (get (text "severity") a.labels));
  }

  unfoldable pub entries_of : (clock : ℕ → ℕ) → ℕ → List Json → Result (List Entry)
  unfolding alert_of entry_of
  entries_of clock n [] = ok []
  entries_of clock n (alert ∷ alerts) = do
    a ← alert_of alert
    entries ← entries_of clock (suc n) alerts
    ok (entry_of (clock n) a ∷ entries)
