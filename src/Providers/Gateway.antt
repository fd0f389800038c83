-- ===== src/Providers/Gateway.antt =====
-- How the gateway's answers are graded (app/sms_relay/providers/android_gateway.py).
use sms_relay.Common.{
  ◌≤◌, ◌<◌, ◌≡◌, ◌≢◌, ◌↔◌, inl, inr, Bool, true, none, some, arith, Option-cases, Text, text,
}
use sms_relay.Common.Json.{Json, null, bool, num, str, arr, obj}
use sms_relay.External.{External, Loaded, loaded, malformed, undecodable}
use sms_relay.Models.{MessageStatus, sent}
use sms_relay.Models.Lifecycle.{can_become}
use sms_relay.Providers.{
  HttpOutcome, http_error, broken, response, provider_error, body_field, accepted_body,
  android_send, state_map, state_of, fetch_status,
}

-- The gateway refused the request itself: any 4xx but 429.
abbrev pub IsRefusal : HttpOutcome → Type 0
IsRefusal (http_error _) = ⊥
IsRefusal broken = ⊥
IsRefusal (response status_code _) = (400 ≤ status_code) × (status_code < 500) × (status_code ≢ 429)

pub accepted_body_raises :
    (x : External) (body message : Text) (permanent : Bool)
    → accepted_body x body ≢ provider_error message permanent
unfolding accepted_body
accepted_body_raises x body message permanent h = ground (arith, h)

-- A failed send is final exactly where the gateway answered with a 4xx other than 429; when it cannot
-- be reached, is busy (429) or broken (5xx), the send may be tried again.
pub android_send_permanent_iff :
    (x : External) (outcome : HttpOutcome) {message : Text} {permanent : Bool}
    → android_send x outcome ≡ provider_error message permanent
    → (permanent ≡ true) ↔ IsRefusal outcome
unfolding android_send
android_send_permanent_iff x (http_error exc) h = ground (arith, h)
android_send_permanent_iff x broken h = absurd (cc h)
android_send_permanent_iff x (response status_code body) {message} {permanent} h =
    ground (arith, h, accepted_body_raises x body message permanent)

state_map_moves :
    (state : Json) {s : MessageStatus} → state_map state ≡ some s → can_become sent s ≡ true
unfolding state_map
state_map_moves (str t) h = ground (arith, h)
state_map_moves null h = ground (arith, h)
state_map_moves (bool b) h = ground (arith, h)
state_map_moves (num z t) h = ground (arith, h)
state_map_moves (arr vs) h = ground (arith, h)
state_map_moves (obj ps) h = ground (arith, h)

state_of_moves :
    (state : Json) {s : MessageStatus} → state_of state ≡ some (some s) → can_become sent s ≡ true
unfolding state_of
state_of_moves state {s} h =
    elim state as (λ v. state_of v ≡ some (some s) → can_become sent s ≡ true) [
      | null ↦ λ e. state_map_moves null (ground (arith, e))
      | bool b ↦ λ e. state_map_moves (bool b) (ground (arith, e))
      | num z t ↦ λ e. state_map_moves (num z t) (ground (arith, e))
      | str t ↦ λ e. state_map_moves (str t) (ground (arith, e))
      | arr vs ↦ λ e. absurd (cc e)
      | obj ps ↦ λ e. absurd (cc e)
    ]
      h

-- Whatever the gateway answers to a poll, a status that comes of it is one that a sent message may
-- take.
pub fetch_status_moves :
    (x : External) (outcome : HttpOutcome) {s : MessageStatus}
    → fetch_status x outcome ≡ some (some s)
    → can_become sent s ≡ true
unfolding fetch_status
fetch_status_moves x (http_error exc) h = absurd (cc h)
fetch_status_moves x broken h = absurd (cc h)
fetch_status_moves x (response status_code body) {s} h =
    state_in_body (x.loads body) (ground (arith, h))
  where
    state_in_body :
        (l : Loaded)
        → (elim l [
          | loaded v ↦ elim (body_field (text "state") v) [
            | none ↦ none
            | some state ↦ state_of state
          ]
          | malformed ↦ some none
          | undecodable ↦ some none
        ])
          ≡ some (some s)
        → can_become sent s ≡ true
    state_in_body malformed e = absurd (cc e)
    state_in_body undecodable e = absurd (cc e)
    state_in_body (loaded v) e = elim (Option-cases (body_field (text "state") v)) [
      | inl missing ↦ absurd (ground (arith, e, missing))
      | inr (state, found) ↦ state_of_moves state (ground (arith, e, found))
    ]
