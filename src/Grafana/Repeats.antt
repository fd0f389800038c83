-- ===== src/Grafana/Repeats.antt =====
-- Webhooks that repeat an earlier one (app/sms_relay/routes/grafana.py with
-- app/sms_relay/routes/messages.py).
use sms_relay.Common.{
  ℕ, ◌≤◌, ◌<◌, ◌≡◌, refl, sym, ap, ◌∙◌, subst, ◌≢◌, ◌⊎◌, inl, inr, Bool, true, false, ◌&&◌, not,
  none, some, List, [], map, arith, leb, Bool-cases, length, Text, text, str_eq, is_empty,
}
use mathlib.Core.List.{Permᴰ}
use sms_relay.Common.Json.{Json, null, bool, num, str, arr, obj, elems, truthy, subscript}
use sms_relay.Common.Dict.{lookup}
use sms_relay.Common.Result.{
  Fault, Result, ok, raise, raise_if, ◌>>=◌, >>=-eq-ok, ok_injective, Result-cases,
}
use sms_relay.Config.{Settings}
use sms_relay.External.{External}
use sms_relay.Grafana.Alerts.{Entry, entries_of}
use sms_relay.Grafana.Fields.{group_request-is_valid}
use sms_relay.Grafana.Keys.{group_key-perm}
use sms_relay.Grafana.{
  rank, group_key, recipients_field, alert_list, group_request, read_entries, made_request,
  read_group, as_invalid, read_body, load_body, answered, grafana_request, grafana,
}
use sms_relay.Messages.{recipients_of, checked_recipients, send_message}
use sms_relay.Messages.Idempotency.{send_message_replay}
use sms_relay.Models.Db.{Db}
use sms_relay.Schemas.{SendRequest, MessageOut, is_valid_request}

-- The entries that a request carries in its chunks.
unfoldable pub sent_entries : External → (clock : ℕ → ℕ) → List Text → Result (List Entry)
sent_entries x clock chunks = do
  body ← read_body [] chunks
  payload ← load_body x body
  read_entries x clock payload

alert_list_bounds :
    (v : Json) {alerts : List Json}
    → alert_list v ≡ ok alerts
    → (0 < length alerts) × (length alerts ≤ 100)
unfolding alert_list
alert_list_bounds null h = absurd (cc h)
alert_list_bounds (bool b) h = absurd (cc h)
alert_list_bounds (num z t) h = absurd (cc h)
alert_list_bounds (str t) h = absurd (cc h)
alert_list_bounds (obj ps) h = absurd (cc h)
alert_list_bounds (arr vs) {alerts} h =
    elim (Bool-cases (leb 1 (length (elems vs)) && leb (length (elems vs)) 100)) [
      | inr outside ↦ absurd (cc (rw outside at h))
      | inl inside ↦
          subst (λ (l : List Json). (0 < length l) × (length l ≤ 100))
            (ok_injective _ _ (rw inside at h)) (ground (arith, inside))
    ]

-- Read entries are those of 1 to 100 alerts.
read_entries-alerts :
    (x : External) (clock : ℕ → ℕ) (payload : Json) {entries : List Entry}
    → read_entries x clock payload ≡ ok entries
    → (alerts : List Json) × (0 < length alerts)
      × (length alerts ≤ 100)
      × (entries_of x clock 0 alerts ≡ ok entries)
unfolding read_entries
read_entries-alerts x clock payload h =
    let (value, named, h1) = >>=-eq-ok (subscript payload (text "alerts")) _ h in
    let (alerts, listed, h2) = >>=-eq-ok (alert_list value) _ h1 in
    let (low, high) = alert_list_bounds value listed in (alerts, low, high, h2)

as_invalid_ok {ℓ} : {A : Type ℓ} (m : Result A) {a : A} → as_invalid m ≡ ok a → m ≡ ok a
unfolding as_invalid
as_invalid_ok (ok b) h = h
as_invalid_ok (raise e) {a} h = absurd (never e h)
  where
    never : (e : Fault) → as_invalid (raise e) ≢ ok a
    never e k = ground (arith, k)

raise_if_ok : (b : Bool) (e : Fault) {u : Unit {0}} → raise_if b e ≡ ok u → b ≡ false
raise_if_ok b e h = ground (arith, h)

answered_ok :
    (k : ℕ) (q : Result (List MessageOut) × Db) {n : ℕ} {db : Db}
    → answered k q ≡ (ok n, db)
    → (outs : List MessageOut) × (q ≡ (ok outs, db))
unfolding answered
answered_ok k (raise e, d) h = absurd (cc h)
answered_ok k (ok outs, d) {n} {db} h = (outs, ap (λ (p : Result ℕ × Db). (ok outs, p.1)) h)

module _ (x : External) (settings : Settings) where
  abbrev route : Text → Json
  route service = elim (lookup service settings.notification_routes) [ none ↦ null | some r ↦ r ]

  -- What a request that is read says of its recipients.
  grafana_request-made :
      (service : Text) (clock : ℕ → ℕ) (chunks : List Text) {entries : List Entry}
      {r : SendRequest × ℕ}
      → sent_entries x clock chunks ≡ ok entries
      → grafana_request x settings service clock chunks ≡ ok r
      → (str_eq service (text "grafana") ≡ true)
        × (truthy (route service) ≡ true)
        × (made_request x (route service) entries ≡ ok r)
  unfolding sent_entries grafana_request read_group
  grafana_request-made service clock chunks {entries} {r} sent h =
      let (body, got, s1) = >>=-eq-ok (read_body [] chunks) _ sent in
      let (payload, parsed, s2) = >>=-eq-ok (load_body x body) _ s1 in
      let (_, authorized, h1) =
        >>=-eq-ok (raise_if (not (str_eq service (text "grafana"))) _) _ h in
      let (_, routed, h2) = >>=-eq-ok (raise_if (not (truthy (route service))) _) _ h1 in
      let h3 : as_invalid (load_body x body >>= read_group x clock (route service)) ≡ ok r =
        rw got at h2 in
      let h4 : (load_body x body >>= read_group x clock (route service)) ≡ ok r =
        as_invalid_ok _ h3 in
      let h5 : read_group x clock (route service) payload ≡ ok r = rw parsed at h4 in
      let h6 : made_request x (route service) entries ≡ ok r = rw s2 at h5 in
      let is_grafana = raise_if_ok _ _ authorized in
      let is_routed = raise_if_ok _ _ routed in
      (ground (arith, is_grafana), ground (arith, is_routed), h6)

  grafana_request_of_made :
      (service : Text) (clock : ℕ → ℕ) (chunks : List Text) {entries : List Entry}
      {r : SendRequest × ℕ}
      → sent_entries x clock chunks ≡ ok entries
      → str_eq service (text "grafana") ≡ true
      → truthy (route service) ≡ true
      → made_request x (route service) entries ≡ ok r
      → grafana_request x settings service clock chunks ≡ ok r
  unfolding sent_entries grafana_request read_group
  grafana_request_of_made service clock chunks {entries} {r} sent is_grafana routed made =
      let (body, got, s1) = >>=-eq-ok (read_body [] chunks) _ sent in
      let (payload, parsed, s2) = >>=-eq-ok (load_body x body) _ s1 in
      rw (is_grafana, routed, got, parsed, s2, made) (refl)

  made_request-fields :
      (value : Json) (entries : List Entry) {r : SendRequest × ℕ}
      → made_request x value entries ≡ ok r
      → (to : Text ⊎ List Text) × ((subscript value (text "to") >>= recipients_field) ≡ ok to)
        × ((group_request x to entries, length entries) ≡ r)
  unfolding made_request
  made_request-fields value entries h =
      let (field, named, h1) = >>=-eq-ok (subscript value (text "to")) _ h in
      let (to, good, h2) = >>=-eq-ok (recipients_field field) _ h1 in
      let (_, fits, h3) =
        >>=-eq-ok (raise_if (not (is_valid_request (group_request x to entries))) _) _ h2 in
      (to, rw named good, ok_injective _ _ h3)

  made_request_of_fields :
      (clock : ℕ → ℕ) (chunks : List Text) (value : Json) (entries : List Entry)
      {to : Text ⊎ List Text}
      → ((body : Text) → length (x.sha256 body) ≡ 64)
      → sent_entries x clock chunks ≡ ok entries
      → (subscript value (text "to") >>= recipients_field) ≡ ok to
      → made_request x value entries ≡ ok (group_request x to entries, length entries)
  unfolding made_request sent_entries
  made_request_of_fields clock chunks value entries {to} digest sent named =
      let (body, _, s1) = >>=-eq-ok (read_body [] chunks) _ sent in
      let (payload, _, read) = >>=-eq-ok (load_body x body) _ s1 in
      let (alerts, low, high, all_read) = read_entries-alerts x clock payload read in
      let (field, given, good) = >>=-eq-ok (subscript value (text "to")) _ named in
      rw (given, good, group_request-is_valid x clock to alerts digest low high all_read) refl

  grafana_request-sent :
      (service : Text) (clock : ℕ → ℕ) (chunks : List Text) {r : SendRequest × ℕ}
      → grafana_request x settings service clock chunks ≡ ok r
      → (entries : List Entry) × (sent_entries x clock chunks ≡ ok entries)
  unfolding grafana_request read_group sent_entries
  grafana_request-sent service clock chunks h =
      let (_, _, h1) = >>=-eq-ok (raise_if (not (str_eq service (text "grafana"))) _) _ h in
      let (_, _, h2) = >>=-eq-ok (raise_if (not (truthy (route service))) _) _ h1 in
      let (body, got, h3) = >>=-eq-ok (read_body [] chunks) _ h2 in
      let (payload, parsed, h4) =
        >>=-eq-ok (load_body x body) _
          (as_invalid_ok (load_body x body >>= read_group x clock (route service)) h3) in
      let (entries, read, _) = >>=-eq-ok (read_entries x clock payload) _ h4 in
      (entries, rw (got, parsed) read)

  -- The recipients of a Grafana request are those that the settings name for the service, which is
  -- `grafana`, whatever is posted.
  pub grafana_recipients_fixed :
      (service : Text) (clock : ℕ → ℕ) (chunks : List Text) {r : SendRequest} {n : ℕ}
      → grafana_request x settings service clock chunks ≡ ok (r, n)
      → (str_eq service (text "grafana") ≡ true)
        × ((subscript (route service) (text "to") >>= recipients_field) ≡ ok r.to)
  grafana_recipients_fixed service clock chunks {r} {n} h =
      let (entries, sent) = grafana_request-sent service clock chunks h in
      let (is_grafana, routed, made) = grafana_request-made service clock chunks sent h in
      let (to, named, is_r) = made_request-fields (route service) entries made in
      (is_grafana, named ∙ ap (λ (p : SendRequest × ℕ). ok p.0.to) is_r)

  same_checks :
      (to : Text ⊎ List Text) (a b : List Entry)
      → group_key x a ≡ group_key x b
      → checked_recipients x settings (group_request x to a)
        ≡ checked_recipients x settings (group_request x to b)
  unfolding checked_recipients recipients_of
  same_checks to a b same = rw same refl

  sent_checked :
      (r : SendRequest) (service : Text) (now : ℕ) (uuid4 : ℕ → Text) (seen db db' : Db)
      {outs : List MessageOut}
      → send_message x settings r service now uuid4 seen db ≡ (ok outs, db')
      → (normalized : List Text) × (checked_recipients x settings r ≡ ok normalized)
  unfolding send_message
  sent_checked r service now uuid4 seen db db' h =
      elim (Result-cases (checked_recipients x settings r)) [
        | inl (normalized, checked) ↦ (normalized, checked)
        | inr (e, refused) ↦ absurd (cc (rw (refused, send_message) at h))
      ]

  group_key_worded : (entries : List Entry) → is_empty (group_key x entries) ≡ false
  unfolding group_key text
  group_key_worded entries = refl

  -- A webhook is accepted, with no other commit between its read and its own. One that repeats it and
  -- reads the table as the first left it is accepted and stores nothing, whatever is committed between
  -- its read and its answer, if its alerts have the same priorities, fingerprints, start times, states
  -- and reminder counts, in any order; a hexdigest has 64 characters.
  pub grafana_again :
      (service : Text) (clock clock' : ℕ → ℕ) (now later : ℕ) (uuid4 uuid4' : ℕ → Text)
      (chunks chunks' : List Text) (db db' later_db : Db) {n : ℕ} {first again : List Entry}
      → ((body : Text) → length (x.sha256 body) ≡ 64)
      → sent_entries x clock chunks ≡ ok first
      → sent_entries x clock' chunks' ≡ ok again
      → Permᴰ (map rank first) (map rank again)
      → grafana x settings service clock now uuid4 chunks db db ≡ (ok n, db')
      → grafana x settings service clock' later uuid4' chunks' db' later_db
        ≡ (ok (length again), later_db)
  unfolding grafana
  grafana_again service clock clock' now later uuid4 uuid4' chunks chunks' db db' later_db {n}
        {first} {again} digest sent sent' p h =
      elim (Result-cases (grafana_request x settings service clock chunks)) [
        | inr (e, refused) ↦ absurd (cc (rw (refused, grafana) at h))
        | inl ((r, k), asked) ↦
            let (is_grafana, routed, made) = grafana_request-made service clock chunks sent asked in
            let (to, named, is_r) = made_request-fields (route service) first made in
            let same_r : group_request x to first ≡ r = ap (λ (q : SendRequest × ℕ). q.0) is_r in
            let (outs, posted) =
              answered_ok k (send_message x settings r service now uuid4 db db)
                (rw (asked, grafana) at h) in
            let first_post = rw (sym same_r) at posted in
            let asked' =
              grafana_request_of_made service clock' chunks' sent' is_grafana routed
                (made_request_of_fields clock' chunks' (route service) again digest sent' named) in
            let same_key = group_key-perm x first again p in
            let (normalized, checked) =
              sent_checked (group_request x to first) service now uuid4 db db db' first_post in
            let replay =
              send_message_replay x settings (group_request x to first) (group_request x to again)
                service now later uuid4 uuid4' db db' later_db (group_key_worded first) first_post
                (sym same_key) (sym (same_checks to first again same_key) ∙ checked) in
            rw (asked', replay, grafana, answered) refl
      ]
