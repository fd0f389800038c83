-- ===== src/Notifications/Routing.antt =====
-- Which messages may reach an ntfy topic (app/sms_relay/notifications.py).
use sms_relay.Common.{
  ◌≤◌, ◌≡◌, refl, sym, ap, ◌∙◌, ◌↔◌, ◌⊎◌, inl, inr, true, false, ◌||◌, not, none, some, arith,
  if◌then◌else◌, Bool-cases, Option-cases, length, all, Text, text, str_eq, str_eq_refl, str_eq_iff,
  is_empty,
}
use sms_relay.Common.Dict.{lookup}
use sms_relay.Common.Json.{
  Json, null, bool, num, str, arr, obj, end, prop, Props, props, get, subscript, truthy,
}
use sms_relay.Common.Result.{ok, raise, value_error, type_error, >>=-eq-ok, ok_injective}
use sms_relay.Config.{Settings}
use sms_relay.External.{External}
use sms_relay.Phone.{normalize, normalize_json}
use sms_relay.Notifications.{
  is_topic_char, is_topic, pattern_misses, topic_of, route_for, route_get, topic_by, topic_for,
}

ok-some_injective {ℓ} : {A : Type ℓ} {a b : A} → ok (some a) ≡ ok (some b) → a ≡ b
ok-some_injective h = cc

-- One to 64 letters, digits, underscores and dashes.
abbrev pub IsTopic : Text → Type 0
IsTopic t = (1 ≤ length t) × (length t ≤ 64) × (all is_topic_char t ≡ true)

is_topic_iff : (t : Text) → (is_topic t ≡ true) ↔ IsTopic t
unfolding is_topic
is_topic_iff t = ground arith

-- What `subscript` finds, it finds in a dict.
subscript-obj :
    (route : Json) (k : Text) {v : Json}
    → subscript route k ≡ ok v
    → (ps : Props) × (route ≡ obj ps) × (lookup k (props ps) ≡ some v)
subscript-obj (obj ps) k h = elim (Option-cases (lookup k (props ps))) [
  | inl missing ↦ absurd (cc (rw missing at h))
  | inr (v, found) ↦ (ps, refl, found ∙ ap some (ok_injective _ _ (rw found at h)))
]
subscript-obj null k h = cc
subscript-obj (bool b) k h = cc
subscript-obj (num z s) k h = cc
subscript-obj (str s) k h = cc
subscript-obj (arr vs) k h = cc

module _ (x : External) (settings : Settings) where
  -- No pattern, or one that `re.search` finds in the text.
  abbrev pub IsMatch : Json → Text → Type 0
  IsMatch pattern body =
      (truthy pattern ≡ false) ⊎ ((p : Text) × (pattern ≡ str p) × (x.re_search p body ≡ some true))

  -- What the route of a service has to say before a text for a recipient may go to a topic.
  pub record Admits (service recipient body topic : Text) : Type 0 where
    pub ntfy_configured : is_empty settings.ntfy_url ≡ false
    pub route : Props
    pub route_configured : lookup service settings.notification_routes ≡ some (obj route)
    pub number : Text
    pub owner_named : lookup (text "to") (props route) ≡ some (str number)
    pub owner_is_recipient : normalize x settings number ≡ ok recipient
    pub pattern_matches : IsMatch (get (text "bodyPattern") route) body
    pub topic_named : lookup (text "topic") (props route) ≡ some (str topic)
    pub topic_allowed : IsTopic topic

  normalize_json-str :
      (v : Json) {number : Text}
      → normalize_json x settings v ≡ ok number
      → (s : Text) × (v ≡ str s) × (normalize x settings s ≡ ok number)
  unfolding normalize_json
  normalize_json-str (str s) h = (s, refl, h)
  normalize_json-str null h = cc
  normalize_json-str (bool b) h = ground (arith, h)
  normalize_json-str (num z s) h = ground (arith, h)
  normalize_json-str (arr vs) h = ground (arith, h)
  normalize_json-str (obj ps) h = ground (arith, h)

  pattern_misses-false :
      (pattern : Json) (body : Text)
      → (pattern_misses x settings pattern body ≡ ok false) ↔ IsMatch pattern body
  unfolding pattern_misses
  pattern_misses-false (str p) body = ground (arith, Option-cases (x.re_search p body))
  pattern_misses-false null body = ground arith
  pattern_misses-false (bool b) body = ground arith
  pattern_misses-false (num z s) body = ground arith
  pattern_misses-false (arr vs) body = ground arith
  pattern_misses-false (obj ps) body = ground arith

  topic_of-named :
      (route : Props) {topic : Text}
      → topic_of x settings (obj route) ≡ ok topic
      → (lookup (text "topic") (props route) ≡ some (str topic)) × IsTopic topic
  unfolding topic_of
  topic_of-named route {topic} h = elim (Option-cases (lookup (text "topic") (props route))) [
    | inl missing ↦ absurd (cc (rw (topic_of, missing) at h))
    | inr (v, found) ↦ topic_value v found (rw (topic_of, found) at h)
  ]
    where
      topic_value :
          (v : Json)
          → lookup (text "topic") (props route) ≡ some v
          → (elim (some v) [
            | none ↦ raise value_error
            | some (str t) ↦ if is_topic t then ok t else raise value_error
            | some _ ↦ raise type_error
          ])
            ≡ ok topic
          → (lookup (text "topic") (props route) ≡ some (str topic)) × IsTopic topic
      topic_value (str t) found h =
          let good : is_topic t ≡ true = ground (arith, h) in
          let same : t ≡ topic = ok_injective _ _ (rw good at h) in
          (
            found ∙ ap (λ t. some (str t)) same,
            (is_topic_iff topic).0 (ap is_topic (sym same) ∙ good),
          )
      topic_value null found h = cc h
      topic_value (bool b) found h = cc h
      topic_value (num z s) found h = cc h
      topic_value (arr vs) found h = cc h
      topic_value (obj ps) found h = cc h

  topic_by-Admits :
      (service : Text) (route : Json) (recipient body : Text) {topic : Text}
      → is_empty settings.ntfy_url ≡ false
      → lookup service settings.notification_routes ≡ some route
      → topic_by x settings route recipient body ≡ ok (some topic)
      → Admits service recipient body topic
  unfolding topic_by route_get
  topic_by-Admits service route recipient body {topic} on configured h =
      let (owner, named, h1) = >>=-eq-ok (subscript route (text "to")) _ h in
      let (number, normal, h2) = >>=-eq-ok (normalize_json x settings owner) _ h1 in
      let (ps, is_obj, owner_found) = subscript-obj route (text "to") named in
      let (s, is_str, normalized) = normalize_json-str owner normal in
      elim (Bool-cases (str_eq number recipient)) [
        | inr other ↦ cc (h2, other)
        | inl same ↦
            let (missed, tried, h4) =
              >>=-eq-ok (pattern_misses x settings (get (text "bodyPattern") ps) body) _
                (rw (same, is_obj) at h2) in
            let hit : missed ≡ false = ground (arith, h4) in
            let (found, named_topic, h5) =
              >>=-eq-ok (topic_of x settings (obj ps)) _ (rw hit at h4) in
            let (topic_found, allowed) =
              topic_of-named ps (named_topic ∙ ap ok (ok-some_injective h5)) in
            record {
              ntfy_configured = on;
              route = ps;
              route_configured = configured ∙ ap some is_obj;
              number = s;
              owner_named = owner_found ∙ ap some is_str;
              owner_is_recipient = normalized ∙ ap ok ((str_eq_iff number recipient).0 same);
              pattern_matches =
                  (pattern_misses-false (get (text "bodyPattern") ps) body).0 (tried ∙ ap ok hit);
              topic_named = topic_found;
              topic_allowed = allowed;
            }
      ]

  topic_for_admitted :
      (service recipient body : Text) {topic : Text}
      → Admits service recipient body topic
      → topic_for x settings service recipient body ≡ ok (some topic)
  unfolding topic_for route_for topic_by route_get topic_of normalize_json
  topic_for_admitted service recipient body {topic} a =
      let matches =
        (pattern_misses-false (get (text "bodyPattern") a.route) body).1 a.pattern_matches in
      let allowed = (is_topic_iff topic).1 a.topic_allowed in
      let is_route = has_props a.route (text "to") a.owner_named in
      rw
        (
          topic_for,
          route_for,
          a.route_configured,
          is_route,
          topic_by,
          route_get,
          topic_of,
          normalize_json,
          a.ntfy_configured,
          a.owner_named,
          a.owner_is_recipient,
          str_eq_refl recipient,
          matches,
          a.topic_named,
          allowed,
        )
        refl
    where
      has_props :
          (ps : Props) (k : Text) {v : Json} → lookup k (props ps) ≡ some v → truthy (obj ps) ≡ true
      has_props end k h = cc h
      has_props (prop _ _ _) k h = refl

  -- A message is routed to an ntfy topic exactly when ntfy is configured and the service has a route
  -- whose own number normalizes to the recipient, whose pattern, if it has one, `re.search` finds in
  -- the text, and whose topic is that one, of one to 64 characters of the allowed alphabet.
  pub topic_for-Admits :
      (service recipient body topic : Text)
      → (topic_for x settings service recipient body ≡ ok (some topic))
        ↔ Admits service recipient body topic
  unfolding topic_for route_for
  topic_for-Admits service recipient body topic = (
    λ h. elim (Option-cases (lookup service settings.notification_routes)) [
      | inl missing ↦ absurd (cc (rw (topic_for, route_for, missing) at h))
      | inr (route, found) ↦ elim (Bool-cases (not (truthy route) || is_empty settings.ntfy_url)) [
        | inl off ↦ absurd (cc (rw (topic_for, route_for, found, off) at h))
        | inr on ↦
            topic_by-Admits service route recipient body (ground (arith, on)) found
              (rw (topic_for, route_for, found, on) at h)
      ]
    ],
    topic_for_admitted service recipient body,
  )
