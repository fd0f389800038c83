-- ===== src/Messages/Queueing.antt =====
-- What a send stores (app/sms_relay/routes/messages.py).
use sms_relay.Common.{
  ℕ, suc, ◌<◌, ◌≡◌, refl, ◌∙◌, subst, ◌⊎◌, inl, inr, true, none, some, List, [], ◌∷◌, ◌++◌, map,
  arith, Option-cases, length, any, Text, str_eq_refl, str_eq_iff, str_eq_comm, is_empty,
}
use sms_relay.Common.Result.{
  Fault, Result, ok, raise, integrity_error, >>=-eq-ok, ok_injective, Result-cases,
}
use sms_relay.Config.{Settings}
use sms_relay.External.{External}
use sms_relay.Models.{Message, outbound, queued, sms, ntfy}
use sms_relay.Models.Db.{Db, opt_eq_comm, message_clash, insert_all}
use sms_relay.Models.Db.Constraints.{IsValid, insert_all-IsDistinct, insert_all-append}
use sms_relay.Notifications.{topic_for}
use sms_relay.Schemas.{SendRequest, MessageOut, message_out}
use sms_relay.Messages.Checks.{checked_recipients_some}
use sms_relay.Messages.{
  has_key, key_of, checked_recipients, new_message, new_messages, winner, commit_messages,
  queue_messages, replayed, send_message,
}

module _ (x : External) (settings : Settings) (r : SendRequest) (service : Text) (now : ℕ)
    (uuid4 : ℕ → Text) where
  -- A row that waits to be sent to one recipient, as the request asks.
  pub record IsQueuedFor (to_number : Text) (m : Message) : Type 0 where
    pub outgoing : m.direction ≡ outbound
    pub waiting : m.status ≡ queued
    pub addressed : m.to_number ≡ some to_number
    pub text_kept : m.body ≡ r.body
    pub owned : m.service ≡ service
    pub keyed : m.idempotency_key ≡ r.idempotency_key
    pub priority_kept : m.notification_priority ≡ r.notification_priority
    pub untried : m.attempts ≡ 0
    pub due_now : m.next_attempt_at ≡ some now
    pub routed : topic_for x settings service to_number r.body ≡ ok m.notification_topic
    pub by_ntfy : m.transport ≡ (elim m.notification_topic [ none ↦ sms | some _ ↦ ntfy ])

  -- One row for each recipient, in their order.
  abbrev pub AreQueuedFor : List Text → List Message → Type 0
  AreQueuedFor [] [] = Unit
  AreQueuedFor [] (_ ∷ _) = ⊥
  AreQueuedFor (_ ∷ _) [] = ⊥
  AreQueuedFor (a ∷ l) (m ∷ ms) = IsQueuedFor a m × AreQueuedFor l ms

  new_message-IsQueuedFor :
      (id to_number : Text) {m : Message}
      → new_message x settings r service now id to_number ≡ ok m
      → IsQueuedFor to_number m
  unfolding new_message
  new_message-IsQueuedFor id to_number {m} h =
      let (topic, routed, h1) = >>=-eq-ok (topic_for x settings service to_number r.body) _ h in
      subst (IsQueuedFor to_number) (ok_injective _ _ h1) (record {
        outgoing = refl;
        waiting = refl;
        addressed = refl;
        text_kept = refl;
        owned = refl;
        keyed = refl;
        priority_kept = refl;
        untried = refl;
        due_now = refl;
        routed = routed;
        by_ntfy = refl;
      })

  new_messages-AreQueuedFor :
      (n : ℕ) (normalized : List Text) {created : List Message}
      → new_messages x settings r service now uuid4 n normalized ≡ ok created
      → AreQueuedFor normalized created
  unfolding new_messages
  new_messages-AreQueuedFor n [] h = subst (AreQueuedFor []) (ok_injective _ _ h) tt
  new_messages-AreQueuedFor n (a ∷ l) h =
      let (m, made, h1) = >>=-eq-ok (new_message x settings r service now (uuid4 n) a) _ h in
      let (ms, rest, h2) = >>=-eq-ok (new_messages x settings r service now uuid4 (suc n) l) _ h1 in
      subst (AreQueuedFor (a ∷ l)) (ok_injective _ _ h2)
        (new_message-IsQueuedFor (uuid4 n) a made, new_messages-AreQueuedFor (suc n) l rest)

  commit_messages_stores :
      (created : List Message) (db : Db)
      → is_empty (key_of r) ≡ true
      → (commit_messages r service created db ≡ (raise integrity_error, db))
        ⊎ (commit_messages r service created db
            ≡ (ok (map message_out created), record db { messages = db.messages ++ created }))
  unfolding commit_messages winner
  commit_messages_stores created db unkeyed =
      elim (Option-cases (insert_all message_clash created db.messages)) [
        | inl clash ↦ inl (ground (arith, clash, unkeyed))
        | inr (rows, stored) ↦
            inr (ground (arith, stored, insert_all-append message_clash created db.messages stored))
      ]

  -- A request without a key whose recipients are valid either stores one waiting row for each
  -- recipient behind the old rows and returns their views, or stores nothing and fails.
  pub send_message_all_or_nothing :
      (seen db : Db) {normalized : List Text}
      → is_empty (key_of r) ≡ true
      → checked_recipients x settings r ≡ ok normalized
      → ((e : Fault) × (send_message x settings r service now uuid4 seen db ≡ (raise e, db)))
        ⊎ ((created : List Message) × AreQueuedFor normalized created
            × (send_message x settings r service now uuid4 seen db
                ≡ (ok (map message_out created), record db { messages = db.messages ++ created })))
  unfolding send_message replayed queue_messages
  send_message_all_or_nothing seen db {normalized} unkeyed checked =
      elim (Result-cases (new_messages x settings r service now uuid4 0 normalized)) [
        | inr (e, refused) ↦ inl (e, ground (arith, checked, unkeyed, refused))
        | inl (created, made) ↦ elim (commit_messages_stores created db unkeyed) [
          | inl clash ↦ inl (integrity_error, ground (arith, checked, unkeyed, made, clash))
          | inr stored ↦ inr (
            created,
            new_messages-AreQueuedFor 0 normalized made,
            ground (arith, checked, unkeyed, made, stored),
          )
        ]
      ]

  -- The constraints hold after a call, and if it raised, nothing has changed.
  abbrev pub Keeps : Db → Result (List MessageOut) × Db → Type 0
  Keeps db result = IsValid result.1 × ((e : Fault) → result.0 ≡ raise e → result.1 ≡ db)

  commit_messages-Keeps :
      (created : List Message) (db : Db)
      → IsValid db
      → Keeps db (commit_messages r service created db)
  unfolding commit_messages
  commit_messages-Keeps created db valid =
      elim (Option-cases (insert_all message_clash created db.messages)) [
        | inl clash ↦ rw (clash, commit_messages) (valid, λ e h. refl)
        | inr (rows, stored) ↦
            rw (stored, commit_messages)
              (
                record {
                  messages_distinct =
                      insert_all-IsDistinct message_clash created db.messages stored
                        valid.messages_distinct;
                  deliveries_distinct = valid.deliveries_distinct;
                },
                λ e h. absurd (cc h),
              )
      ]

  queue_messages-Keeps :
      (normalized : List Text) (db : Db)
      → IsValid db
      → Keeps db (queue_messages x settings r service now uuid4 normalized db)
  unfolding queue_messages
  queue_messages-Keeps normalized db valid =
      elim (Result-cases (new_messages x settings r service now uuid4 0 normalized)) [
        | inr (e, refused) ↦ rw (refused, queue_messages) (valid, λ e h. refl)
        | inl (created, made) ↦ rw (made, queue_messages) (commit_messages-Keeps created db valid)
      ]

  -- Every send keeps the constraints of the tables where they hold, and one that raises stores nothing, on each of
  -- its paths and whatever is committed between its read and its commit.
  pub send_message-Keeps :
      (seen db : Db) → IsValid db → Keeps db (send_message x settings r service now uuid4 seen db)
  unfolding send_message
  send_message-Keeps seen db valid = elim (Result-cases (checked_recipients x settings r)) [
    | inr (e, refused) ↦ rw (refused, send_message) (valid, λ e h. refl)
    | inl (normalized, checked) ↦ elim (Result-cases (replayed r service seen)) [
      | inr (e, several) ↦ rw (checked, several, send_message) (valid, λ e h. refl)
      | inl (some m, known) ↦ rw (checked, known, send_message) (valid, λ e h. refl)
      | inl (none, fresh) ↦
          rw (checked, fresh, send_message) (queue_messages-Keeps normalized db valid)
    ]
  ]

  empty_key_clash :
      (m : Message) (rows : List Message)
      → m.service ≡ service
      → m.idempotency_key ≡ some []
      → any (has_key service []) rows ≡ true
      → any (message_clash m) rows ≡ true
  empty_key_clash m [] e k h = h
  empty_key_clash m (n ∷ rows) e k h = ground (
    arith,
    empty_key_clash m rows e k,
    str_eq_comm n.service service,
    opt_eq_comm n.idempotency_key (some []),
  )

  has_key_append :
      (m : Message) (rows : List Message)
      → m.service ≡ service
      → m.idempotency_key ≡ some []
      → any (has_key service []) (rows ++ m ∷ []) ≡ true
  has_key_append m [] e k = ground (arith, str_eq_iff m.service service, str_eq_refl [])
  has_key_append m (n ∷ rows) e k = ground (arith, has_key_append m rows e k)

  empty_keys_clash :
      r.idempotency_key ≡ some []
      → (normalized : List Text) (created rows : List Message) → AreQueuedFor normalized created
      → 0 < length normalized
      → (any (has_key service []) rows ≡ true) ⊎ (1 < length normalized)
      → insert_all message_clash created rows ≡ none
  unfolding insert_all
  empty_keys_clash k (a ∷ l) (m ∷ ms) rows h some_row (inl taken) =
      rw (empty_key_clash m rows h.0.owned (h.0.keyed ∙ k) taken)
  empty_keys_clash k (a ∷ []) (m ∷ ms) rows h some_row (inr two) = absurd (omega arith)
  empty_keys_clash k (a ∷ b ∷ l) (m ∷ []) rows h some_row (inr two) = elim h.1 [ ]
  empty_keys_clash k (a ∷ b ∷ l) (m ∷ n ∷ ms) rows h some_row (inr two) = ground (
    arith,
    empty_key_clash n (rows ++ m ∷ []) h.1.0.owned (h.1.0.keyed ∙ k)
        (has_key_append m rows h.0.owned (h.0.keyed ∙ k)),
  )
  empty_keys_clash k [] [] rows h some_row cause = absurd (omega arith)
  empty_keys_clash k [] (m ∷ ms) rows h some_row cause = elim h [ ]
  empty_keys_clash k (a ∷ l) [] rows h some_row cause = elim h [ ]

  -- An empty idempotency key counts as none in the checks and is stored all the same: with valid
  -- recipients and a route that raises nothing, where a row of the service already has it, and where
  -- there are two or more recipients, the request fails with an IntegrityError that nothing handles.
  pub empty_key_refused :
      (seen db : Db) {normalized : List Text} {created : List Message}
      → r.idempotency_key ≡ some []
      → checked_recipients x settings r ≡ ok normalized
      → new_messages x settings r service now uuid4 0 normalized ≡ ok created
      → (any (has_key service []) db.messages ≡ true) ⊎ (1 < length normalized)
      → send_message x settings r service now uuid4 seen db ≡ (raise integrity_error, db)
  unfolding send_message replayed queue_messages commit_messages winner
  empty_key_refused seen db {normalized} {created} k checked made cause =
      let clash : insert_all message_clash created db.messages ≡ none =
        empty_keys_clash k normalized created db.messages
          (new_messages-AreQueuedFor 0 normalized made)
          (checked_recipients_some x settings r checked) cause in
      ground (arith, k, checked, made, clash)
