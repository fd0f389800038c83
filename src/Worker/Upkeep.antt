-- ===== src/Worker/Upkeep.antt =====
-- The other loops of app/sms_relay/worker.py that work on messages: status_loop and prune_loop; and the
-- depth of the queue.
use sms_relay.Common.{
  ℕ, ◌+◌, ◌*◌, Bool, true, false, ◌&&◌, not, Option, none, some, List, [], ◌∷◌, ltb, if◌then◌else◌,
  length, any, select, Text, str_eq,
}
use sms_relay.Common.Int.{before_cutoff}
use sms_relay.Config.{Settings}
use sms_relay.Models.{
  second, Message, WebhookDelivery, MessageStatus, queued, sent, status_eq, is_terminal,
}
use sms_relay.Models.Db.{Db, update_message}

-- status_loop: the rows that it asks the provider about.
abbrev pub one_day : ℕ
one_day = 86400 * second

abbrev pub is_recent : Option ℕ → ℕ → Bool
is_recent none now = false
is_recent (some t) now = ltb now (t + one_day)

abbrev pub has_id : Option Text → Bool
has_id none = false
has_id (some _) = true

unfoldable pub is_chased : ℕ → Message → Bool
is_chased now m = status_eq m.status sent && has_id m.provider_message_id && is_recent m.sent_at now

abbrev pub id_of : Message → Text
id_of m = elim m.provider_message_id [ none ↦ [] | some id ↦ id ]

-- The writes of a round, to the database as it is at the commit; `fetch` is `provider.fetch_status`.
unfoldable pub apply_statuses : (Text → Option MessageStatus) → ℕ → List Message → Db → Db
apply_statuses fetch now [] db = db
apply_statuses fetch now (m ∷ pending) db =
    apply_statuses fetch now pending (elim (fetch (id_of m)) [
      | none ↦ db
      | some s ↦
          if status_eq s m.status
          then db
          else update_message m.id (λ row. record row { status = s; updated_at = now }) db
    ])

unfoldable pub status_round : (Text → Option MessageStatus) → ℕ → (seen db : Db) → Db
unfolding apply_statuses is_chased
status_round fetch now seen db = apply_statuses fetch now (select (is_chased now) seen.messages) db

-- Whether a poll of a round raises; `fetch` is None where `provider.fetch_status` does.
unfoldable pub poll_raises : (Text → Option (Option MessageStatus)) → List Message → Bool
poll_raises fetch [] = false
poll_raises fetch (m ∷ pending) = elim (fetch (id_of m)) [
  | none ↦ true
  | some told ↦ poll_raises fetch pending
]

abbrev pub told_of : Option (Option MessageStatus) → Option MessageStatus
told_of none = none
told_of (some told) = told

-- A round of status_loop: an exception of a poll leaves it before the commit.
unfoldable pub status_iteration : (Text → Option (Option MessageStatus)) → ℕ → (seen db : Db) → Db
unfolding poll_raises status_round
status_iteration fetch now seen db =
    if poll_raises fetch (select (is_chased now) seen.messages)
    then db
    else status_round (λ id. told_of (fetch id)) now seen db

-- prune_loop: DELETE of the old terminal rows, and by the foreign key's cascade of their deliveries.
unfoldable pub is_pruned : Settings → ℕ → Message → Bool
is_pruned settings now m =
    is_terminal m.status && before_cutoff (86400 * second) settings.retention_days m.created_at now

unfoldable pub prune : Settings → ℕ → Db → Db
unfolding is_pruned
prune settings now db =
    let gone = select (is_pruned settings now) db.messages in
    record {
      messages = select (λ m. not (is_pruned settings now m)) db.messages;
      deliveries =
          select
            (λ (d : WebhookDelivery). not (any (λ (m : Message). str_eq m.id d.message_id) gone))
            db.deliveries;
    }

unfoldable pub queue_depth : Db → ℕ
queue_depth db = length (select (λ (m : Message). status_eq m.status queued) db.messages)
