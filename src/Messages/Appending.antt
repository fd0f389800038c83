-- ===== src/Messages/Appending.antt =====
-- What a send leaves in the tables (app/sms_relay/routes/messages.py).
use sms_relay.Common.{
  ℕ, suc, ◌≡◌, sym, ap, subst, inl, inr, none, some, List, [], ◌∷◌, ◌++◌, Option-cases, All, Text,
}
use mathlib.Core.List.{append-nil}
use sms_relay.Common.Result.{ok, >>=-eq-ok, ok_injective, Result-cases}
use sms_relay.Config.{Settings}
use sms_relay.External.{External}
use sms_relay.Messages.{
  commit_messages, replayed, checked_recipients, new_messages, queue_messages, send_message,
  new_message,
}
use sms_relay.Models.{Message}
use sms_relay.Models.Db.{Db, message_clash, insert_all}
use sms_relay.Models.Db.Constraints.{insert_all-append}
use sms_relay.Notifications.{topic_for}
use sms_relay.Schemas.{SendRequest}

-- The rows of both tables, and new messages behind them, with ids that `uuid4` has returned.
abbrev pub Appends : (ℕ → Text) → Db → Db → Type 0
Appends uuid4 db db' =
    (created : List Message) × All (λ m. (n : ℕ) × (m.id ≡ uuid4 n)) created
    × (db' ≡ record db { messages = db.messages ++ created })

pub Appends-refl : (uuid4 : ℕ → Text) (db : Db) → Appends uuid4 db db
Appends-refl uuid4 db =
    ([], tt, ap (λ (l : List Message). record db { messages = l }) (sym (append-nil db.messages)))

module _ (x : External) (settings : Settings) (r : SendRequest) (service : Text) (now : ℕ)
    (uuid4 : ℕ → Text) where
  new_message_id :
      (id to_number : Text) {m : Message}
      → new_message x settings r service now id to_number ≡ ok m
      → m.id ≡ id
  unfolding new_message
  new_message_id id to_number h =
      let (_, _, h1) = >>=-eq-ok (topic_for x settings service to_number r.body) _ h in
      sym (ap (λ (m : Message). m.id) (ok_injective _ _ h1))

  new_messages_ids :
      (n : ℕ) (normalized : List Text) {created : List Message}
      → new_messages x settings r service now uuid4 n normalized ≡ ok created
      → All (λ m. (k : ℕ) × (m.id ≡ uuid4 k)) created
  unfolding new_messages
  new_messages_ids n [] h = subst (All (λ m. (k : ℕ) × (m.id ≡ uuid4 k))) (ok_injective _ _ h) tt
  new_messages_ids n (a ∷ l) h =
      let (m, made, h1) = >>=-eq-ok (new_message x settings r service now (uuid4 n) a) _ h in
      let (ms, rest, h2) = >>=-eq-ok (new_messages x settings r service now uuid4 (suc n) l) _ h1 in
      subst (All (λ m. (k : ℕ) × (m.id ≡ uuid4 k))) (ok_injective _ _ h2)
        ((n, new_message_id (uuid4 n) a made), new_messages_ids (suc n) l rest)

  commit_messages-Appends :
      (created : List Message) (db : Db)
      → All (λ m. (k : ℕ) × (m.id ≡ uuid4 k)) created
      → Appends uuid4 db (commit_messages r service created db).1
  unfolding commit_messages
  commit_messages-Appends created db ids =
      elim (Option-cases (insert_all message_clash created db.messages)) [
        | inl clash ↦ rw (clash, commit_messages) (Appends-refl uuid4 db)
        | inr (rows, stored) ↦
            rw (stored, commit_messages)
              (
                created,
                ids,
                ap (λ (l : List Message). record db { messages = l })
                    (insert_all-append message_clash created db.messages stored),
              )
      ]

  pub send_message-Appends :
      (seen db : Db) → Appends uuid4 db (send_message x settings r service now uuid4 seen db).1
  unfolding send_message queue_messages
  send_message-Appends seen db = elim (Result-cases (checked_recipients x settings r)) [
    | inr (e, refused) ↦ rw (refused, send_message) (Appends-refl uuid4 db)
    | inl (normalized, checked) ↦ elim (Result-cases (replayed r service seen)) [
      | inr (e, several) ↦ rw (checked, several, send_message) (Appends-refl uuid4 db)
      | inl (some m, known) ↦ rw (checked, known, send_message) (Appends-refl uuid4 db)
      | inl (none, fresh) ↦
          elim (Result-cases (new_messages x settings r service now uuid4 0 normalized)) [
            | inr (e, refused) ↦
                rw (checked, fresh, refused, send_message, queue_messages) (Appends-refl uuid4 db)
            | inl (created, made) ↦
                rw (checked, fresh, made, send_message, queue_messages)
                  (commit_messages-Appends created db (new_messages_ids 0 normalized made))
          ]
    ]
  ]
