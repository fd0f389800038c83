-- ===== src/Inbound/Changes.antt =====
-- What an inbound webhook may do to the messages (app/sms_relay/routes/inbound.py).
use sms_relay.Common.{
  ℕ, ◌≡◌, refl, inl, inr, Bool, true, false, Option, none, some, [], ◌∷◌, ◌++◌, if◌then◌else◌,
  Bool-cases, select, Text, text, is_empty,
}
use sms_relay.Auth.{SignedRequest, verify_inbound_signature}
use sms_relay.Common.Json.{obj, Props}
use sms_relay.Common.Result.{integrity_error, require, ◌>>=◌, Result-cases}
use sms_relay.Config.{Settings}
use sms_relay.External.{External, loaded, malformed, undecodable}
use sms_relay.Inbound.{
  body_of, has_provider_id, inbound_message, store_inbound, inbound_read, receive_new, receive,
  event_type, is_kind, is_reception, receipt_id_of, mark_delivered, apply_receipt, handle_event,
  android_gateway_inbound, inbound_webhook,
}
use sms_relay.Inbound.Duplicates.{store_inbound-cases}
use sms_relay.Messages.{one_or_none}
use sms_relay.Models.{Message, MessageStatus, received, status_eq}
use sms_relay.Models.Db.{Db, message_clash, update_message}
use sms_relay.Models.Db.Constraints.{insert_all-append}
use sms_relay.Providers.{column_text}

-- A relation of databases that holds where nothing changes, where a received row is appended, and where
-- the rows with an id become delivered.
pub record AllowsInbound (R : Db → Db → Type 0) : Type 0 where
  pub unchanged : (db : Db) → R db db
  pub appended :
      (m : Message) (db db' : Db)
      → m.status ≡ received
      → db'.messages ≡ db.messages ++ m ∷ []
      → R db db'
  pub marked :
      (now : ℕ) (m : Message) (db : Db)
      → R db (
          update_message m.id
            (λ row. record row { status = MessageStatus.delivered; updated_at = now })
            db)

module _ (R : Db → Db → Type 0) (rule : AllowsInbound R) (x : External) (settings : Settings)
    (now : ℕ) (id : Text) (uuid4 : ℕ → Text) where
  store_inbound-allowed :
      (m : Message) (db : Db)
      → m.status ≡ received
      → R db (store_inbound x settings now uuid4 m db).1
  store_inbound-allowed m db fresh = elim (store_inbound-cases x settings now uuid4 m db) [
    | inl (e, failed) ↦ rw failed (rule.unchanged db)
    | inr (n, rows, stored, fits, fanned, done) ↦ rw done (
        rule.appended m db (record { messages = rows; deliveries = stored }) fresh
          (insert_all-append message_clash (m ∷ []) db.messages fits))
  ]

  receive-allowed :
      (event : Props) (seen db : Db) → R db (receive x settings now id uuid4 event seen db).1
  unfolding receive receive_new
  receive-allowed event seen db = elim (Result-cases (inbound_read x settings event seen)) [
    | inr (e, refused) ↦ rw (refused, receive) (rule.unchanged db)
    | inl ((from_number, some known), read) ↦ rw (read, receive) (rule.unchanged db)
    | inl ((from_number, none), read) ↦
        elim (Result-cases
          (column_text x (body_of event) >>= λ (b : Option Text). require b integrity_error)) [
            | inr (e, refused) ↦ rw (read, refused, receive, receive_new) (rule.unchanged db)
            | inl (body, bound) ↦
                rw (read, bound, receive, receive_new)
                  (store_inbound-allowed (inbound_message x settings id now event from_number body)
                    db refl)
          ]
  ]

  mark_delivered-allowed : (m : Message) (db : Db) → R db (mark_delivered now m db)
  unfolding mark_delivered
  mark_delivered-allowed m db = elim (Bool-cases (status_eq m.status MessageStatus.delivered)) [
    | inl same ↦ rw (same, mark_delivered) (rule.unchanged db)
    | inr new ↦ rw (new, mark_delivered) (rule.marked now m db)
  ]

  apply_receipt-allowed :
      (is_delivered : Bool) (event : Props) (seen db : Db)
      → R db (apply_receipt x now is_delivered event seen db).1
  unfolding apply_receipt
  apply_receipt-allowed is_delivered event seen db =
      let pid = receipt_id_of x event in
      elim (Bool-cases (is_empty pid)) [
        | inl e ↦ rw (e, apply_receipt) (rule.unchanged db)
        | inr e ↦ elim (Result-cases (one_or_none (select (has_provider_id pid) seen.messages))) [
          | inr (f, several) ↦ rw (e, several, apply_receipt) (rule.unchanged db)
          | inl (none, found) ↦ rw (e, found, apply_receipt) (rule.unchanged db)
          | inl (some m, found) ↦ rw (e, found, apply_receipt) (marked m is_delivered)
        ]
      ]
    where
      marked : (m : Message) (b : Bool) → R db (if b then mark_delivered now m db else db)
      marked m true = mark_delivered-allowed m db
      marked m false = rule.unchanged db

  handle_event-allowed :
      (event : Props) (seen db : Db) → R db (handle_event x settings now id uuid4 event seen db).1
  unfolding handle_event
  handle_event-allowed event seen db = elim (Bool-cases (is_reception (event_type event))) [
    | inl e ↦ rw (e, handle_event) (receive-allowed event seen db)
    | inr e ↦ elim (Bool-cases (is_kind (text "sms:delivered") (event_type event))) [
      | inl e1 ↦ rw (e, e1, handle_event) (apply_receipt-allowed true event seen db)
      | inr e1 ↦ elim (Bool-cases (is_kind (text "sms:sent") (event_type event))) [
        | inl e2 ↦ rw (e, e1, e2, handle_event) (apply_receipt-allowed false event seen db)
        | inr e2 ↦ rw (e, e1, e2, handle_event) (rule.unchanged db)
      ]
    ]
  ]

  android_gateway_inbound-allowed :
      (raw_body : Text) (seen db : Db)
      → R db (android_gateway_inbound x settings now id uuid4 raw_body seen db).1
  unfolding android_gateway_inbound
  android_gateway_inbound-allowed raw_body seen db =
      elim (x.loads raw_body)
          as (λ l.
            x.loads raw_body ≡ l
            → R db (android_gateway_inbound x settings now id uuid4 raw_body seen db).1) [
              | malformed ↦ λ e. rw (e, android_gateway_inbound) (rule.unchanged db)
              | undecodable ↦ λ e. rw (e, android_gateway_inbound) (rule.unchanged db)
              | loaded (obj event) ↦
                  λ e. rw (e, android_gateway_inbound) (handle_event-allowed event seen db)
              | loaded _ ↦ λ e. rw (e, android_gateway_inbound) (rule.unchanged db)
            ]
        refl

  pub inbound_webhook-allowed :
      (request : SignedRequest) (seen db : Db)
      → R db (inbound_webhook x settings now id uuid4 request seen db).1
  unfolding inbound_webhook
  inbound_webhook-allowed request seen db =
      elim (Result-cases (verify_inbound_signature x settings request)) [
        | inr (e, refused) ↦ rw (refused, inbound_webhook) (rule.unchanged db)
        | inl (raw_body, verified) ↦
            rw (verified, inbound_webhook) (android_gateway_inbound-allowed raw_body seen db)
      ]
