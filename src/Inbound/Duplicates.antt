-- ===== src/Inbound/Duplicates.antt =====
-- Deliveries of one event by the gateway more than once, and what a handler of events leaves in the
-- database (app/sms_relay/routes/inbound.py).
use sms_relay.Common.{
  ℕ, ◌≡◌, refl, sym, ap, ◌∙◌, ◌≢◌, ◌⊎◌, inl, inr, Bool, true, false, ◌&&◌, not, Option, none, some,
  List, [], ◌∷◌, ◌++◌, arith, Bool-cases, Option-cases, select, Text, str_eq_refl, is_empty,
}
use sms_relay.Common.Json.{obj, Props, truthy}
use sms_relay.Common.Result.{
  Fault, Result, ok, raise, integrity_error, require, raise_if, ◌>>=◌, >>=-eq-ok, ok_injective,
  Result-cases,
}
use sms_relay.Config.{Settings}
use sms_relay.External.{External, loaded}
use sms_relay.Inbound.{
  InboundReply, duplicate, accepted, provider_id_of, body_of, sender_of, or_none, has_provider_id,
  already_received, from_number_of, inbound_message, store_inbound, inbound_read, receive_new,
  receive, event_type, is_reception, receipt_id_of, apply_receipt, handle_event,
  android_gateway_inbound,
}
use sms_relay.Messages.{one_or_none}
use sms_relay.Models.{Message, WebhookDelivery, is_inbound}
use sms_relay.Models.Db.{Db, message_clash, insert_all}
use sms_relay.Models.Db.Constraints.{insert_all-append}
use sms_relay.Providers.{column_text}
use sms_relay.Webhooks.{enqueue_fanout}

-- A single row found among the rows and one more.
one_or_none_grown :
    (p : Message → Bool) (rows : List Message) (m : Message)
    → one_or_none (select p rows) ≡ ok none
    → p m ≡ true
    → one_or_none (select p (rows ++ m ∷ [])) ≡ ok (some m)
unfolding one_or_none
one_or_none_grown p [] m h e = ground (arith, e)
one_or_none_grown p (n ∷ rows) m h e = elim (Bool-cases (p n)) [
  | inl hit ↦ absurd (several (select p rows) (rw hit at h))
  | inr miss ↦ rw miss (one_or_none_grown p rows m (rw miss at h) e)
]
  where
    several : (l : List Message) → one_or_none (n ∷ l) ≢ ok none
    several [] k = cc
    several (a ∷ l) k = cc

pub has_own_id :
    (id : Text) (m : Message)
    → is_empty id ≡ false
    → m.provider_message_id ≡ or_none id
    → has_provider_id id m ≡ true
has_own_id [] m h e = absurd (cc h)
has_own_id (c ∷ s) m h e = rw e (str_eq_refl (c ∷ s))

already_received_again :
    (id : Text) (db db' : Db) (m : Message)
    → is_empty id ≡ false
    → already_received id db ≡ ok none
    → is_inbound m.direction ≡ true
    → m.provider_message_id ≡ or_none id
    → db'.messages ≡ db.messages ++ m ∷ []
    → already_received id db' ≡ ok (some m)
unfolding already_received
already_received_again id db db' m named free from_gateway own stored =
    let hit : (is_inbound m.direction && has_provider_id id m) ≡ true =
      ground (arith, from_gateway, has_own_id id m named own) in
    rw (named, stored, already_received)
      (one_or_none_grown _ db.messages m (rw (named, already_received) at free) hit)

module _ (x : External) (settings : Settings) where
  -- What an event that stores a message has found and written.
  pub record IsReceived (event : Props) (seen db db' : Db) (id : Text) : Type 0 where
    pub from_number : Option Text
    pub found : inbound_read x settings event seen ≡ ok (from_number, none)
    pub message : Message
    pub same_id : message.id ≡ id
    pub from_gateway : is_inbound message.direction ≡ true
    pub provider_id : message.provider_message_id ≡ or_none (provider_id_of x event)
    pub stored : db'.messages ≡ db.messages ++ message ∷ []

  pub store_inbound-cases :
      (now : ℕ) (uuid4 : ℕ → Text) (message : Message) (db : Db)
      → ((e : Fault) × (store_inbound x settings now uuid4 message db ≡ (raise e, db)))
        ⊎ ((n : ℕ) × (rows : List Message) × (stored : List WebhookDelivery) × (insert_all
                message_clash
                (message ∷ [])
                db.messages
              ≡ some rows)
            × (enqueue_fanout settings now uuid4 message db.deliveries ≡ ok (n, stored))
            × (store_inbound x settings now uuid4 message db
                ≡ (ok (accepted message.id n), record { messages = rows; deliveries = stored })))
  unfolding store_inbound
  store_inbound-cases now uuid4 message db =
      elim (Option-cases (insert_all message_clash (message ∷ []) db.messages)) [
        | inl clash ↦ inl (integrity_error, rw (clash, store_inbound))
        | inr (rows, fits) ↦
            elim (Result-cases (enqueue_fanout settings now uuid4 message db.deliveries)) [
              | inr (e, failed) ↦ inl (e, rw (fits, failed, store_inbound))
              | inl ((n, stored), fanned) ↦
                  inr (n, rows, stored, fits, fanned, rw (fits, fanned, store_inbound))
            ]
      ]

  reply_of : (p q : Result InboundReply × Db) → p ≡ q → (p.0 ≡ q.0) × (p.1 ≡ q.1)
  reply_of p q e =
      (ap (λ (r : Result InboundReply × Db). r.0) e, ap (λ (r : Result InboundReply × Db). r.1) e)

  id_of_accepted : (a b : Text) (n k : ℕ) → ok (accepted a n) ≡ ok (accepted b k) → a ≡ b
  id_of_accepted a b n k e = cc

  receive_new-IsReceived :
      (now : ℕ) (id : Text) (uuid4 : ℕ → Text) (event : Props) (from_number : Option Text)
      (seen db : Db) {id' : Text} {n : ℕ} {db' : Db}
      → inbound_read x settings event seen ≡ ok (from_number, none)
      → receive_new x settings now id uuid4 event from_number db ≡ (ok (accepted id' n), db')
      → IsReceived event seen db db' id'
  unfolding receive_new
  receive_new-IsReceived now id uuid4 event from_number seen db {id'} {n} {db'} found h =
      elim (Result-cases
        (column_text x (body_of event) >>= λ (b : Option Text). require b integrity_error)) [
          | inr (e, refused) ↦ absurd (cc (rw (refused, receive_new) at h))
          | inl (body, bound) ↦
              let m = inbound_message x settings id now event from_number body in
              let h1 : store_inbound x settings now uuid4 m db ≡ (ok (accepted id' n), db') =
                rw (bound, receive_new) at h in
              elim (store_inbound-cases now uuid4 m db) [
                | inl (e, failed) ↦ absurd (cc (failed, h1))
                | inr (k, rows, stored, fits, fanned, done) ↦
                    let (answer, table) = reply_of _ _ (sym done ∙ h1) in
                    record {
                      from_number = from_number;
                      found = found;
                      message = m;
                      same_id = id_of_accepted _ _ _ _ answer;
                      from_gateway = refl;
                      provider_id = refl;
                      stored =
                          ap (λ (d : Db). d.messages) (sym table)
                          ∙ insert_all-append message_clash (m ∷ []) db.messages fits;
                    }
              ]
        ]

  pub receive-IsReceived :
      (now : ℕ) (id : Text) (uuid4 : ℕ → Text) (event : Props) (seen db : Db) {id' : Text} {n : ℕ}
      {db' : Db}
      → receive x settings now id uuid4 event seen db ≡ (ok (accepted id' n), db')
      → IsReceived event seen db db' id'
  unfolding receive
  receive-IsReceived now id uuid4 event seen db {id'} {n} {db'} h =
      elim (Result-cases (inbound_read x settings event seen)) [
        | inr (e, refused) ↦ absurd (cc (rw (refused, receive) at h))
        | inl ((from_number, some known), read) ↦ absurd (cc (rw (read, receive) at h))
        | inl ((from_number, none), read) ↦
            receive_new-IsReceived now id uuid4 event from_number seen db read
              (rw (read, receive) at h)
      ]

  apply_receipt_stores_none :
      (now : ℕ) (is_delivered : Bool) (event : Props) (seen db : Db) (id : Text) (n : ℕ)
      → (apply_receipt x now is_delivered event seen db).0 ≢ ok (accepted id n)
  unfolding apply_receipt
  apply_receipt_stores_none now is_delivered event seen db id n h =
      elim (Bool-cases (is_empty (receipt_id_of x event))) [
        | inl e ↦ absurd (cc (rw (e, apply_receipt) at h))
        | inr e ↦
            elim (Result-cases
              (one_or_none (select (has_provider_id (receipt_id_of x event)) seen.messages))) [
                | inr (f, several) ↦ absurd (cc (rw (e, several, apply_receipt) at h))
                | inl (none, found) ↦ absurd (cc (rw (e, found, apply_receipt) at h))
                | inl (some m, found) ↦ absurd (cc (rw (e, found, apply_receipt) at h))
              ]
      ]

  pub handle_event-is_reception :
      (now : ℕ) (id : Text) (uuid4 : ℕ → Text) (event : Props) (seen db : Db) {id' : Text} {n : ℕ}
      {db' : Db}
      → handle_event x settings now id uuid4 event seen db ≡ (ok (accepted id' n), db')
      → is_reception (event_type event) ≡ true
  unfolding handle_event
  handle_event-is_reception now id uuid4 event seen db {id'} {n} {db'} h =
      elim (Bool-cases (is_reception (event_type event))) [
        | inl e ↦ e
        | inr e ↦ absurd (
            ground (
              arith,
              e,
              reply_of _ _ h,
              apply_receipt_stores_none now true event seen db id' n,
              apply_receipt_stores_none now false event seen db id' n,
            ))
      ]

  pub already_of : (p q : Option Text × Option Message) → ok p ≡ ok q → p.1 ≡ q.1
  already_of p q e = ap (λ (r : Option Text × Option Message). r.1) (ok_injective p q e)

  known_again :
      (event : Props) (db db' : Db) (id : Text)
      → is_empty (provider_id_of x event) ≡ false
      → IsReceived event db db db' id
      → (from_number : Option Text) × (m : Message) × (m.id ≡ id)
        × (inbound_read x settings event db' ≡ ok (from_number, some m))
  unfolding inbound_read
  known_again event db db' id named r =
      let (_, worded, h1) = >>=-eq-ok (raise_if (not (truthy (body_of event))) _) _ r.found in
      let (from_number, sender, h2) =
        >>=-eq-ok (from_number_of x settings (sender_of event)) _ h1 in
      let (already, looked, h3) = >>=-eq-ok (already_received (provider_id_of x event) db) _ h2 in
      let free : already_received (provider_id_of x event) db ≡ ok none =
        looked ∙ ap ok (already_of _ _ h3) in
      let later =
        already_received_again (provider_id_of x event) db db' r.message named free r.from_gateway
          r.provider_id r.stored in
      (from_number, r.message, r.same_id, ground (arith, worded, sender, later))

  -- An event that has a provider's id and has been accepted, with no other commit between the reads and
  -- the commit, is answered as a duplicate with the id of the stored message where it is delivered again
  -- and reads what the first left, and stores nothing, whatever else is committed meanwhile.
  pub inbound_again :
      (now later : ℕ) (id id2 : Text) (uuid4 uuid4' : ℕ → Text) (raw_body : Text) (event : Props)
      (db db' later_db : Db) {id' : Text} {n : ℕ}
      → x.loads raw_body ≡ loaded (obj event)
      → is_empty (provider_id_of x event) ≡ false
      → android_gateway_inbound x settings now id uuid4 raw_body db db ≡ (ok (accepted id' n), db')
      → android_gateway_inbound x settings later id2 uuid4' raw_body db' later_db
        ≡ (ok (duplicate id'), later_db)
  unfolding android_gateway_inbound handle_event receive
  inbound_again now later id id2 uuid4 uuid4' raw_body event db db' later_db {id'} {n} read named
        h =
      let h1 : handle_event x settings now id uuid4 event db db ≡ (ok (accepted id' n), db') =
        rw (read, android_gateway_inbound) at h in
      let reception = handle_event-is_reception now id uuid4 event db db h1 in
      let h2 : receive x settings now id uuid4 event db db ≡ (ok (accepted id' n), db') =
        rw (reception, handle_event) at h1 in
      let (from_number, m, same, found) =
        known_again event db db' id' named (receive-IsReceived now id uuid4 event db db h2) in
      rw (read, reception, found, android_gateway_inbound, handle_event, receive)
        (ap (λ i. (ok (duplicate i), later_db)) same)
