-- ===== src/Inbound/Keeping.antt =====
-- What a request to the inbound webhook leaves in the database (app/sms_relay/routes/inbound.py).
use sms_relay.Common.{
  ℕ, suc, ◌≡◌, refl, ap, ◌∙◌, inl, inr, Bool, true, false, ◌||◌, Option, none, some, List, [], ◌∷◌,
  ◌++◌, arith, if◌then◌else◌, Bool-cases, Option-cases, length, select, update, All, All-append,
  Text, text, str_eq, str_eq_refl, is_empty,
}
use sms_relay.Auth.{SignedRequest, verify_inbound_signature}
use sms_relay.Common.Json.{obj, Props}
use sms_relay.Common.Result.{
  Fault, Result, ok, raise, integrity_error, require, ◌>>=◌, ok_injective, Result-cases,
}
use sms_relay.Config.{Settings, Subscriber}
use sms_relay.External.{External, loaded, malformed, undecodable}
use sms_relay.Inbound.{
  InboundReply, body_of, has_provider_id, inbound_message, store_inbound, inbound_read, receive_new,
  receive, event_type, is_kind, is_reception, receipt_id_of, mark_delivered, apply_receipt,
  handle_event, android_gateway_inbound, inbound_webhook,
}
use sms_relay.Inbound.Duplicates.{store_inbound-cases}
use sms_relay.Messages.{one_or_none}
use sms_relay.Models.{Message, WebhookDelivery, MessageStatus, status_eq}
use sms_relay.Models.Db.{Db, message_clash, delivery_clash, insert_all}
use sms_relay.Models.Db.Constraints.{
  is_stored, IsSound, insert_all-IsDistinct, insert_all-append, update-IsDistinct,
}
use sms_relay.Providers.{column_text}
use sms_relay.Webhooks.{fanout_rows, enqueue_fanout}

-- An answer leaves the constraints intact, and one that raises changes nothing.
abbrev pub KeepsSound : Db → Result InboundReply × Db → Type 0
KeepsSound db result = IsSound result.1 × ((e : Fault) → result.0 ≡ raise e → result.1 ≡ db)

is_stored-append :
    (id : Text) (a b : List Message) → is_stored (a ++ b) id ≡ (is_stored a id || is_stored b id)
is_stored-append id [] b = refl
is_stored-append id (m ∷ a) b = ground (arith, is_stored-append id a b)

pub All-stored_more :
    (a b : List Message) (deliveries : List WebhookDelivery)
    → All (λ d. is_stored a d.message_id ≡ true) deliveries
    → All (λ d. is_stored (a ++ b) d.message_id ≡ true) deliveries
All-stored_more a b [] h = tt
All-stored_more a b (d ∷ deliveries) h =
    (ground (arith, is_stored-append d.message_id a b, h.0), All-stored_more a b deliveries h.1)

fanout_rows-stored :
    (now : ℕ) (uuid4 : ℕ → Text) (n : ℕ) (existing : List WebhookDelivery) (rows : List Message)
    (m : Message) (subs : List Subscriber)
    → All
        (λ d. is_stored (rows ++ m ∷ []) d.message_id ≡ true)
        (fanout_rows now uuid4 n existing m subs)
unfolding fanout_rows
fanout_rows-stored now uuid4 n existing rows m [] = tt
fanout_rows-stored now uuid4 n existing rows m (sub ∷ subs) = ground (
  arith,
  fanout_rows-stored now uuid4 (suc n) existing rows m subs,
  is_stored-append m.id rows (m ∷ []),
  str_eq_refl m.id,
)

pub enqueue_fanout_inserts :
    (settings : Settings) (now : ℕ) (uuid4 : ℕ → Text) (m : Message)
    (deliveries : List WebhookDelivery) {n : ℕ} {stored : List WebhookDelivery}
    → enqueue_fanout settings now uuid4 m deliveries ≡ ok (n, stored)
    → insert_all delivery_clash
        (fanout_rows now uuid4 0 deliveries m settings.subscribers)
        deliveries
      ≡ some stored
unfolding enqueue_fanout
enqueue_fanout_inserts settings now uuid4 m deliveries {n} {stored} h =
    let rows = fanout_rows now uuid4 0 deliveries m settings.subscribers in
    elim (Option-cases (insert_all delivery_clash rows deliveries)) [
      | inl clash ↦ absurd (cc (rw (clash, enqueue_fanout) at h))
      | inr (table, fits) ↦
          fits
          ∙ ap some (second_of (length rows, table) (n, stored) (rw (fits, enqueue_fanout) at h))
    ]
  where
    second_of : (p q : ℕ × List WebhookDelivery) → ok p ≡ ok q → p.1 ≡ q.1
    second_of p q e = ap (λ (r : ℕ × List WebhookDelivery). r.1) (ok_injective p q e)

module _ (x : External) (settings : Settings) where
  pub store_inbound-KeepsSound :
      (now : ℕ) (uuid4 : ℕ → Text) (m : Message) (db : Db)
      → IsSound db
      → KeepsSound db (store_inbound x settings now uuid4 m db)
  store_inbound-KeepsSound now uuid4 m db s = elim (store_inbound-cases x settings now uuid4 m db) [
    | inl (e, failed) ↦ rw failed (s, λ _ _. refl)
    | inr (n, rows, stored, fits, fanned, done) ↦
        let inserted = enqueue_fanout_inserts settings now uuid4 m db.deliveries fanned in
        rw done (
          record {
            valid = record {
              messages_distinct =
                  insert_all-IsDistinct message_clash (m ∷ []) db.messages fits
                    s.valid.messages_distinct;
              deliveries_distinct =
                  insert_all-IsDistinct delivery_clash _ db.deliveries inserted
                    s.valid.deliveries_distinct;
            };
            referential =
                rw
                  (
                    insert_all-append message_clash (m ∷ []) db.messages fits,
                    insert_all-append delivery_clash _ db.deliveries inserted,
                  )
                  (All-append _ db.deliveries _
                    (All-stored_more db.messages (m ∷ []) db.deliveries s.referential)
                    (fanout_rows-stored now uuid4 0 db.deliveries db.messages m
                      settings.subscribers));
          },
          λ e h. absurd (cc h),
        )
  ]

  receive-KeepsSound :
      (now : ℕ) (id : Text) (uuid4 : ℕ → Text) (event : Props) (seen db : Db)
      → IsSound db
      → KeepsSound db (receive x settings now id uuid4 event seen db)
  unfolding receive receive_new
  receive-KeepsSound now id uuid4 event seen db s =
      elim (Result-cases (inbound_read x settings event seen)) [
        | inr (e, refused) ↦ rw (refused, receive) (s, λ _ _. refl)
        | inl ((from_number, some known), read) ↦ rw (read, receive) (s, λ _ _. refl)
        | inl ((from_number, none), read) ↦
            elim (Result-cases
              (column_text x (body_of event) >>= λ (b : Option Text). require b integrity_error)) [
                | inr (e, refused) ↦ rw (read, refused, receive, receive_new) (s, λ _ _. refl)
                | inl (body, bound) ↦
                    rw (read, bound, receive, receive_new)
                      (store_inbound-KeepsSound now uuid4
                        (inbound_message x settings id now event from_number body) db s)
              ]
      ]

is_stored-update :
    (id row_id : Text) (f : Message → Message)
    → ((m : Message) → (f m).id ≡ m.id)
    → (rows : List Message)
    → is_stored (update (λ (m : Message). str_eq m.id row_id) f rows) id ≡ is_stored rows id
is_stored-update id row_id f same [] = refl
is_stored-update id row_id f same (m ∷ rows) =
    ground (arith, is_stored-update id row_id f same rows, same m)

All-stored-update :
    (row_id : Text) (f : Message → Message)
    → ((m : Message) → (f m).id ≡ m.id)
    → (rows : List Message) (deliveries : List WebhookDelivery)
    → All (λ d. is_stored rows d.message_id ≡ true) deliveries
    → All
        (λ d. is_stored (update (λ (m : Message). str_eq m.id row_id) f rows) d.message_id ≡ true)
        deliveries
All-stored-update row_id f same rows [] h = tt
All-stored-update row_id f same rows (d ∷ deliveries) h = (
  is_stored-update d.message_id row_id f same rows ∙ h.0,
  All-stored-update row_id f same rows deliveries h.1,
)

mark_delivered-IsSound :
    (now : ℕ) (m : Message) (db : Db) → IsSound db → IsSound (mark_delivered now m db)
unfolding mark_delivered
mark_delivered-IsSound now m db s = elim (Bool-cases (status_eq m.status MessageStatus.delivered)) [
  | inl same ↦ rw (same, mark_delivered) s
  | inr new ↦
      rw (new, mark_delivered)
        (record {
          valid = record {
            messages_distinct =
                update-IsDistinct message_clash _ _ (λ a b. refl) (λ a b. refl) db.messages
                  s.valid.messages_distinct;
            deliveries_distinct = s.valid.deliveries_distinct;
          };
          referential =
              All-stored-update m.id _ (λ k. refl) db.messages db.deliveries s.referential;
        })
]

apply_receipt-KeepsSound :
    (x : External) (now : ℕ) (is_delivered : Bool) (event : Props) (seen db : Db)
    → IsSound db
    → KeepsSound db (apply_receipt x now is_delivered event seen db)
unfolding apply_receipt
apply_receipt-KeepsSound x now is_delivered event seen db s =
    let id = receipt_id_of x event in
    elim (Bool-cases (is_empty id)) [
      | inl e ↦ rw (e, apply_receipt) (s, λ _ _. refl)
      | inr e ↦ elim (Result-cases (one_or_none (select (has_provider_id id) seen.messages))) [
        | inr (f, several) ↦ rw (e, several, apply_receipt) (s, λ _ _. refl)
        | inl (none, found) ↦ rw (e, found, apply_receipt) (s, λ _ _. refl)
        | inl (some m, found) ↦
            rw (e, found, apply_receipt) (marked m is_delivered, λ f h. absurd (cc h))
      ]
    ]
  where
    marked : (m : Message) (b : Bool) → IsSound (if b then mark_delivered now m db else db)
    marked m true = mark_delivered-IsSound now m db s
    marked m false = s

module _ (x : External) (settings : Settings) where
  handle_event-KeepsSound :
      (now : ℕ) (id : Text) (uuid4 : ℕ → Text) (event : Props) (seen db : Db)
      → IsSound db
      → KeepsSound db (handle_event x settings now id uuid4 event seen db)
  unfolding handle_event
  handle_event-KeepsSound now id uuid4 event seen db s =
      elim (Bool-cases (is_reception (event_type event))) [
        | inl e ↦ rw (e, handle_event) (receive-KeepsSound x settings now id uuid4 event seen db s)
        | inr e ↦ elim (Bool-cases (is_kind (text "sms:delivered") (event_type event))) [
          | inl e1 ↦ rw (e, e1, handle_event) (apply_receipt-KeepsSound x now true event seen db s)
          | inr e1 ↦ elim (Bool-cases (is_kind (text "sms:sent") (event_type event))) [
            | inl e2 ↦
                rw (e, e1, e2, handle_event) (apply_receipt-KeepsSound x now false event seen db s)
            | inr e2 ↦ rw (e, e1, e2, handle_event) (s, λ _ _. refl)
          ]
        ]
      ]

  android_gateway_inbound-KeepsSound :
      (now : ℕ) (id : Text) (uuid4 : ℕ → Text) (raw_body : Text) (seen db : Db)
      → IsSound db
      → KeepsSound db (android_gateway_inbound x settings now id uuid4 raw_body seen db)
  unfolding android_gateway_inbound
  android_gateway_inbound-KeepsSound now id uuid4 raw_body seen db s =
      elim (x.loads raw_body)
          as (λ l.
            x.loads raw_body ≡ l
            → KeepsSound db (android_gateway_inbound x settings now id uuid4 raw_body seen db)) [
              | malformed ↦ λ e. rw (e, android_gateway_inbound) (s, λ _ _. refl)
              | undecodable ↦ λ e. rw (e, android_gateway_inbound) (s, λ _ _. refl)
              | loaded (obj event) ↦ λ e.
                  rw (e, android_gateway_inbound)
                    (handle_event-KeepsSound now id uuid4 event seen db s)
              | loaded _ ↦ λ e. rw (e, android_gateway_inbound) (s, λ _ _. refl)
            ]
        refl

  -- Where the constraints of both tables and the foreign key hold, they hold after a request to the
  -- inbound webhook, whatever is posted, signed or not, and whatever database it has read; a request
  -- that raises changes nothing, and one whose signature is refused is answered with that refusal.
  pub inbound_webhook-KeepsSound :
      (now : ℕ) (id : Text) (uuid4 : ℕ → Text) (request : SignedRequest) (seen db : Db)
      → IsSound db
      → KeepsSound db (inbound_webhook x settings now id uuid4 request seen db)
        × ((e : Fault)
            → verify_inbound_signature x settings request ≡ raise e
            → inbound_webhook x settings now id uuid4 request seen db ≡ (raise e, db))
  unfolding inbound_webhook
  inbound_webhook-KeepsSound now id uuid4 request seen db s = (
    elim (Result-cases (verify_inbound_signature x settings request)) [
      | inr (e, refused) ↦ rw (refused, inbound_webhook) (s, λ _ _. refl)
      | inl (raw_body, verified) ↦
          rw (verified, inbound_webhook)
            (android_gateway_inbound-KeepsSound now id uuid4 raw_body seen db s)
    ],
    λ e refused. rw (refused, inbound_webhook),
  )
