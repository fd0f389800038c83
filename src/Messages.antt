-- ===== src/Messages.antt =====
-- app/sms_relay/routes/messages.py: the send and query API. A handler returns its result and the
-- database that it leaves; a fault that leaves it has stored nothing since the last commit.
use sms_relay.Common.{
  ℕ, suc, inl, inr, Bool, true, ◌&&◌, ◌||◌, not, Option, none, some, List, [], ◌∷◌, map, ltb, leb,
  if◌then◌else◌, length, take, drop, select, is_nil, Text, text, str_eq, is_empty,
}
pub mod Appending
pub mod Checks
pub mod Idempotency
pub mod Reading
pub mod Queueing
use sms_relay.Common.Result.{
  Fault, Result, ok, raise, http, invalid_phone_number, integrity_error, multiple_results_found,
  ◌>>=◌, ◌>>◌, raise_if, traverse,
}
use sms_relay.Common.Sort.{sort}
use sms_relay.Config.{Settings}
use sms_relay.External.{External}
use sms_relay.Models.{
  Direction, outbound, inbound, queued, sms, ntfy, Message, is_outbound, is_inbound,
  direction_value, status_value,
}
use sms_relay.Models.Db.{Db, opt_eq, message_clash, insert_all}
use sms_relay.Notifications.{topic_for}
use sms_relay.Phone.{normalize}
use sms_relay.Schemas.{SendRequest, MessageOut, message_out}

-- `scalar_one_or_none`
unfoldable pub one_or_none {ℓ} : {A : Type ℓ} → List A → Result (Option A)
one_or_none [] = ok none
one_or_none (m ∷ []) = ok (some m)
one_or_none (_ ∷ _ ∷ _) = raise multiple_results_found

-- The rows of a service with an idempotency key.
abbrev pub has_key : Text → Text → Message → Bool
has_key service key m = str_eq m.service service && opt_eq m.idempotency_key (some key)

unfoldable pub existing_by_idempotency_key : Db → Text → Text → Result (Option Message)
unfolding one_or_none
existing_by_idempotency_key db service key = one_or_none (select (has_key service key) db.messages)

-- `if request.idempotency_key`: None and the empty text are no key.
abbrev pub key_of : SendRequest → Text
key_of r = elim r.idempotency_key [ none ↦ [] | some k ↦ k ]

unfoldable pub recipients_of : SendRequest → List Text
recipients_of r = elim r.to [ inl one ↦ one ∷ [] | inr many ↦ many ]

-- `except InvalidPhoneNumber` around the normalization of the recipients.
unfoldable pub as_unprocessable {ℓ} : {A : Type ℓ} → Result A → Result A
as_unprocessable (raise (invalid_phone_number e)) = raise (http 422 e)
as_unprocessable r = r

-- After an IntegrityError: the winner's row, or the error again.
unfoldable pub winner : SendRequest → Text → Db → Result (List MessageOut)
unfolding existing_by_idempotency_key
winner r service db = if is_empty (key_of r) then raise integrity_error else do
  existing ← existing_by_idempotency_key db service (key_of r)
  elim existing [ none ↦ raise integrity_error | some m ↦ ok (message_out m ∷ []) ]

-- The commit of the new rows to the database as it is by then.
unfoldable pub commit_messages :
    SendRequest → Text → List Message → Db → Result (List MessageOut) × Db
unfolding insert_all winner
commit_messages r service created db = elim (insert_all message_clash created db.messages) [
  | none ↦ (winner r service db, db)
  | some rows ↦ (ok (map message_out created), record db { messages = rows })
]

-- The row that an idempotency key already names, looked up in the database as it is at first.
unfoldable pub replayed : SendRequest → Text → Db → Result (Option Message)
unfolding existing_by_idempotency_key
replayed r service db =
    if is_empty (key_of r) then ok none else existing_by_idempotency_key db service (key_of r)

module _ (x : External) (settings : Settings) where
  -- The checks before the database is read.
  unfoldable pub checked_recipients : SendRequest → Result (List Text)
  unfolding recipients_of as_unprocessable
  checked_recipients r = do
    raise_if (is_nil (recipients_of r)) (http 422 (text "no recipients"))
    normalized ← as_unprocessable (traverse (normalize x settings) (recipients_of r))
    raise_if (not (is_empty (key_of r)) && ltb 1 (length normalized))
        (http 422 (text "idempotency_key is only valid for a single recipient"))
    ok normalized

  -- The row for one recipient, its topic and transport set.
  unfoldable pub new_message : SendRequest → Text → ℕ → Text → Text → Result Message
  new_message r service now id to_number = do
    topic ← topic_for x settings service to_number r.body
    ok (record {
      id = id;
      direction = outbound;
      status = queued;
      to_number = some to_number;
      from_number = none;
      body = r.body;
      service = service;
      idempotency_key = r.idempotency_key;
      transport = elim topic [ none ↦ sms | some _ ↦ ntfy ];
      notification_topic = topic;
      notification_priority = r.notification_priority;
      attempts = 0;
      next_attempt_at = some now;
      provider_message_id = none;
      error = none;
      created_at = now;
      updated_at = now;
      sent_at = none;
    })

  -- One row for each recipient; `uuid4 n` is the id that the n-th call returns.
  unfoldable pub new_messages :
      SendRequest → Text → ℕ → (ℕ → Text) → ℕ → List Text → Result (List Message)
  unfolding new_message
  new_messages r service now uuid4 n [] = ok []
  new_messages r service now uuid4 n (to_number ∷ more) = do
    m ← new_message r service now (uuid4 n) to_number
    ms ← new_messages r service now uuid4 (suc n) more
    ok (m ∷ ms)

  unfoldable pub queue_messages :
      SendRequest → Text → ℕ → (ℕ → Text) → List Text → Db → Result (List MessageOut) × Db
  unfolding new_messages commit_messages
  queue_messages r service now uuid4 normalized db =
      elim (new_messages r service now uuid4 0 normalized) [
        | raise e ↦ (raise e, db)
        | ok created ↦ commit_messages r service created db
      ]

  -- `send_message`. Other requests may commit between the first read, from `seen`, and the commit,
  -- to `db`.
  unfoldable pub send_message :
      SendRequest → Text → ℕ → (ℕ → Text) → (seen db : Db) → Result (List MessageOut) × Db
  unfolding checked_recipients replayed queue_messages
  send_message r service now uuid4 seen db = elim (checked_recipients r) [
    | raise e ↦ (raise e, db)
    | ok normalized ↦ elim (replayed r service seen) [
      | raise e ↦ (raise e, db)
      | ok (some m) ↦ (ok (message_out m ∷ []), db)
      | ok none ↦ queue_messages r service now uuid4 normalized db
    ]
  ]

-- `session.get(Message, id)`
unfoldable pub get_row : Text → List Message → Option Message
get_row id [] = none
get_row id (m ∷ ms) = if str_eq m.id id then some m else get_row id ms

unfoldable pub get_message : Text → Text → Db → Result MessageOut
unfolding get_row message_out
get_message message_id service db = elim (get_row message_id db.messages) [
  | none ↦ raise (http 404 (text "message not found"))
  | some m ↦
      if is_outbound m.direction && not (str_eq m.service service)
      then raise (http 404 (text "message not found"))
      else ok (message_out m)
]

-- The query of `list_messages`; FastAPI has checked 1 <= limit <= 500.
pub record ListQuery : Type 0 where
  pub direction : Option Text
  pub message_status : Option Text
  pub limit : ℕ
  pub offset : ℕ

-- `if value: filters.append(column == value)`
abbrev pub matches : Option Text → Text → Bool
matches none column = true
matches (some []) column = true
matches (some (c ∷ s)) column = str_eq column (c ∷ s)

unfoldable pub is_listed : ListQuery → Text → Message → Bool
is_listed q service m =
    (str_eq m.service service || is_inbound m.direction)
    && matches q.direction (direction_value m.direction)
    && matches q.message_status (status_value m.status)

abbrev pub newer : Message → Message → Bool
newer m n = leb n.created_at m.created_at

unfoldable pub list_messages : ListQuery → Text → Db → List MessageOut × ℕ
unfolding is_listed
list_messages q service db =
    let rows = select (is_listed q service) db.messages in
    (map message_out (take q.limit (drop q.offset (sort newer rows))), length rows)
