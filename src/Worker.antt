-- ===== src/Worker.antt =====
-- app/sms_relay/worker.py: the loop that sends, one round at a time.
use sms_relay.Common.{
  ℕ, ◌+◌, ◌-◌, ◌*◌, ◌^◌, min, Bool, true, false, ◌&&◌, ◌||◌, Option, none, some, List, [], ◌∷◌,
  ◌++◌, leb, if◌then◌else◌, take, select, update, head?, Text, text,
}
use sms_relay.Common.Int.{ℤ, at_least, before_cutoff}
use sms_relay.Common.Result.{Fault, value_error, transport_error, Result, ok, raise}
use sms_relay.Common.Sort.{sort}
use sms_relay.Config.{Settings}
use sms_relay.External.{External}
use sms_relay.Models.{
  second, Message, WebhookDelivery, MessageStatus, outbound, queued, sending, sent, published,
  Transport, sms_fallback, is_outbound, status_eq, is_terminal, is_ntfy,
}
use sms_relay.Models.Db.{Db, is_due, update_message}
use sms_relay.Providers.{SendOutcome, accepted, provider_error, crashed, column_text}
pub mod Backoff
pub mod Claiming
pub mod Draining
pub mod Grading
pub mod Keys
pub mod Limiter
pub mod Polling
pub mod Pruning
pub mod Retries
pub mod Rounds
pub mod Outcomes
pub mod Stranded
pub mod Upkeep

abbrev pub ntfy_failed : Text
ntfy_failed = text "ntfy publish failed; SMS fallback selected"

-- `backoff_seconds(attempts)`
unfoldable pub backoff_seconds : ℕ → ℕ
backoff_seconds attempts = min (30 * 2 ^ (attempts - 1)) 900

unfoldable pub send_backoff : ℕ → ℕ → ℕ
unfolding backoff_seconds
send_backoff now attempts = now + backoff_seconds attempts * second

-- _requeue_stuck
unfoldable pub is_stuck : Settings → ℕ → Message → Bool
is_stuck settings now m =
    status_eq m.status sending && before_cutoff second settings.stuck_after_seconds m.updated_at now

abbrev pub requeued : ℕ → Message → Message
requeued now m = record m { status = queued; next_attempt_at = some now; updated_at = now }

unfoldable pub requeue_stuck : Settings → ℕ → Db → Db
unfolding is_stuck
requeue_stuck settings now db = record db {
  messages = update (is_stuck settings now) (requeued now) db.messages;
}

-- _claim_next
abbrev pub is_claimable : ℕ → Message → Bool
is_claimable now m =
    is_outbound m.direction && status_eq m.status queued && is_due m.next_attempt_at now

abbrev pub older : Message → Message → Bool
older m n = leb m.created_at n.created_at

abbrev pub claimed : ℕ → Message → Message
claimed now m = record m { status = sending; updated_at = now }

unfoldable pub claim_next : ℕ → Db → Option (Message × Db)
claim_next now db = elim (head? (sort older (select (is_claimable now) db.messages))) [
  | none ↦ none
  | some m ↦ some (claimed now m, update_message m.id (claimed now) db)
]

-- What the send loop writes to the row of the message `m` that it holds, by the columns that it sets
-- (`updated_at` follows every write).
abbrev pub fallen_back : ℕ → Message → Message
fallen_back now row = record row {
  transport = sms_fallback;
  error = some ntfy_failed;
  updated_at = now;
}

abbrev pub published_as : ℕ → Text → Message → Message
published_as now receipt row = record row {
  status = published;
  provider_message_id = some (text "ntfy:" ++ receipt);
  sent_at = some now;
  error = none;
  updated_at = now;
}

abbrev pub sent_as : ℕ → ℕ → Option Text → Message → Message
sent_as now attempts provider_id row = record row {
  attempts = attempts;
  status = sent;
  provider_message_id = provider_id;
  sent_at = some now;
  error = none;
  updated_at = now;
}

-- The `except ProviderError` branch; `attempts` counts the attempt that failed.
unfoldable pub failed_as : Settings → ℕ → ℕ → Text → Bool → Message → Message
unfolding send_backoff
failed_as settings now attempts message permanent row =
    if permanent || at_least attempts settings.max_attempts
    then record row {
      attempts = attempts;
      error = some (take 500 message);
      status = MessageStatus.failed;
      updated_at = now;
    }
    else record row {
      attempts = attempts;
      error = some (take 500 message);
      status = queued;
      next_attempt_at = some (send_backoff now attempts);
      updated_at = now;
    }

-- The exceptions that the loop takes for a failed publication.
abbrev pub is_caught : Fault → Bool
is_caught transport_error = true
is_caught value_error = true
is_caught _ = false

-- What the outside answers in one round: when, what `publish` did, and what `provider.send` did.
pub record Answers : Type 0 where
  pub claim_time : ℕ
  pub publish_time : ℕ
  pub publication : Result Text
  pub send_time : ℕ
  pub sending_outcome : SendOutcome

module _ (x : External) (settings : Settings) where
  -- From the provider's answer to the commit; an exception leaves the row as it is, in `sending`.
  unfoldable pub settle : ℕ → Message → SendOutcome → Db → Db
  unfolding failed_as column_text
  settle now m (provider_error message permanent) db =
      update_message m.id (failed_as settings now (m.attempts + 1) message permanent) db
  settle now m crashed db = db
  settle now m (accepted id) db = elim (column_text x id) [
    | raise e ↦ db
    | ok provider_id ↦ update_message m.id (sent_as now (m.attempts + 1) provider_id) db
  ]

  -- The part of a round that follows a claim.
  unfoldable pub dispatch : Answers → Message → Db → Db
  unfolding settle
  dispatch a m db =
      if is_ntfy m.transport
      then elim a.publication [
        | ok receipt ↦ update_message m.id (published_as a.publish_time receipt) db
        | raise e ↦
            if is_caught e
            then settle a.send_time m a.sending_outcome
                (update_message m.id (fallen_back a.publish_time) db)
            else db
      ]
      else settle a.send_time m a.sending_outcome db

  -- The rest of a round, by what was claimed.
  unfoldable pub take_up : Answers → Db → Option (Message × Db) → Db
  unfolding dispatch
  take_up a db none = db
  take_up a db (some (m, db')) = dispatch a m db'

  -- One round of `send_loop`, with no other commit in its course.
  unfoldable pub send_round : Answers → Db → Db
  unfolding requeue_stuck claim_next take_up
  send_round a db =
      let ready = requeue_stuck settings a.claim_time db in
      take_up a ready (claim_next a.claim_time ready)

  -- The rounds of `send_loop`, by what the outside answers in each.
  unfoldable pub send_loop : List Answers → Db → Db
  unfolding send_round
  send_loop [] db = db
  send_loop (a ∷ answers) db = send_loop answers (send_round a db)
