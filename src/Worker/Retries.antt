-- ===== src/Worker/Retries.antt =====
-- What becomes of a message whose sends fail (app/sms_relay/worker.py, send_loop).
use sms_relay.Common.{
  ℕ, ◌+◌, ◌*◌, ◌≤◌, ◌<◌, min, ◌≡◌, refl, ap, ◌∙◌, inl, inr, true, false, none, some, List, [], ◌∷◌,
  arith, Bool-cases, length, take, Text, str_eq_refl,
}
use sms_relay.Common.Int.{pos, at_least}
use sms_relay.Common.Sort.{sort}
use sms_relay.Config.{Settings}
use sms_relay.External.{External}
use sms_relay.Models.{
  Message, MessageStatus, WebhookDelivery, queued, sending, outbound, second, is_ntfy, status_eq,
}
use sms_relay.Models.Db.{Db, is_due}
use sms_relay.Providers.{provider_error}
use sms_relay.Worker.{
  is_stuck, requeue_stuck, claimed, claim_next, failed_as, send_backoff, is_claimable, settle,
  Answers, dispatch, take_up, send_round, send_loop,
}
use sms_relay.Worker.Backoff.{backoff_seconds_bounds}

failed_as_again :
    (settings : Settings) (now : ℕ) (message : Text) (m : Message)
    → at_least (m.attempts + 1) settings.max_attempts ≡ false
    → failed_as settings now (m.attempts + 1) message false m ≡ record m {
      attempts = m.attempts + 1;
      error = some (take 500 message);
      status = queued;
      next_attempt_at = some (send_backoff now (m.attempts + 1));
      updated_at = now;
    }
unfolding failed_as
failed_as_again settings now message m left = rw left

-- A failed send that may be retried: the row waits, and is not due for at least 30 seconds and due
-- after at most 15 minutes.
pub retry_waits :
    (settings : Settings) (now at : ℕ) (message : Text) (m : Message)
    → at_least (m.attempts + 1) settings.max_attempts ≡ false
    → let row = failed_as settings now (m.attempts + 1) message false m in
      (row.status ≡ queued)
      × (row.attempts ≡ m.attempts + 1)
      × (at < now + 30 * second → is_claimable at row ≡ false)
      × (is_claimable at row ≡ false → m.direction ≡ outbound → at < now + 900 * second)
unfolding send_backoff
retry_waits settings now at message m left =
    let (low, high) = backoff_seconds_bounds (m.attempts + 1) in
    rw (failed_as_again settings now message m left)
      (refl, refl, λ early. ground (arith, low), λ not_due out. ground (arith, high, not_due, out))

-- A table with one message.
abbrev pub single : List WebhookDelivery → Message → Db
single deliveries m = record { messages = m ∷ []; deliveries = deliveries }

-- A message for the provider that waits, and is due from a time on.
pub record IsWaiting (from : ℕ) (m : Message) : Type 0 where
  pub is_sent_out : m.direction ≡ outbound
  pub is_queued : m.status ≡ queued
  pub is_by_provider : is_ntfy m.transport ≡ false
  pub is_due_then : (at : ℕ) → from ≤ at → is_due m.next_attempt_at at ≡ true

-- Rounds in each of which the provider's error may pass, the first one not before a time, and each
-- later one at least 15 minutes after the failure before it.
abbrev pub Failing : ℕ → List Answers → Type 0
Failing from [] = Unit
Failing from (a ∷ answers) =
    (from ≤ a.claim_time)
    × ((message : Text) × (a.sending_outcome ≡ provider_error message false))
    × Failing (a.send_time + 900 * second) answers

failed_as_last :
    (settings : Settings) (now : ℕ) (message : Text) (m : Message)
    → at_least (m.attempts + 1) settings.max_attempts ≡ true
    → ((failed_as settings now (m.attempts + 1) message false m).status ≡ MessageStatus.failed)
      × ((failed_as settings now (m.attempts + 1) message false m).attempts ≡ m.attempts + 1)
unfolding failed_as
failed_as_last settings now message m used = rw used (refl, refl)

not_stuck :
    (settings : Settings) (now : ℕ) (m : Message)
    → status_eq m.status sending ≡ false
    → is_stuck settings now m ≡ false
unfolding is_stuck
not_stuck settings now m h = ground (arith, h)

again-IsWaiting :
    (settings : Settings) (now claim_time from : ℕ) (message : Text) (m : Message)
    → IsWaiting from m
    → at_least (m.attempts + 1) settings.max_attempts ≡ false
    → IsWaiting
        (now + 900 * second)
        (failed_as settings now (m.attempts + 1) message false (claimed claim_time m))
unfolding send_backoff
again-IsWaiting settings now claim_time from message m w left =
    let (low, high) = backoff_seconds_bounds (m.attempts + 1) in
    rw (failed_as_again settings now message (claimed claim_time m) left) (record {
      is_sent_out = w.is_sent_out;
      is_queued = refl;
      is_by_provider = w.is_by_provider;
      is_due_then = λ at late. ground (arith, high, late);
    })

module _ (x : External) (settings : Settings) (deliveries : List WebhookDelivery) where
  -- A message that is not being sent is not put back.
  kept :
      (now : ℕ) (m : Message)
      → status_eq m.status sending ≡ false
      → requeue_stuck settings now (single deliveries m) ≡ single deliveries m
  unfolding requeue_stuck
  kept now m h = rw (not_stuck settings now m h) refl

  taken :
      (now : ℕ) (m : Message)
      → is_claimable now m ≡ true
      → claim_next now (single deliveries m)
        ≡ some (claimed now m, single deliveries (claimed now m))
  unfolding claim_next sort
  taken now m due = rw (claim_next, due, str_eq_refl m.id) refl

  not_taken :
      (now : ℕ) (m : Message)
      → is_claimable now m ≡ false
      → claim_next now (single deliveries m) ≡ none
  unfolding claim_next sort
  not_taken now m not_due = rw (claim_next, not_due) refl

  dispatch_fails :
      (a : Answers) (message : Text) (m : Message)
      → is_ntfy m.transport ≡ false
      → a.sending_outcome ≡ provider_error message false
      → dispatch x settings a m (single deliveries m)
        ≡ single deliveries (failed_as settings a.send_time (m.attempts + 1) message false m)
  unfolding dispatch settle
  dispatch_fails a message m by_provider failure =
      rw (dispatch, by_provider, failure, settle, str_eq_refl m.id) refl

  round_fails :
      (a : Answers) (message : Text) (m : Message)
      → is_claimable a.claim_time m ≡ true
      → is_ntfy m.transport ≡ false
      → a.sending_outcome ≡ provider_error message false
      → send_round x settings a (single deliveries m)
        ≡ single deliveries
            (failed_as settings a.send_time (m.attempts + 1) message false (claimed a.claim_time m))
  unfolding send_round take_up
  round_fails a message m due by_provider failure =
      ap (λ db. take_up x settings a db (claim_next a.claim_time db))
        (kept a.claim_time m (ground (arith, due)))
      ∙ ap (take_up x settings a (single deliveries m)) (taken a.claim_time m due)
      ∙ dispatch_fails a message (claimed a.claim_time m) by_provider failure

  round_idles :
      (a : Answers) (m : Message)
      → m.status ≡ MessageStatus.failed
      → send_round x settings a (single deliveries m) ≡ single deliveries m
  unfolding send_round take_up
  round_idles a m over =
      ap (λ db. take_up x settings a db (claim_next a.claim_time db))
        (kept a.claim_time m (ground (arith, over)))
      ∙ ap (take_up x settings a (single deliveries m))
          (not_taken a.claim_time m (ground (arith, over)))

  loop_idles :
      (answers : List Answers) (m : Message)
      → m.status ≡ MessageStatus.failed
      → send_loop x settings answers (single deliveries m) ≡ single deliveries m
  unfolding send_loop
  loop_idles [] m over = refl
  loop_idles (a ∷ answers) m over = rw (round_idles a m over) (loop_idles answers m over)

  -- The message after a number of failures.
  pub record IsRetried (n failures : ℕ) (m row : Message) : Type 0 where
    pub counted : row.attempts ≡ min n (m.attempts + failures)
    pub waits : m.attempts + failures < n → row.status ≡ queued
    pub ends : n ≤ m.attempts + failures → row.status ≡ MessageStatus.failed

  -- In a table with one message, which waits for the provider with fewer attempts than the configured
  -- number, rounds of the send loop whose sends all fail for a reason that may pass, the first once the
  -- message is due and each later one at least 15 minutes after the failure before it, count an attempt
  -- each and leave the message waiting as long as attempts are left; then it has failed, and further
  -- such rounds leave it so.
  pub retries_end :
      (n : ℕ) (answers : List Answers) (from : ℕ) (m : Message)
      → settings.max_attempts ≡ pos n
      → IsWaiting from m
      → m.attempts < n
      → Failing from answers
      → (row : Message) × (send_loop x settings answers (single deliveries m)
          ≡ single deliveries row)
        × IsRetried n (length answers) m row
  unfolding send_loop
  retries_end n [] from m e w fewer h = (
    m,
    refl,
    record {
      counted = ground (arith, fewer);
      waits = λ _. w.is_queued;
      ends = λ over. absurd (omega (arith, fewer, over));
    },
  )
  retries_end n (a ∷ answers) from m e w fewer (soon, (message, failure), later) =
      let row =
        failed_as settings a.send_time (m.attempts + 1) message false (claimed a.claim_time m) in
      let due : is_claimable a.claim_time m ≡ true =
        ground (arith, w.is_sent_out, w.is_queued, w.is_due_then a.claim_time soon) in
      let round = round_fails a message m due w.is_by_provider failure in
      elim (Bool-cases (at_least (m.attempts + 1) settings.max_attempts)) [
        | inl used ↦
            let (over, counted) =
              failed_as_last settings a.send_time message (claimed a.claim_time m) used in
            let last : n ≤ m.attempts + 1 = ground (arith, e, used) in
            (
              row,
              rw round (loop_idles answers row over),
              record {
                counted = ground (arith, counted, last, fewer);
                waits = λ left. absurd (omega (arith, left, last));
                ends = λ _. over;
              },
            )
        | inr left ↦
            let counted : row.attempts ≡ m.attempts + 1 =
              ap (λ (r : Message). r.attempts)
                (failed_as_again settings a.send_time message (claimed a.claim_time m) left) in
            let more : m.attempts + 1 < n = ground (arith, e, left) in
            let (end, reached, r) =
              retries_end n answers (a.send_time + 900 * second) row e
                (again-IsWaiting settings a.send_time a.claim_time from message m w left)
                (omega (arith, counted, more)) later in
            (
              end,
              rw round reached,
              record {
                counted = ground (arith, r.counted, counted);
                waits = λ l. r.waits (omega (arith, counted, l));
                ends = λ l. r.ends (omega (arith, counted, l));
              },
            )
      ]
