-- ===== src/Tests/Rounds.antt =====
-- Rounds of the loops and the rate limiter (app/sms_relay/worker.py).
use sms_relay.Common.{
  ℕ, ◌+◌, ◌*◌, ◌<◌, ◌≡◌, refl, false, not, some, List, [], ◌∷◌, arith, select, text,
}
use sms_relay.Common.Int.{pos}
use sms_relay.Common.Result.{raise, transport_error}
use sms_relay.Models.{Message, sms, sent, second, outbound, queued, is_terminal}
use sms_relay.Models.Db.Constraints.{IsValid, IsReferential}
use sms_relay.Providers.{provider_error, response, android_send}
use sms_relay.Tests.Fixtures.{libraries, configured, waiting, queue}
use sms_relay.Worker.Grading.{AreGraded, settle-AreGraded}
use sms_relay.Worker.{claimed, settle, Answers, is_claimable, claim_next, failed_as, send_loop}
use sms_relay.Worker.Upkeep.{prune}
use sms_relay.Models.Db.{Db}
use sms_relay.Worker.Claiming.{IsClaim, claim_next-IsClaim}
use sms_relay.Worker.Limiter.{RateLimiter, new_limiter, acquire, passed, sleep_time, turn}
use sms_relay.Worker.Limiter.Pacing.{IsPaced, rate_limited, acquire_returns}
use sms_relay.Worker.Pruning.{prune_keeps}
use sms_relay.Worker.Retries.{retry_waits, single, IsWaiting, IsRetried, retries_end}

-- ntfy is down, and the gateway is busy.
abbrev bad_day : Answers
bad_day = record {
  claim_time = 8;
  publish_time = 9;
  publication = raise transport_error;
  send_time = 10;
  sending_outcome = provider_error (text "busy") false;
}

abbrev queue-IsValid : IsValid queue
queue-IsValid = record { messages_distinct = (tt, tt); deliveries_distinct = tt }

claim_next-IsClaim_example : IsClaim 8 queue (claim_next 8 queue)
claim_next-IsClaim_example = claim_next-IsClaim 8 queue

rate_limited_example : IsPaced 2 (passed (new_limiter (pos 2)) [] (0 ∷ 5 ∷ 6 ∷ 60000000 ∷ []))
rate_limited_example =
    rate_limited (pos 2) 0 (0 ∷ 5 ∷ 6 ∷ 60000000 ∷ [])
      (omega arith, (omega arith, (omega arith, (omega arith, tt))))

abbrev full : RateLimiter
full = record { per_minute = 2; sent = 0 ∷ 5 ∷ [] }

acquire_returns_example : (l : RateLimiter) × (acquire full (6 ∷ 60000000 ∷ []) ≡ some l)
unfolding sleep_time turn
acquire_returns_example =
    acquire_returns full 6 60000000 [] (omega arith) (omega arith) (omega arith)

retry_waits_example :
    let row = failed_as configured 9 1 (text "busy") false waiting in
    (row.status ≡ queued)
    × (row.attempts ≡ 1)
    × (10 < 9 + 30 * second → is_claimable 10 row ≡ false)
    × (is_claimable 10 row ≡ false → outbound ≡ outbound → 10 < 9 + 900 * second)
retry_waits_example = retry_waits configured 9 10 (text "busy") waiting refl

-- A message for the provider, and three rounds in which the gateway is busy.
abbrev patient : Message
patient = record waiting { transport = sms }

abbrev busy_at : ℕ → Answers
busy_at minutes = record bad_day {
  claim_time = minutes * (60 * second);
  send_time = minutes * (60 * second);
}

abbrev busy_days : List Answers
busy_days = busy_at 1 ∷ busy_at 16 ∷ busy_at 31 ∷ []

abbrev patient-IsWaiting : IsWaiting 9 patient
patient-IsWaiting = record {
  is_sent_out = refl;
  is_queued = refl;
  is_by_provider = refl;
  is_due_then = λ at late. ground (arith, late);
}

retries_end_example :
    (row : Message) × (send_loop libraries configured busy_days (single [] patient) ≡ single [] row)
    × IsRetried libraries configured [] 3 3 patient row
retries_end_example =
    retries_end libraries configured [] 3 busy_days 9 patient refl patient-IsWaiting (omega arith) (
      omega arith,
      (text "busy", refl),
      (omega arith, (text "busy", refl), (omega arith, (text "busy", refl), tt)),
    )

prune_keeps_example :
    (select (λ m. not (is_terminal m.status)) (prune configured 10 queue).messages
      ≡ select (λ m. not (is_terminal m.status)) queue.messages)
    × IsValid (prune configured 10 queue)
    × IsReferential (prune configured 10 queue)
prune_keeps_example = prune_keeps configured 10 queue queue-IsValid tt

abbrev out : Db
out = record queue {
  messages =
      record waiting { status = sent; provider_message_id = some (text "m1"); sent_at = some 9 }
      ∷ [];
}

-- The message while it is being sent.
abbrev held : Message
held = claimed 9 waiting

settle-AreGraded_example : AreGraded libraries configured 20 held (response 503 []) (
    settle libraries configured 20 held
      (android_send libraries (response 503 []))
      (record queue { messages = held ∷ [] }))
settle-AreGraded_example =
    settle-AreGraded libraries configured 20 held (response 503 [])
      (record queue { messages = held ∷ [] }) ((λ _. refl), tt)
