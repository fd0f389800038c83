-- ===== src/Tests/Shutdown.antt =====
-- The start of the process, its settings and its end, at concrete inputs.
use sms_relay.Common.{
  ◌*◌, ◌≡◌, refl, true, false, none, some, List, [], ◌∷◌, arith, All, Any, text, str_eq, strip,
  decimal,
}
use sms_relay.Application.{
  App, LoopTask, send_task, TaskState, was_cancelled, Rests, loop_rests, start_up, shut_down,
}
use sms_relay.Application.Stranding.{shutdown_strands}
use sms_relay.Common.Int.{pos}
use sms_relay.Common.Result.{ok}
use sms_relay.Config.{Environ, env_int}
use sms_relay.Config.Numbers.{env_int_reads}
use sms_relay.Models.{Message, sending, second}
use sms_relay.Providers.{crashed}
use sms_relay.Models.Db.{Db}
use sms_relay.Startup.{Table}
use sms_relay.Tests.Fixtures.{libraries, configured, waiting, queue}
use sms_relay.Worker.{claimed, claim_next, Answers, send_loop}
use sms_relay.Common.Sort.{sort}
use sms_relay.Worker.Limiter.{RateLimiter, turn}

abbrev environ : Environ
environ = (text "SMS_RELAY_MAX_ATTEMPTS", text "12") ∷ []

env_int_reads_example : env_int environ (text "SMS_RELAY_MAX_ATTEMPTS") (pos 5) ≡ pos 12
unfolding str_eq text decimal
env_int_reads_example = env_int_reads environ (text "SMS_RELAY_MAX_ATTEMPTS") (pos 5) 12 refl

abbrev idle_app : App
idle_app = record { provider = none; serves_metrics = false; stop = false; tasks = [] }

abbrev fresh_table : Table
fresh_table = record {
  columns =
      text "id" ∷ text "transport" ∷ text "notification_topic" ∷ text "notification_priority" ∷ [];
  rows = [];
}

abbrev started : App
started = (start_up configured [] (λ _. true) fresh_table none idle_app).1

-- Two messages a minute, both passed in the last seconds.
abbrev full : RateLimiter
full = record { per_minute = 2; sent = 5 * second ∷ 6 * second ∷ [] }

abbrev others : Rests
others _ = some 0

abbrev rests : Rests
rests = loop_rests full (7 * second) (some second) (20 * second) others

abbrev taken_db : Db
taken_db = record queue { messages = claimed (7 * second) waiting ∷ [] }

-- A round of the next send loop.
abbrev restarted : List Answers
restarted =
    record {
      claim_time = 200 * second;
      publish_time = 201 * second;
      publication = ok (text "r1");
      send_time = 202 * second;
      sending_outcome = crashed;
    }
    ∷ []

shutdown_strands_example :
    Any
      (λ (p : LoopTask × TaskState). p ≡ (send_task, was_cancelled))
      (shut_down rests (ok tt) started).1.tasks
    × All
        (λ (k : Message).
          str_eq k.id waiting.id ≡ true → (k.status ≡ sending) × (k.updated_at ≡ 7 * second))
        (send_loop libraries configured restarted taken_db).messages
unfolding start_up str_eq text strip claim_next sort turn
shutdown_strands_example =
    shutdown_strands libraries configured [] (λ _. true) fresh_table none idle_app (7 * second)
      (claimed (7 * second) waiting) queue taken_db full (7 * second) (5 * second) (6 * second ∷ [])
      (some second) (20 * second) others (ok tt) restarted refl refl refl refl (omega arith)
      (refl, tt)
