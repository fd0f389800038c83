-- ===== src/Tests/Running.antt =====
-- The service in progress, the rounds of its fan-out and the calls of its limiter, at concrete inputs.
use sms_relay.Common.{
  ℕ, ◌+◌, ◌*◌, ◌≡◌, refl, subst, ◌≢◌, ◌⊎◌, inl, true, false, Option, none, some, List, [], ◌∷◌,
  arith, All, Text, text, str_eq,
}
use mathlib.Core.Option.{some-injective}
use sms_relay.Common.Json.{str}
use sms_relay.Common.Int.{pos, max_one}
use sms_relay.Worker.Limiter.{new_limiter, passed}
use sms_relay.Worker.Limiter.Reference.{allowed, passed-allowed}
use sms_relay.Models.{second, MessageStatus, sent, WebhookDelivery, is_pending}
use sms_relay.Models.Db.{Db}
use sms_relay.Models.Lifecycle.{can_become}
use sms_relay.Providers.{SendOutcome, accepted}
use sms_relay.System.{polls, writes, prunes, Steps, unmoved, stepped}
use sms_relay.System
use sms_relay.System.Keeping.{IsStoredAs, HasEnded, never_lost}
use sms_relay.Worker.Upkeep.{prune}
use sms_relay.System.Machine.{Service, recorded, at_rest, moved, acts, claims, falls_back, settles}
use sms_relay.System.Recorded.{IsRecorded, IsRecorded-once}
use sms_relay.Payload.{DeliveryRequest}
use sms_relay.Config.{Subscriber, is_interested}
use sms_relay.Inbound.{store_inbound}
use sms_relay.Inbound.Settling.{IsSettled, store_inbound-IsSettled}
use sms_relay.Tests.Fixtures.{ids, incoming, libraries, configured, waiting, queue, inbox, to_hook}
use sms_relay.Webhooks.{response, broken, Round, fanout_loop}
use sms_relay.Webhooks.Draining.{windows, fanout_loop_drains}
use sms_relay.Webhooks.Draining.Attempts.{longest_delay}
use sms_relay.Webhooks.Draining.Work.{work}
use sms_relay.Worker.{claimed, claim_next, fallen_back, settle}
use sms_relay.Common.Sort.{sort}
use sms_relay.Worker.Upkeep.{status_iteration}

-- What `str(id)` makes of the provider's id in the fixtures.
abbrev taken : SendOutcome
taken = accepted (str (text "m1"))

abbrev always : Text → Option (Option MessageStatus)
always id = some (some MessageStatus.delivered)

abbrev before_send : Db
before_send = record queue { messages = fallen_back 10 (claimed 9 waiting) ∷ [] }

abbrev after_send : Db
after_send = settle libraries configured 11 (fallen_back 10 (claimed 9 waiting)) taken before_send

abbrev day_end : Service
day_end = record {
  db = status_iteration always 20 after_send after_send;
  hand = none;
  done = waiting.id ∷ [];
}

always_lawful :
    (id : Text) (s : MessageStatus) → always id ≡ some (some s) → can_become sent s ≡ true
always_lawful id s h =
    subst (λ t. can_become sent t ≡ true) (some-injective _ _ (some-injective _ _ h)) refl

IsRecorded-once_example : IsRecorded day_end
unfolding claim_next sort str_eq recorded
IsRecorded-once_example =
    IsRecorded-once libraries configured queue
      (moved
        (moved
          (moved
            (moved at_rest (
              claims 9 (claimed 9 waiting) (record queue { messages = claimed 9 waiting ∷ [] }) refl
                refl refl))
            (falls_back 10 (claimed 9 waiting) refl refl refl))
          (settles 11 (fallen_back 10 (claimed 9 waiting)) taken refl refl refl))
        (acts day_end.db (polls always 20 after_send refl) refl))
      ((((tt, tt), tt), tt), always_lawful)

-- A subscriber whose server fails, eight and sixteen minutes after the start.
abbrev refusals : List Round
refusals =
    record { now = longest_delay; post = λ q. response 500 [] }
    ∷ record { now = 2 * longest_delay; post = λ q. response 500 [] }
    ∷ []

-- A delivery with two attempts left.
abbrev tried : Db
tried = record inbox { deliveries = record to_hook { attempts = 4 } ∷ [] }

refused_apart : (q : DeliveryRequest) → response 500 [] ≢ broken
refused_apart q h = cc h

fanout_loop_drains_example :
    All
      (λ (d : WebhookDelivery). is_pending d.status ≡ false)
      (fanout_loop libraries configured refusals tried).deliveries
unfolding str_eq text work windows
fanout_loop_drains_example =
    fanout_loop_drains libraries configured refusals 0 tried
      (record {
        valid = record { messages_distinct = (tt, tt); deliveries_distinct = (tt, tt) };
        referential = (refl, tt);
      })
      ((λ _. (omega arith, refl)), tt) (omega arith, (omega arith, tt))
      (refused_apart, (refused_apart, tt)) (omega arith)

-- A claim, and the deletion of old rows after it.
abbrev two_steps :
    Steps libraries configured queue
      (prune configured 50 (record queue { messages = claimed 9 waiting ∷ [] }))
unfolding claim_next sort str_eq
two_steps =
    stepped (stepped unmoved (writes (System.claims 9 (claimed 9 waiting) refl))) (prunes 50 refl)

never_lost_example :
    IsStoredAs waiting false
      (prune configured 50 (record queue { messages = claimed 9 waiting ∷ [] })).messages
    ⊎ HasEnded libraries configured waiting two_steps
never_lost_example =
    never_lost libraries configured waiting two_steps
      (record {
        valid = record { messages_distinct = (tt, tt); deliveries_distinct = tt };
        referential = tt;
      })
      (inl refl)

-- Four calls of a limiter of two a minute: the third comes too early.
abbrev clock_readings : List ℕ
clock_readings = 1 * second ∷ 2 * second ∷ 3 * second ∷ 70 * second ∷ []

passed-allowed_example :
    passed (new_limiter (pos 2)) [] clock_readings ≡ allowed (max_one (pos 2)) [] clock_readings
passed-allowed_example =
    passed-allowed (pos 2) 0 clock_readings
      (omega arith, (omega arith, (omega arith, (omega arith, tt))))

-- A subscriber whose server answers, every eight minutes.
abbrev taken_at : ℕ → Round
taken_at k = record { now = 9 + k * longest_delay; post = λ q. response 200 [] }

abbrev answers : List Round
answers = taken_at 1 ∷ taken_at 2 ∷ taken_at 3 ∷ taken_at 4 ∷ taken_at 5 ∷ taken_at 6 ∷ []

answered : (q : DeliveryRequest) → response 200 [] ≢ broken
answered q h = cc h

abbrev no_rows : Db
no_rows = record { messages = []; deliveries = [] }

abbrev received_db : Db
received_db = (store_inbound libraries configured 9 ids incoming no_rows).1

store_inbound-IsSettled_example :
    All
      (λ (sub : Subscriber).
        is_interested sub ≡ true
        → IsSettled incoming sub (fanout_loop libraries configured answers received_db).deliveries)
      configured.subscribers
unfolding store_inbound is_interested str_eq text work windows
store_inbound-IsSettled_example =
    store_inbound-IsSettled libraries configured 9 ids incoming no_rows answers
      (record {
        valid = record { messages_distinct = tt; deliveries_distinct = tt };
        referential = tt;
      })
      tt refl
      (omega arith, (omega arith, (omega arith, (omega arith, (omega arith, (omega arith, tt))))))
      (answered, (answered, (answered, (answered, (answered, (answered, tt)))))) (omega arith)
