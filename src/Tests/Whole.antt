-- ===== src/Tests/Whole.antt =====
-- The service as a whole, its start, its health and its other outputs, at concrete inputs.
use sms_relay.Common.{
  ◌≡◌, refl, sym, true, false, none, some, List, [], ◌∷◌, arith, All, Text, text, str_eq, strip,
  lower,
}
use sms_relay.Common.Result.{ok, traverse}
use sms_relay.Messages.{send_message}
use sms_relay.Metrics.{is_on_its_way}
use sms_relay.Models.{Message}
use sms_relay.Models.Db.Constraints.{IsSound}
use sms_relay.Notifications.{topic_for}
use sms_relay.Phone.{normalize, normalize_json}
use sms_relay.Schemas.{message_out}
use sms_relay.Startup.{Table, has_column, init_db}
use sms_relay.Startup.Upgrades.{Extends, init_db_upgrades}
use sms_relay.System.{outside, sends, claims, none_yet, then_one, empty, step, writes}
use sms_relay.System.Invariant.{Reachable-IsSound}
use sms_relay.System.Machine.{Runs}
use sms_relay.System.Rounds.{send_loop-Runs}
use sms_relay.System.Replays.{later_replay}
use sms_relay.Tests.Fixtures.{libraries, configured, ids, request, empty_db, waiting, queue, inbox}
use sms_relay.Common.Sort.{sort}
use sms_relay.Common.Json.{str}
use sms_relay.Common.Result.{Fault, Result, raise, transport_error}
use sms_relay.Providers.{accepted, column_text}
use sms_relay.Worker.Draining.{send_loop_drains}
use sms_relay.Worker.{Answers, send_loop, is_caught, claim_next, claimed}

later_replay_example :
    (n n' : Message) × (message_out waiting ∷ [] ≡ message_out n ∷ [])
    × (n'.id ≡ n.id)
    × (send_message libraries configured request
          (text "grafana")
          50
          ids
          (record queue { messages = claimed 9 waiting ∷ [] })
          inbox
        ≡ (ok (message_out n' ∷ []), inbox))
unfolding text send_message traverse normalize strip topic_for str_eq normalize_json claim_next sort
later_replay_example =
    later_replay libraries configured request request (text "grafana") 7 50 ids ids empty_db queue
      (record queue { messages = claimed 9 waiting ∷ [] }) inbox
      (Reachable-IsSound libraries configured empty) refl refl
      (then_one none_yet (claims 9 (claimed 9 waiting) refl)) refl refl

Reachable-IsSound_example : IsSound queue
unfolding send_message traverse normalize strip text topic_for str_eq normalize_json
Reachable-IsSound_example =
    Reachable-IsSound libraries configured
      (step empty (writes (outside (sends request (text "grafana") 7 ids empty_db refl))))

-- The messages table of a version without transports.
abbrev old_table : Table
old_table = record {
  columns = text "id" ∷ text "body" ∷ [];
  rows = ((text "id", some (text "a")) ∷ (text "body", some (text "hi")) ∷ []) ∷ [];
}

init_db_upgrades_example :
    (u : Table) × (init_db old_table (some old_table) ≡ ok u)
    × Extends old_table u
    × (has_column (text "transport") u.columns ≡ true)
    × (has_column (text "notification_topic") u.columns ≡ true)
    × (has_column (text "notification_priority") u.columns ≡ true)
    × (init_db old_table (some u) ≡ ok u)
unfolding text lower
init_db_upgrades_example = init_db_upgrades old_table (some old_table) (refl, (refl, tt))

-- A round in which ntfy fails and the provider accepts.
abbrev good_day : Answers
good_day = record {
  claim_time = 8;
  publish_time = 9;
  publication = raise transport_error;
  send_time = 10;
  sending_outcome = accepted (str (text "m1"));
}

raise_injective : (e f : Fault) → ◌≡◌ {A = Result Text} (raise e) (raise f) → e ≡ f
raise_injective e f h = cc

expected : (e : Fault) → good_day.publication ≡ raise e → is_caught e ≡ true
expected e told = rw (sym (raise_injective transport_error e told)) refl

send_loop_drains_example :
    All
      (λ m. is_on_its_way m ≡ false)
      (send_loop libraries configured (good_day ∷ []) queue).messages
unfolding column_text text is_on_its_way
send_loop_drains_example =
    send_loop_drains libraries configured (good_day ∷ []) 8 queue ((λ _. refl), tt)
      (
        omega arith,
        record {
          accepts = (str (text "m1"), some (text "m1"), refl, refl);
          publishes = λ e told. expected e told;
        },
        tt,
      )
      (omega arith)

send_loop-Runs_example :
    (done' : List Text) × Runs libraries configured
      (record { db = queue; hand = none; done = [] })
      (record {
        db = send_loop libraries configured (good_day ∷ []) queue;
        hand = none;
        done = done';
      })
send_loop-Runs_example = send_loop-Runs libraries configured (good_day ∷ []) queue []
