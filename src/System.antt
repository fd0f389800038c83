-- ===== src/System.antt =====
-- The service as a whole: the commits of the requests (app/sms_relay/routes/) and of the loops
-- (app/sms_relay/worker.py), in any order. What a request or a loop has read before may be out of date.
use sms_relay.Common.{ℕ, ◌≡◌, Option, some, List, [], Text}
use sms_relay.Auth.{SignedRequest}
use sms_relay.Config.{Settings}
use sms_relay.External.{External}
use sms_relay.Grafana.{grafana}
use sms_relay.Inbound.{inbound_webhook}
use sms_relay.Messages.{send_message}
use sms_relay.Models.{Message, MessageStatus}
use sms_relay.Models.Db.{Db, update_message}
use sms_relay.Payload.{DeliveryRequest}
use sms_relay.Providers.{SendOutcome}
use sms_relay.Schemas.{SendRequest}
use sms_relay.Webhooks.{PostOutcome, fanout_round}
use sms_relay.Worker.{requeue_stuck, claim_next, fallen_back, published_as, settle}
use sms_relay.Worker.Upkeep.{status_iteration, prune}
pub mod Invariant
pub mod Keeping
pub mod Loops
pub mod Closing
pub mod Machine
pub mod Outside
pub mod Recorded
pub mod Refining
pub mod Replays
pub mod Rounds

module _ (x : External) (settings : Settings) where
  -- A commit of a request, of the status loop or of the fan-out.
  pub data Outer (db db' : Db) : Type 0 where
    sends :
        (r : SendRequest) (service : Text) (now : ℕ) (uuid4 : ℕ → Text) (seen : Db)
        → db' ≡ (send_message x settings r service now uuid4 seen db).1
        → Outer db db'
    alerts :
        (service : Text) (clock : ℕ → ℕ) (now : ℕ) (uuid4 : ℕ → Text) (chunks : List Text)
        (seen : Db)
        → db' ≡ (grafana x settings service clock now uuid4 chunks seen db).1
        → Outer db db'
    receives :
        (now : ℕ) (id : Text) (uuid4 : ℕ → Text) (request : SignedRequest) (seen : Db)
        → db' ≡ (inbound_webhook x settings now id uuid4 request seen db).1
        → Outer db db'
    polls :
        (fetch : Text → Option (Option MessageStatus)) (now : ℕ) (seen : Db)
        → db' ≡ status_iteration fetch now seen db
        → Outer db db'
    fans_out :
        (now : ℕ) (post : DeliveryRequest → PostOutcome) (seen : Db)
        → db' ≡ fanout_round x settings now post seen db
        → Outer db db'

  -- A commit that deletes nothing. `m` is the message as the send loop holds it since its claim.
  pub data Write (db db' : Db) : Type 0 where
    outside : Outer db db' → Write db db'
    requeues : (now : ℕ) → db' ≡ requeue_stuck settings now db → Write db db'
    claims : (now : ℕ) (m : Message) → claim_next now db ≡ some (m, db') → Write db db'
    publishes :
        (now : ℕ) (m : Message) (receipt : Text)
        → db' ≡ update_message m.id (published_as now receipt) db
        → Write db db'
    falls_back :
        (now : ℕ) (m : Message) → db' ≡ update_message m.id (fallen_back now) db → Write db db'
    settles :
        (now : ℕ) (m : Message) (outcome : SendOutcome)
        → db' ≡ settle x settings now m outcome db
        → Write db db'

  pub data Step (db db' : Db) : Type 0 where
    writes : Write db db' → Step db db'
    prunes : (now : ℕ) → db' ≡ prune settings now db → Step db db'

  -- Any number of commits.
  pub data Writes (db : Db) : Db → Type 0 where
    none_yet : Writes db db
    then_one : {d e : Db} → Writes db d → Write d e → Writes db e

  -- Any number of commits, deletions too.
  pub data Steps (db : Db) : Db → Type 0 where
    unmoved : Steps db db
    stepped : {d e : Db} → Steps db d → Step d e → Steps db e

  pub data Reachable : Db → Type 0 where
    empty : Reachable (record { messages = []; deliveries = [] })
    step : {d e : Db} → Reachable d → Step d e → Reachable e
