-- ===== src/System/Machine.antt =====
-- The service with its send loop in progress (app/sms_relay/worker.py): the loop holds a message between
-- its commits, and the requests and the other loops commit meanwhile.
use sms_relay.Common.{ℕ, ◌≡◌, Bool, true, false, Option, none, some, List, ◌∷◌, any, Text, str_eq}
use sms_relay.Config.{Settings}
use sms_relay.External.{External}
use sms_relay.Models.{Message, MessageStatus, sent, is_ntfy}
use sms_relay.Models.Db.{Db, update_message}
use sms_relay.Models.Lifecycle.{can_become}
use sms_relay.Providers.{SendOutcome, accepted, provider_error, crashed, column_text}
use sms_relay.System.{Outer, sends, alerts, receives, polls, fans_out}
use sms_relay.Worker.{requeue_stuck, claim_next, fallen_back, published_as, settle}
use sms_relay.Worker.Upkeep.{prune}
use sms_relay.Common.Result.{ok, raise}

-- The tables, the message that the send loop has claimed and not settled, and, for the record, the ids
-- under which the loop has committed a sending, the latest first.
pub record Service : Type 0 where
  pub db : Db
  pub hand : Option Message
  pub done : List Text

abbrev pub is_done : List Text → Text → Bool
is_done done id = any (str_eq id) done

module _ (x : External) (settings : Settings) where
  -- The commit of a round that had no exception, for the record.
  unfoldable pub recorded : SendOutcome → Text → List Text → List Text
  unfolding column_text
  recorded (provider_error message permanent) id done = done
  recorded crashed id done = done
  recorded (accepted told) id done = elim (column_text x told) [
    | raise e ↦ done
    | ok provider_id ↦ id ∷ done
  ]

  -- One commit, of the send loop at the place where it stands or of anything beside it.
  pub data Move (s s' : Service) : Type 0 where
    acts : (db' : Db) → Outer x settings s.db db' → s' ≡ record s { db = db' } → Move s s'
    prunes : (now : ℕ) → s' ≡ record s { db = prune settings now s.db } → Move s s'
    requeues :
        (now : ℕ)
        → s.hand ≡ none
        → s' ≡ record s { db = requeue_stuck settings now s.db }
        → Move s s'
    claims :
        (now : ℕ) (m : Message) (db' : Db)
        → s.hand ≡ none
        → claim_next now s.db ≡ some (m, db')
        → s' ≡ record s { db = db'; hand = some m }
        → Move s s'
    publishes :
        (now : ℕ) (m : Message) (receipt : Text)
        → s.hand ≡ some m
        → is_ntfy m.transport ≡ true
        → s' ≡ record {
          db = update_message m.id (published_as now receipt) s.db;
          hand = none;
          done = m.id ∷ s.done;
        }
        → Move s s'
    falls_back :
        (now : ℕ) (m : Message)
        → s.hand ≡ some m
        → is_ntfy m.transport ≡ true
        → s' ≡ record s {
          db = update_message m.id (fallen_back now) s.db;
          hand = some (fallen_back now m);
        }
        → Move s s'
    settles :
        (now : ℕ) (m : Message) (outcome : SendOutcome)
        → s.hand ≡ some m
        → is_ntfy m.transport ≡ false
        → s' ≡ record {
          db = settle x settings now m outcome s.db;
          hand = none;
          done = recorded outcome m.id s.done;
        }
        → Move s s'
    -- An exception out of the round, or a restart of the process.
    drops : s' ≡ record s { hand = none } → Move s s'

  -- Any number of commits.
  pub data Runs (s : Service) : Service → Type 0 where
    at_rest : Runs s s
    moved : {t u : Service} → Runs s t → Move t u → Runs s u

  -- What a commit of the outside may count on: uuid4 does not repeat the id of a message that was sent,
  -- and a provider tells of a sent message only what may become of it.
  abbrev pub IsFair : {db db' : Db} → List Text → Outer x settings db db' → Type 0
  IsFair done (sends r service now uuid4 seen e) = (n : ℕ) → is_done done (uuid4 n) ≡ false
  IsFair done (alerts service clock now uuid4 chunks seen e) =
      (n : ℕ) → is_done done (uuid4 n) ≡ false
  IsFair done (receives now id uuid4 request seen e) = Unit
  IsFair done (polls fetch now seen e) =
      (id : Text) (s : MessageStatus) → fetch id ≡ some (some s) → can_become sent s ≡ true
  IsFair done (fans_out now post seen e) = Unit

  abbrev pub IsFairMove : {s s' : Service} → Move s s' → Type 0
  IsFairMove {s} (acts db' w e) = IsFair s.done w
  IsFairMove _ = Unit

  abbrev pub AreFair : {s s' : Service} → Runs s s' → Type 0
  AreFair at_rest = Unit
  AreFair (moved runs m) = AreFair runs × IsFairMove m
