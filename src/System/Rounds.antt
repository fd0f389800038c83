-- ===== src/System/Rounds.antt =====
-- The rounds of `send_loop` (app/sms_relay/worker.py), as commits of the service in progress.
use sms_relay.Common.{
  ◌≡◌, refl, inl, inr, false, none, some, List, [], ◌∷◌, Bool-cases, Option-cases, Text,
}
use sms_relay.Common.Result.{Result-cases}
use sms_relay.Config.{Settings}
use sms_relay.External.{External}
use sms_relay.Models.{Message, is_ntfy}
use sms_relay.Models.Db.{Db, update_message}
use sms_relay.System.Machine.{
  Service, recorded, requeues, claims, publishes, falls_back, settles, drops, Runs, at_rest, moved,
}
use sms_relay.Worker.{
  Answers, requeue_stuck, claim_next, fallen_back, settle, dispatch, take_up, send_round, send_loop,
  is_caught,
}

module _ (x : External) (settings : Settings) (start : Service) where
  -- The service comes to a database with nothing in the hand of the send loop.
  abbrev AtRest : Db → Type 0
  AtRest db =
      (done : List Text) × Runs x settings start (record { db = db; hand = none; done = done })

  -- The service comes to a database where the send loop holds a message.
  abbrev Holding : Message → Db → Type 0
  Holding m db =
      (done : List Text) × Runs x settings start (record { db = db; hand = some m; done = done })

  settle-AtRest :
      (a : Answers) (m : Message) (db : Db)
      → is_ntfy m.transport ≡ false
      → Holding m db
      → AtRest (settle x settings a.send_time m a.sending_outcome db)
  settle-AtRest a m db by_sms (done, runs) = (
    recorded x settings a.sending_outcome m.id done,
    moved runs (settles a.send_time m a.sending_outcome refl by_sms refl),
  )

  dispatch-AtRest :
      (a : Answers) (m : Message) (db : Db) → Holding m db → AtRest (dispatch x settings a m db)
  unfolding dispatch settle
  dispatch-AtRest a m db (done, runs) = elim (Bool-cases (is_ntfy m.transport)) [
    | inr by_sms ↦ rw (by_sms, dispatch) (settle-AtRest a m db by_sms (done, runs))
    | inl by_ntfy ↦ elim (Result-cases a.publication) [
      | inl (receipt, told) ↦
          rw (by_ntfy, told, dispatch)
            (m.id ∷ done, moved runs (publishes a.publish_time m receipt refl by_ntfy refl))
      | inr (e, refused) ↦ elim (Bool-cases (is_caught e)) [
        | inl fell ↦
            rw (by_ntfy, refused, fell, dispatch)
              (settle-AtRest a (fallen_back a.publish_time m)
                (update_message m.id (fallen_back a.publish_time) db) refl
                (done, moved runs (falls_back a.publish_time m refl by_ntfy refl)))
        | inr out ↦ rw (by_ntfy, refused, out, dispatch) (done, moved runs (drops refl))
      ]
    ]
  ]

  send_round-AtRest : (a : Answers) (db : Db) → AtRest db → AtRest (send_round x settings a db)
  unfolding send_round take_up
  send_round-AtRest a db (done, runs) =
      let ready = requeue_stuck settings a.claim_time db in
      let begun = moved runs (requeues a.claim_time refl refl) in
      elim (Option-cases (claim_next a.claim_time ready)) [
        | inl idle ↦ rw (idle, take_up) (done, begun)
        | inr ((m, db'), taken) ↦
            rw (taken, take_up)
              (dispatch-AtRest a m db'
                (done, moved begun (claims a.claim_time m db' refl taken refl)))
      ]

  send_loop-AtRest :
      (answers : List Answers) (db : Db) → AtRest db → AtRest (send_loop x settings answers db)
  unfolding send_loop
  send_loop-AtRest [] db rest = rest
  send_loop-AtRest (a ∷ answers) db rest =
      send_loop-AtRest answers (send_round x settings a db) (send_round-AtRest a db rest)

-- Whatever the outside answers, the rounds of the send loop with no other commit in their course are
-- commits of the service in progress, which end with nothing in the loop's hand.
pub send_loop-Runs :
    (x : External) (settings : Settings) (answers : List Answers) (db : Db) (done : List Text)
    → (done' : List Text) × Runs x settings
        (record { db = db; hand = none; done = done })
        (record { db = send_loop x settings answers db; hand = none; done = done' })
send_loop-Runs x settings answers db done =
    send_loop-AtRest x settings (record { db = db; hand = none; done = done }) answers db
      (done, at_rest)
