-- ===== src/System/Loops.antt =====
-- The rounds of send_loop as commits of the service (app/sms_relay/worker.py).
use sms_relay.Common.{refl, inl, inr, List, [], ◌∷◌, Bool-cases, Option-cases}
use sms_relay.Common.Result.{Result-cases}
use sms_relay.Config.{Settings}
use sms_relay.External.{External}
use sms_relay.Models.{Message, is_ntfy}
use sms_relay.Models.Db.{Db}
use sms_relay.System.{requeues, claims, publishes, falls_back, settles, Writes, none_yet, then_one}
use sms_relay.Worker.{
  requeue_stuck, claim_next, is_caught, Answers, dispatch, take_up, send_round, send_loop,
}

module _ (x : External) (settings : Settings) where
  dispatch-Writes :
      (a : Answers) (m : Message) (start db : Db)
      → Writes x settings start db
      → Writes x settings start (dispatch x settings a m db)
  unfolding dispatch
  dispatch-Writes a m start db w = elim (Bool-cases (is_ntfy m.transport)) [
    | inr by_sms ↦ rw (by_sms, dispatch) (then_one w (settles a.send_time m a.sending_outcome refl))
    | inl by_ntfy ↦ elim (Result-cases a.publication) [
      | inl (receipt, told) ↦
          rw (by_ntfy, told, dispatch) (then_one w (publishes a.publish_time m receipt refl))
      | inr (e, refused) ↦ elim (Bool-cases (is_caught e)) [
        | inl fell ↦
            rw (by_ntfy, refused, fell, dispatch)
              (then_one (then_one w (falls_back a.publish_time m refl))
                (settles a.send_time m a.sending_outcome refl))
        | inr out ↦ rw (by_ntfy, refused, out, dispatch) w
      ]
    ]
  ]

  send_round-Writes :
      (a : Answers) (start db : Db)
      → Writes x settings start db
      → Writes x settings start (send_round x settings a db)
  unfolding send_round take_up
  send_round-Writes a start db w =
      let ready = requeue_stuck settings a.claim_time db in
      let begun : Writes x settings start ready = then_one w (requeues a.claim_time refl) in
      elim (Option-cases (claim_next a.claim_time ready)) [
        | inl idle ↦ rw (idle, take_up) begun
        | inr ((m, db'), taken) ↦
            rw (taken, take_up)
              (dispatch-Writes a m start db' (then_one begun (claims a.claim_time m taken)))
      ]

  send_loop-continued :
      (answers : List Answers) (start db : Db)
      → Writes x settings start db
      → Writes x settings start (send_loop x settings answers db)
  unfolding send_loop
  send_loop-continued [] start db w = w
  send_loop-continued (a ∷ answers) start db w =
      send_loop-continued answers start (send_round x settings a db)
        (send_round-Writes a start db w)

  -- Whatever the outside answers, any number of rounds of the send loop leads to a database that commits
  -- of the service which delete nothing lead to.
  pub send_loop-Writes :
      (answers : List Answers) (db : Db) → Writes x settings db (send_loop x settings answers db)
  send_loop-Writes answers db = send_loop-continued answers db db none_yet
