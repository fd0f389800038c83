-- ===== src/Worker/Keys.antt =====
-- The rounds of the send loop and of the status loop leave the keys of the rows alone
-- (app/sms_relay/worker.py).
use sms_relay.Common.{
  ℕ, ◌+◌, inl, inr, Bool, Option, List, [], ◌∷◌, arith, Bool-cases, Option-cases, select, head?,
  Text,
}
use sms_relay.Common.Result.{Result-cases}
use sms_relay.Config.{Settings}
use sms_relay.External.{External}
use sms_relay.Models.{Message, MessageStatus, status_eq, is_ntfy}
use sms_relay.Models.Db.{Db, update_message}
use sms_relay.Models.Lifecycle.{IsSameMessage}
use sms_relay.Models.Db.Keys.{Keyed, Keyed-refl, Keyed-trans, Keyed-update}
use sms_relay.Providers.{SendOutcome, accepted, provider_error, crashed, column_text}
use sms_relay.Worker.{
  Answers, is_stuck, requeued, requeue_stuck, is_claimable, older, claimed, claim_next, fallen_back,
  published_as, sent_as, failed_as, is_caught, settle, dispatch, take_up, send_round,
}
use sms_relay.Worker.Upkeep.{
  id_of, is_chased, poll_raises, told_of, status_iteration, apply_statuses, status_round,
}
use sms_relay.Common.Sort.{sort}

failed_as-IsSameMessage :
    (settings : Settings) (now attempts : ℕ) (message : Text) (permanent : Bool) (m : Message)
    → IsSameMessage m (failed_as settings now attempts message permanent m)
unfolding failed_as
failed_as-IsSameMessage settings now attempts message permanent m = ground arith

module _ (x : External) (settings : Settings) where
  pub settle-Keyed :
      (now : ℕ) (m : Message) (outcome : SendOutcome) (db : Db)
      → Keyed db (settle x settings now m outcome db)
  unfolding settle
  settle-Keyed now m (provider_error message permanent) db =
      Keyed-update _ (failed_as settings now (m.attempts + 1) message permanent) db
        (failed_as-IsSameMessage settings now (m.attempts + 1) message permanent)
  settle-Keyed now m crashed db = Keyed-refl db
  settle-Keyed now m (accepted id) db = elim (Result-cases (column_text x id)) [
    | inr (e, refused) ↦ rw (refused, settle) (Keyed-refl db)
    | inl (provider_id, bound) ↦
        rw (bound, settle)
          (Keyed-update _ (sent_as now (m.attempts + 1) provider_id) db (λ k. ground arith))
  ]

  dispatch-Keyed : (a : Answers) (m : Message) (db : Db) → Keyed db (dispatch x settings a m db)
  unfolding dispatch
  dispatch-Keyed a m db = elim (Bool-cases (is_ntfy m.transport)) [
    | inr by_sms ↦ rw (by_sms, dispatch) (settle-Keyed a.send_time m a.sending_outcome db)
    | inl by_ntfy ↦ elim (Result-cases a.publication) [
      | inl (receipt, taken) ↦
          rw (by_ntfy, taken, dispatch)
            (Keyed-update _ (published_as a.publish_time receipt) db (λ k. ground arith))
      | inr (e, failed) ↦ elim (Bool-cases (is_caught e)) [
        | inr other ↦ rw (by_ntfy, failed, other, dispatch) (Keyed-refl db)
        | inl caught ↦
            let switched = update_message m.id (fallen_back a.publish_time) db in
            rw (by_ntfy, failed, caught, dispatch)
              (Keyed-trans db switched _
                (Keyed-update _ (fallen_back a.publish_time) db (λ k. ground arith))
                (settle-Keyed a.send_time m a.sending_outcome switched))
      ]
    ]
  ]

  take_up-Keyed :
      (a : Answers) (db : Db) → Keyed db (take_up x settings a db (claim_next a.claim_time db))
  unfolding take_up claim_next
  take_up-Keyed a db =
      elim (Option-cases (head? (sort older (select (is_claimable a.claim_time) db.messages)))) [
        | inl idle ↦ rw (idle, claim_next, take_up) (Keyed-refl db)
        | inr (m, due) ↦
            let marked = update_message m.id (claimed a.claim_time) db in
            rw (due, claim_next, take_up)
              (Keyed-trans db marked _
                (Keyed-update _ (claimed a.claim_time) db (λ k. ground arith))
                (dispatch-Keyed a (claimed a.claim_time m) marked))
      ]

  pub send_round-Keyed : (a : Answers) (db : Db) → Keyed db (send_round x settings a db)
  unfolding send_round requeue_stuck
  send_round-Keyed a db =
      let ready = requeue_stuck settings a.claim_time db in
      Keyed-trans db ready _
        (Keyed-update (is_stuck settings a.claim_time) (requeued a.claim_time) db
          (λ k. ground arith))
        (take_up-Keyed a ready)

module _ (fetch : Text → Option MessageStatus) (now : ℕ) where
  apply_statuses-Keyed :
      (pending : List Message) (db : Db) → Keyed db (apply_statuses fetch now pending db)
  unfolding apply_statuses
  apply_statuses-Keyed [] db = Keyed-refl db
  apply_statuses-Keyed (m ∷ pending) db = elim (Option-cases (fetch (id_of m))) [
    | inl nothing ↦ rw (nothing, apply_statuses) (apply_statuses-Keyed pending db)
    | inr (s, told) ↦ elim (Bool-cases (status_eq s m.status)) [
      | inl same ↦ rw (told, same, apply_statuses) (apply_statuses-Keyed pending db)
      | inr new ↦
          let mark : Message → Message = λ row. record row { status = s; updated_at = now } in
          rw (told, new, apply_statuses)
            (Keyed-trans db (update_message m.id mark db) _
              (Keyed-update _ mark db (λ k. ground arith))
              (apply_statuses-Keyed pending (update_message m.id mark db)))
    ]
  ]

  status_round-Keyed : (seen db : Db) → Keyed db (status_round fetch now seen db)
  unfolding status_round
  status_round-Keyed seen db = apply_statuses-Keyed (select (is_chased now) seen.messages) db

pub status_iteration-Keyed :
    (fetch : Text → Option (Option MessageStatus)) (now : ℕ) (seen db : Db)
    → Keyed db (status_iteration fetch now seen db)
unfolding status_iteration
status_iteration-Keyed fetch now seen db =
    elim (Bool-cases (poll_raises fetch (select (is_chased now) seen.messages))) [
      | inl broken ↦ rw (broken, status_iteration) (Keyed-refl db)
      | inr told ↦
          rw (told, status_iteration) (status_round-Keyed (λ id. told_of (fetch id)) now seen db)
    ]
