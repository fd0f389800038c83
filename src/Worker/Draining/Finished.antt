-- ===== src/Worker/Draining/Finished.antt =====
-- What a claimed row becomes where the provider accepts it (app/sms_relay/worker.py).
use sms_relay.Common.{
  ◌+◌, ◌≡◌, sym, ap, subst, inl, inr, true, false, Option, arith, Bool-cases, update, Text, str_eq,
}
use sms_relay.Common.Json.{Json}
use sms_relay.Common.Result.{Fault, ok, raise, Result-cases}
use sms_relay.Config.{Settings}
use sms_relay.External.{External}
use sms_relay.Metrics.{is_on_its_way}
use sms_relay.Models.{Message, is_ntfy}
use sms_relay.Models.Db.{Db, update_message}
use sms_relay.Providers.{accepted, column_text}
use sms_relay.Worker.{fallen_back, published_as, sent_as, is_caught, settle, Answers, dispatch}
-- Counts of rows.
use sms_relay.Worker.Draining.Rows.{update-update}

-- What the outside answers in a round in which the provider accepts the message, and a publication
-- succeeds or fails in a way that the loop expects.
pub record IsAccepting (x : External) (a : Answers) : Type 0 where
  pub accepts :
      (id : Json) × (provider_id : Option Text) × (a.sending_outcome ≡ accepted id)
      × (column_text x id ≡ ok provider_id)
  pub publishes : (e : Fault) → a.publication ≡ raise e → is_caught e ≡ true

module _ (x : External) (settings : Settings) where
  -- A round that has claimed a row finishes it.
  abbrev pub IsFinished : Text → Db → Db → Type 0
  IsFinished id db db' =
      (g : Message → Message) × ((m : Message) → is_on_its_way (g m) ≡ false)
      × (db'.messages ≡ update (λ (m : Message). str_eq m.id id) g db.messages)

  settle-IsFinished :
      (a : Answers) (m : Message) (f : Message → Message) (db : Db)
      → IsAccepting x a
      → ((n : Message) → (f n).id ≡ n.id)
      → IsFinished m.id db
          (settle x settings a.send_time m a.sending_outcome (update_message m.id f db))
  unfolding settle is_on_its_way
  settle-IsFinished a m f db ok_round same =
      let (id, provider_id, sent_off, bound) = ok_round.accepts in
      (
        (λ (n : Message). sent_as a.send_time (m.attempts + 1) provider_id (f n)),
        (λ n. ground arith),
        rw (sent_off, bound, settle)
            (update-update (λ (n : Message). str_eq n.id m.id) f
              (sent_as a.send_time (m.attempts + 1) provider_id)
              (λ n. ap (λ i. str_eq i m.id) (same n)) db.messages),
      )

  fallen_back-IsFinished :
      (a : Answers) (m : Message) (f : Message → Message) (db : Db)
      → IsAccepting x a
      → ((n : Message) → (f n).id ≡ n.id)
      → IsFinished m.id db (
          settle x settings a.send_time m a.sending_outcome
            (update_message m.id (fallen_back a.publish_time) (update_message m.id f db)))
  fallen_back-IsFinished a m f db ok_round same =
      subst
        (λ rows.
          IsFinished m.id db
            (settle x settings a.send_time m a.sending_outcome (record db { messages = rows })))
        (sym (
          update-update (λ (n : Message). str_eq n.id m.id) f (fallen_back a.publish_time)
            (λ n. ap (λ i. str_eq i m.id) (same n)) db.messages))
        (settle-IsFinished a m (λ n. fallen_back a.publish_time (f n)) db ok_round same)

  pub dispatch-IsFinished :
      (a : Answers) (m : Message) (f : Message → Message) (db : Db)
      → IsAccepting x a
      → ((n : Message) → (f n).id ≡ n.id)
      → IsFinished m.id db (dispatch x settings a m (update_message m.id f db))
  unfolding dispatch is_on_its_way
  dispatch-IsFinished a m f db ok_round same = elim (Bool-cases (is_ntfy m.transport)) [
    | inr by_sms ↦ rw (by_sms, dispatch) (settle-IsFinished a m f db ok_round same)
    | inl by_ntfy ↦ elim (Result-cases a.publication) [
      | inl (receipt, told) ↦
          rw (by_ntfy, told, dispatch)
            (
              (λ (n : Message). published_as a.publish_time receipt (f n)),
              (λ n. ground arith),
              update-update (λ (n : Message). str_eq n.id m.id) f
                  (published_as a.publish_time receipt) (λ n. ap (λ i. str_eq i m.id) (same n))
                  db.messages,
            )
      | inr (e, refused) ↦
          rw (by_ntfy, refused, ok_round.publishes e refused, dispatch)
            (fallen_back-IsFinished a m f db ok_round same)
    ]
  ]
