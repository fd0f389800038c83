-- ===== src/Webhooks/Keys.antt =====
-- A round of the fan-out leaves the keys of the rows alone (app/sms_relay/webhooks.py and fanout_loop
-- of app/sms_relay/worker.py).
use sms_relay.Common.{
  ℕ, ◌≡◌, refl, subst, inl, inr, true, some, List, [], ◌∷◌, Bool-cases, Option-cases, All,
  Pointwise, Pointwise-refl, Pointwise-trans, Pointwise-update, str_eq,
}
use mathlib.Core.Option.{some-injective}
use sms_relay.Config.{Settings}
use sms_relay.External.{External}
use sms_relay.Models.{Message, WebhookDelivery}
use sms_relay.Models.Db.{Db}
use sms_relay.Models.Lifecycle.{IsSameMessage, IsSameMessage-refl}
use sms_relay.Models.Db.Keys.{
  IsSameDelivery, IsSameDelivery-refl, IsSameDelivery-trans, Keyed, Keyed-refl,
}
use sms_relay.Payload.{DeliveryRequest}
use sms_relay.Webhooks.{
  PostOutcome, deliver_row, due_deliveries, write_back, deliver_batch, are_there, fanout_round,
}

write_back-keyed :
    (d : WebhookDelivery) (rows : List WebhookDelivery)
    → Pointwise IsSameDelivery rows (write_back d rows)
write_back-keyed d rows =
    Pointwise-update IsSameDelivery IsSameDelivery-refl _ _ rows (everywhere rows)
  where
    everywhere :
        (rs : List WebhookDelivery)
        → All
            (λ (e : WebhookDelivery).
              str_eq e.id d.id ≡ true
              → IsSameDelivery e (record e {
                status = d.status;
                attempts = d.attempts;
                next_attempt_at = d.next_attempt_at;
                response_code = d.response_code;
                error = d.error;
                updated_at = d.updated_at;
              }))
            rs
    everywhere [] = tt
    everywhere (e ∷ rs) =
        ((λ _. record { id = refl; message_id = refl; subscriber = refl }), everywhere rs)

module _ (x : External) (settings : Settings) (now : ℕ) (post : DeliveryRequest → PostOutcome) where
  deliver_batch-keyed :
      (messages : List Message) (batch rows : List WebhookDelivery) {rows' : List WebhookDelivery}
      → deliver_batch x settings now post messages batch rows ≡ some rows'
      → Pointwise IsSameDelivery rows rows'
  unfolding deliver_batch
  deliver_batch-keyed messages [] rows e =
      subst (Pointwise IsSameDelivery rows) (some-injective _ _ e)
        (Pointwise-refl IsSameDelivery IsSameDelivery-refl rows)
  deliver_batch-keyed messages (d ∷ batch) rows {rows'} e =
      elim (Option-cases (deliver_row x settings now post messages d)) [
        | inl failed ↦ absurd (cc (rw (failed, deliver_batch) at e))
        | inr (d', done) ↦
            let stamped : WebhookDelivery = record d' { updated_at = now } in
            Pointwise-trans IsSameDelivery IsSameDelivery-trans rows (write_back stamped rows) rows'
              (write_back-keyed stamped rows)
              (deliver_batch-keyed messages batch (write_back stamped rows)
                (rw (done, deliver_batch) at e))
      ]

  pub fanout_round-Keyed : (seen db : Db) → Keyed db (fanout_round x settings now post seen db)
  unfolding fanout_round
  fanout_round-Keyed seen db =
      let batch = due_deliveries now seen.deliveries in
      elim (Bool-cases (are_there batch db.deliveries)) [
        | inr lost ↦ rw (lost, fanout_round) (Keyed-refl db)
        | inl there ↦
            elim (Option-cases
              (deliver_batch x settings now post seen.messages batch db.deliveries)) [
                | inl undone ↦ rw (there, undone, fanout_round) (Keyed-refl db)
                | inr (rows, done) ↦
                    rw (there, done, fanout_round)
                      (
                        Pointwise-refl IsSameMessage IsSameMessage-refl db.messages,
                        deliver_batch-keyed seen.messages batch db.deliveries done,
                      )
              ]
      ]
