-- ===== src/System/Outside.antt =====
-- What the commits of requests, the status loop and the fan-out leave of the messages that were sent
-- (app/sms_relay/routes/, app/sms_relay/worker.py).
use sms_relay.Common.{
  ℕ, ◌≡◌, refl, sym, subst, inl, inr, false, List, Bool-cases, Option-cases, All, Text,
}
use sms_relay.Config.{Settings}
use sms_relay.External.{External}
use sms_relay.Grafana.Appending.{grafana-cases}
use sms_relay.Inbound.Changes.{inbound_webhook-allowed}
use sms_relay.Messages.{send_message}
use sms_relay.Messages.Appending.{send_message-Appends}
use sms_relay.Models.Db.{Db}
use sms_relay.Payload.{DeliveryRequest}
use sms_relay.Schemas.{SendRequest}
use sms_relay.System.{Outer, sends, alerts, receives, polls, fans_out}
use sms_relay.System.Closing.{
  IsClosed, AreClosed, AreClosed-append, AreClosed-allowed, status_iteration-AreClosed,
}
use sms_relay.System.Machine.{is_done, IsFair}
use sms_relay.Webhooks.{PostOutcome, fanout_round, deliver_batch, due_deliveries, are_there}

module _ (x : External) (settings : Settings) where
  fanout_round_messages :
      (now : ℕ) (post : DeliveryRequest → PostOutcome) (seen db : Db)
      → (fanout_round x settings now post seen db).messages ≡ db.messages
  unfolding fanout_round
  fanout_round_messages now post seen db =
      let batch = due_deliveries now seen.deliveries in
      elim (Bool-cases (are_there batch db.deliveries)) [
        | inr lost ↦ rw (lost, fanout_round) refl
        | inl there ↦
            elim (Option-cases
              (deliver_batch x settings now post seen.messages batch db.deliveries)) [
                | inl undone ↦ rw (there, undone, fanout_round) refl
                | inr (rows, delivered) ↦ rw (there, delivered, fanout_round) refl
              ]
      ]

  send_message-AreClosed :
      (done : List Text) (r : SendRequest) (service : Text) (now : ℕ) (uuid4 : ℕ → Text)
      (seen db : Db)
      → ((n : ℕ) → is_done done (uuid4 n) ≡ false)
      → AreClosed done db
      → AreClosed done (send_message x settings r service now uuid4 seen db).1
  send_message-AreClosed done r service now uuid4 seen db fair h =
      AreClosed-append done uuid4 db _ fair
        (send_message-Appends x settings r service now uuid4 seen db) h

  pub Outer-AreClosed :
      (done : List Text) {db db' : Db} (w : Outer x settings db db')
      → IsFair x settings done w
      → AreClosed done db
      → AreClosed done db'
  Outer-AreClosed done {db} (sends r service now uuid4 seen e) fair h =
      subst (AreClosed done) (sym e)
        (send_message-AreClosed done r service now uuid4 seen db fair h)
  Outer-AreClosed done {db} (alerts service clock now uuid4 chunks seen e) fair h =
      subst (AreClosed done) (sym e)
        (elim (grafana-cases x settings service clock now uuid4 chunks seen db) [
          | inl same ↦ subst (AreClosed done) (sym same) h
          | inr (r, sent) ↦
              subst (AreClosed done) (sym sent)
                (send_message-AreClosed done r service now uuid4 seen db fair h)
        ])
  Outer-AreClosed done {db} (receives now id uuid4 request seen e) fair h =
      subst (AreClosed done) (sym e) (
        inbound_webhook-allowed (λ a b. AreClosed done a → AreClosed done b)
          (AreClosed-allowed done) x settings now id uuid4 request seen db h)
  Outer-AreClosed done {db} (polls fetch now seen e) fair h =
      subst (AreClosed done) (sym e) (status_iteration-AreClosed done fetch now seen db fair h)
  Outer-AreClosed done {db} (fans_out now post seen e) fair h =
      subst (AreClosed done) (sym e)
        (subst (All (IsClosed done)) (sym (fanout_round_messages now post seen db)) h)
