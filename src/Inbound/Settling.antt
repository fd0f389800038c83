-- ===== src/Inbound/Settling.antt =====
-- A received message, from its insertion (app/sms_relay/routes/inbound.py) to the end of its deliveries
-- (app/sms_relay/webhooks.py, app/sms_relay/worker.py).
use sms_relay.Common.{
  ℕ, suc, ◌+◌, ◌≤◌, ◌≡◌, refl, sym, ap, ◌∙◌, subst, inl, inr, true, false, ◌&&◌, not, List, [], ◌∷◌,
  ◌++◌, arith, Bool-cases, &&-eq-true, All, All-append, Any, Pointwise, Text, str_eq, str_eq_iff,
}
use sms_relay.Common.Result.{Result, ok}
use sms_relay.Config.{Settings, Subscriber, is_interested}
use sms_relay.External.{External}
use sms_relay.Inbound.{InboundReply, store_inbound}
use sms_relay.Inbound.Duplicates.{store_inbound-cases}
use sms_relay.Inbound.Keeping.{enqueue_fanout_inserts, store_inbound-KeepsSound}
use sms_relay.Models.{Message, WebhookDelivery, is_pending}
use sms_relay.Models.Db.{Db, delivery_clash}
use sms_relay.Models.Db.Constraints.{IsSound, insert_all-append}
use sms_relay.Models.Db.Keys.{IsSameDelivery, Keyed, Keyed-refl, Keyed-trans}
use sms_relay.Webhooks.{Round, has_delivery, fanout_rows, fanout_round, fanout_loop}
use sms_relay.Webhooks.Draining.{IsSane, AreLater, windows, fanout_loop_drains}
use sms_relay.Webhooks.Draining.Attempts.{longest_delay}
use sms_relay.Webhooks.Draining.Work.{IsReadyBy, work}
use sms_relay.Webhooks.Fanout.{Covers, fanout_rows-Covers}
use sms_relay.Webhooks.Keys.{fanout_round-Keyed}

module _ (x : External) (settings : Settings) where
  fanout_loop-Keyed : (rounds : List Round) (db : Db) → Keyed db (fanout_loop x settings rounds db)
  unfolding fanout_loop
  fanout_loop-Keyed [] db = Keyed-refl db
  fanout_loop-Keyed (r ∷ rounds) db =
      let db' = fanout_round x settings r.now r.post db db in
      Keyed-trans db db' (fanout_loop x settings rounds db')
        (fanout_round-Keyed x settings r.now r.post db db) (fanout_loop-Keyed rounds db')

has_delivery-Pointwise :
    (message_id name : Text) (ds es : List WebhookDelivery)
    → Pointwise IsSameDelivery ds es
    → has_delivery ds message_id name ≡ has_delivery es message_id name
has_delivery-Pointwise message_id name [] [] h = refl
has_delivery-Pointwise message_id name [] (e ∷ es) h = elim h [ ]
has_delivery-Pointwise message_id name (d ∷ ds) [] h = elim h [ ]
has_delivery-Pointwise message_id name (d ∷ ds) (e ∷ es) h =
    rw (h.0.message_id, h.0.subscriber, has_delivery-Pointwise message_id name ds es h.1) refl

-- New deliveries are ready.
fanout_rows-AreReady :
    (now : ℕ) (uuid4 : ℕ → Text) (n : ℕ) (existing : List WebhookDelivery) (m : Message)
    (subs : List Subscriber)
    → All (IsReadyBy (now + longest_delay)) (fanout_rows now uuid4 n existing m subs)
unfolding fanout_rows
fanout_rows-AreReady now uuid4 n existing m [] = tt
fanout_rows-AreReady now uuid4 n existing m (sub ∷ subs) =
    let rest = fanout_rows-AreReady now uuid4 (suc n) existing m subs in
    elim (Bool-cases (is_interested sub && not (has_delivery existing m.id sub.name))) [
      | inl added ↦ rw added ((λ _. (omega arith, ground arith)), rest)
      | inr left_out ↦ rw left_out rest
    ]

-- The subscriber's delivery of the message is delivered, given up or cancelled.
abbrev pub IsSettled : Message → Subscriber → List WebhookDelivery → Type 0
IsSettled m sub = Any (λ (d : WebhookDelivery).
    (d.message_id ≡ m.id) × (d.subscriber ≡ sub.name) × (is_pending d.status ≡ false))

IsSettled-of :
    (m : Message) (sub : Subscriber) (ds : List WebhookDelivery)
    → has_delivery ds m.id sub.name ≡ true
    → All (λ (d : WebhookDelivery). is_pending d.status ≡ false) ds
    → IsSettled m sub ds
IsSettled-of m sub [] h over = absurd (cc h)
IsSettled-of m sub (d ∷ ds) h over =
    elim (Bool-cases (str_eq d.message_id m.id && str_eq d.subscriber sub.name)) [
      | inl hit ↦
          let (message, subscriber) = &&-eq-true _ _ hit in
          inl (
            (str_eq_iff d.message_id m.id).0 message,
            (str_eq_iff d.subscriber sub.name).0 subscriber,
            over.0,
          )
      | inr miss ↦ inr (IsSettled-of m sub ds (rw miss at h) over.1)
    ]

module _ (x : External) (settings : Settings) (now : ℕ) (uuid4 : ℕ → Text) (m : Message) where
  -- What an insertion that succeeded leaves to the fan-out.
  record IsHandedOver (db' : Db) : Type 0 where
    ready : All (IsReadyBy (now + longest_delay)) db'.deliveries
    covers : Covers m db'.deliveries settings.subscribers

  store_inbound-IsHandedOver :
      (db : Db) {db' : Db} {reply : InboundReply}
      → All (IsReadyBy (now + longest_delay)) db.deliveries
      → store_inbound x settings now uuid4 m db ≡ (ok reply, db')
      → IsHandedOver db'
  store_inbound-IsHandedOver db {db'} ready h =
      elim (store_inbound-cases x settings now uuid4 m db) [
        | inl (e, failed) ↦
            absurd (cc (ap (λ (p : Result InboundReply × Db). p.0) (sym failed ∙ h)))
        | inr (n, rows, stored, fits, fanned, done) ↦
            let new = fanout_rows now uuid4 0 db.deliveries m settings.subscribers in
            let whole : stored ≡ db.deliveries ++ new =
              insert_all-append delivery_clash new db.deliveries
                (enqueue_fanout_inserts settings now uuid4 m db.deliveries fanned) in
            let left : db'.deliveries ≡ db.deliveries ++ new =
              ap (λ (p : Result InboundReply × Db). p.1.deliveries) (sym h ∙ done) ∙ whole in
            rw left (record {
              ready =
                  All-append (IsReadyBy (now + longest_delay)) db.deliveries new ready
                    (fanout_rows-AreReady now uuid4 0 db.deliveries m settings.subscribers);
              covers =
                  fanout_rows-Covers settings now uuid4 m 0 db.deliveries new settings.subscribers
                    (λ name k. k);
            })
      ]

  All-IsSettled :
      (subs : List Subscriber) (before after : List WebhookDelivery)
      → Pointwise IsSameDelivery before after
      → All (λ (d : WebhookDelivery). is_pending d.status ≡ false) after
      → Covers m before subs
      → All (λ (sub : Subscriber). is_interested sub ≡ true → IsSettled m sub after) subs
  All-IsSettled [] before after same over covers = tt
  All-IsSettled (sub ∷ subs) before after same over covers = (
    λ wanted.
        IsSettled-of m sub after
          (sym (has_delivery-Pointwise m.id sub.name before after same) ∙ covers.0 wanted) over,
    All-IsSettled subs before after same over covers.1,
  )

  -- Where the constraints hold and every pending delivery has attempts left and is due within eight
  -- minutes, a received message whose insertion succeeds has, after rounds of the fan-out in their order,
  -- with no other commit in their course and without unexpected exceptions, at least as many of them eight
  -- minutes apart as attempts are left, for every subscriber that is interested a delivery that is
  -- delivered, given up or cancelled.
  pub store_inbound-IsSettled :
      (db : Db) {db' : Db} {reply : InboundReply} (rounds : List Round)
      → IsSound db
      → All (IsReadyBy (now + longest_delay)) db.deliveries
      → store_inbound x settings now uuid4 m db ≡ (ok reply, db')
      → AreLater now rounds
      → All IsSane rounds
      → work db'.deliveries ≤ windows (now + longest_delay) rounds
      → All
          (λ (sub : Subscriber).
            is_interested sub ≡ true
            → IsSettled m sub (fanout_loop x settings rounds db').deliveries)
          settings.subscribers
  store_inbound-IsSettled db {db'} rounds sound ready h run sane enough =
      let handed = store_inbound-IsHandedOver db ready h in
      let sound' =
        subst (λ (p : Result InboundReply × Db). IsSound p.1) h
          (store_inbound-KeepsSound x settings now uuid4 m db sound).0 in
      let over = fanout_loop_drains x settings rounds now db' sound' handed.ready run sane enough in
      All-IsSettled settings.subscribers db'.deliveries
        (fanout_loop x settings rounds db').deliveries (fanout_loop-Keyed x settings rounds db').1
        over handed.covers
