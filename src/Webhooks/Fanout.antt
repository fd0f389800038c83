-- ===== src/Webhooks/Fanout.antt =====
-- The rows of a fan-out, and what one bad subscriber does to a round (app/sms_relay/webhooks.py and
-- fanout_loop of app/sms_relay/worker.py).
use sms_relay.Common.{
  ℕ, suc, ◌≡◌, refl, sym, ap, ◌∙◌, subst, ◌⊎◌, inl, inr, true, false, ◌||◌, none, List, [], ◌∷◌,
  ◌++◌, arith, Bool-cases, Option-cases, length, any, All, Any, Text, str_eq_refl, str_eq_comm,
}
use sms_relay.Common.Result.{ok, raise, integrity_error, ok_injective}
use sms_relay.Config.{Settings, Subscriber, is_interested}
use sms_relay.External.{External}
use sms_relay.Models.{Message, WebhookDelivery}
use sms_relay.Models.Db.{Db, delivery_clash, insert_all}
use sms_relay.Models.Db.Constraints.{insert_all-append}
use sms_relay.Payload.{DeliveryRequest}
use sms_relay.Webhooks.{
  new_delivery, has_delivery, fanout_rows, enqueue_fanout, PostOutcome, deliver_row, due_deliveries,
  write_back, deliver_batch, are_there, fanout_round,
}

module _ (x : External) (settings : Settings) (now : ℕ) (post : DeliveryRequest → PostOutcome) where
  batch_undone :
      (messages : List Message) (batch rows : List WebhookDelivery)
      → Any (λ d. deliver_row x settings now post messages d ≡ none) batch
      → deliver_batch x settings now post messages batch rows ≡ none
  unfolding deliver_batch
  batch_undone messages [] rows h = elim h [ ]
  batch_undone messages (d ∷ batch) rows (inl e) = rw (e, deliver_batch)
  batch_undone messages (d ∷ batch) rows (inr h) =
      elim (Option-cases (deliver_row x settings now post messages d)) [
        | inl e ↦ rw (e, deliver_batch)
        | inr (d', e) ↦
            rw (e, deliver_batch)
              (batch_undone messages batch (write_back (record d' { updated_at = now }) rows) h)
      ]

  -- If the call for one delivery of a round's batch raises an exception that is no httpx.HTTPError,
  -- the round leaves the database as it is at its commit, those deliveries too that were acknowledged.
  pub fanout_round_poisoned :
      (seen db : Db)
      → Any
          (λ d. deliver_row x settings now post seen.messages d ≡ none)
          (due_deliveries now seen.deliveries)
      → fanout_round x settings now post seen db ≡ db
  unfolding fanout_round
  fanout_round_poisoned seen db h =
      let batch = due_deliveries now seen.deliveries in
      elim (Bool-cases (are_there batch db.deliveries)) [
        | inr lost ↦ rw (lost, fanout_round) refl
        | inl there ↦
            rw (there, batch_undone seen.messages batch db.deliveries h, fanout_round) refl
      ]

module _ (message : Message) where
  pub has_delivery-append :
      (name : Text) (a b : List WebhookDelivery)
      → has_delivery (a ++ b) message.id name
        ≡ (has_delivery a message.id name || has_delivery b message.id name)
  has_delivery-append name [] b = refl
  has_delivery-append name (d ∷ a) b = ground (arith, has_delivery-append name a b)

  -- Every interested subscriber has a delivery in `deliveries`.
  abbrev pub Covers : List WebhookDelivery → List Subscriber → Type 0
  Covers deliveries = All (λ (sub : Subscriber).
      is_interested sub ≡ true → has_delivery deliveries message.id sub.name ≡ true)

  fanout_rows_of_Covers :
      (now : ℕ) (uuid4 : ℕ → Text) (n : ℕ) (deliveries : List WebhookDelivery)
      (subs : List Subscriber)
      → Covers deliveries subs
      → fanout_rows now uuid4 n deliveries message subs ≡ []
  unfolding fanout_rows
  fanout_rows_of_Covers now uuid4 n deliveries [] h = refl
  fanout_rows_of_Covers now uuid4 n deliveries (sub ∷ subs) h =
      ground (arith, fanout_rows_of_Covers now uuid4 (suc n) deliveries subs h.1, h.0)

table_of : (p q : ℕ × List WebhookDelivery) → ok p ≡ ok q → p.1 ≡ q.1
table_of p q e = ap (λ (r : ℕ × List WebhookDelivery). r.1) (ok_injective _ _ e)

module _ (settings : Settings) (now : ℕ) (uuid4 : ℕ → Text) (message : Message) where
  pub fanout_rows-Covers :
      (n : ℕ) (deliveries extra : List WebhookDelivery) (subs : List Subscriber)
      → ((name : Text)
          → has_delivery (fanout_rows now uuid4 n deliveries message subs) message.id name ≡ true
          → has_delivery extra message.id name ≡ true)
      → Covers message (deliveries ++ extra) subs
  unfolding fanout_rows
  fanout_rows-Covers n deliveries extra [] h = tt
  fanout_rows-Covers n deliveries extra (sub ∷ subs) h = (
    λ e. ground (
      arith,
      e,
      has_delivery-append message sub.name deliveries extra,
      h sub.name,
      str_eq_refl message.id,
      str_eq_refl sub.name,
    ),
    fanout_rows-Covers (suc n) deliveries extra subs (λ name k. h name (ground (arith, k))),
  )

  -- A fan-out that is asked for again, at any later time, finds each of its deliveries and adds none.
  pub enqueue_fanout_again :
      (later : ℕ) (uuid4' : ℕ → Text) (deliveries stored : List WebhookDelivery) (n : ℕ)
      → enqueue_fanout settings now uuid4 message deliveries ≡ ok (n, stored)
      → enqueue_fanout settings later uuid4' message stored ≡ ok (0, stored)
  unfolding enqueue_fanout
  enqueue_fanout_again later uuid4' deliveries stored n h =
      let rows = fanout_rows now uuid4 0 deliveries message settings.subscribers in
      elim (Option-cases (insert_all delivery_clash rows deliveries)) [
        | inl clash ↦ absurd (ground (arith, h, clash))
        | inr (table, fits) ↦
            let whole : deliveries ++ rows ≡ stored =
              sym (insert_all-append delivery_clash rows deliveries fits)
              ∙ table_of (length rows, table) (n, stored) (ground (arith, h, fits)) in
            let covered =
              subst (λ t. Covers message t settings.subscribers) whole
                (fanout_rows-Covers 0 deliveries rows settings.subscribers (λ name k. k)) in
            rw
              (
                fanout_rows_of_Covers message later uuid4' 0 stored settings.subscribers covered,
                enqueue_fanout,
                fanout_rows_of_Covers message later uuid4' 0 stored settings.subscribers covered,
              )
              refl
      ]

module _ (now : ℕ) (uuid4 : ℕ → Text) (message : Message) where
  clash_of_delivery :
      (id : Text) (sub : Subscriber) (table : List WebhookDelivery)
      → has_delivery table message.id sub.name ≡ true
      → any (delivery_clash (new_delivery now id message sub)) table ≡ true
  clash_of_delivery id sub [] h = h
  clash_of_delivery id sub (d ∷ table) h = ground (
    arith,
    clash_of_delivery id sub table,
    str_eq_comm d.message_id message.id,
    str_eq_comm d.subscriber sub.name,
  )

  -- A later interested subscriber of a name that has its delivery already.
  twin_refused :
      (n : ℕ) (existing : List WebhookDelivery) (name : Text) (subs : List Subscriber)
      (table : List WebhookDelivery)
      → ((other : Text) → has_delivery existing message.id other ≡ false)
      → has_delivery table message.id name ≡ true
      → Any (λ (s : Subscriber). (is_interested s ≡ true) × (s.name ≡ name)) subs
      → insert_all delivery_clash (fanout_rows now uuid4 n existing message subs) table ≡ none
  unfolding fanout_rows insert_all
  twin_refused n existing name [] table fresh h twin = elim twin [ ]
  twin_refused n existing name (s ∷ subs) table fresh h (inl (e, same)) =
      let clash = clash_of_delivery (uuid4 n) s table (rw same h) in
      ground (arith, fresh s.name, e, clash)
  twin_refused n existing name (s ∷ subs) table fresh h (inr twin) =
      let row = new_delivery now (uuid4 n) message s in
      let grown : has_delivery (table ++ row ∷ []) message.id name ≡ true =
        ground (arith, has_delivery-append message name table (row ∷ []), h) in
      ground (
        arith,
        fresh s.name,
        twin_refused (suc n) existing name subs table fresh h twin,
        twin_refused (suc n) existing name subs (table ++ row ∷ []) fresh grown twin,
      )

  -- Two interested subscribers have one name.
  abbrev pub HasTwins : List Subscriber → Type 0
  HasTwins [] = ⊥
  HasTwins (s ∷ subs) =
      ((is_interested s ≡ true)
        × Any (λ (t : Subscriber). (is_interested t ≡ true) × (t.name ≡ s.name)) subs)
      ⊎ HasTwins subs

  twins_refused :
      (n : ℕ) (existing : List WebhookDelivery) (subs : List Subscriber)
      (table : List WebhookDelivery)
      → ((other : Text) → has_delivery existing message.id other ≡ false)
      → HasTwins subs
      → insert_all delivery_clash (fanout_rows now uuid4 n existing message subs) table ≡ none
  unfolding fanout_rows insert_all
  twins_refused n existing [] table fresh twins = elim twins [ ]
  twins_refused n existing (s ∷ subs) table fresh (inl (e, twin)) =
      let row = new_delivery now (uuid4 n) message s in
      let grown : has_delivery (table ++ row ∷ []) message.id s.name ≡ true = ground (
        arith,
        has_delivery-append message s.name table (row ∷ []),
        str_eq_refl message.id,
        str_eq_refl s.name,
      ) in
      ground (
        arith,
        fresh s.name,
        e,
        twin_refused (suc n) existing s.name subs (table ++ row ∷ []) fresh grown twin,
      )
  twins_refused n existing (s ∷ subs) table fresh (inr twins) =
      let row = new_delivery now (uuid4 n) message s in
      ground (
        arith,
        twins_refused (suc n) existing subs table fresh twins,
        twins_refused (suc n) existing subs (table ++ row ∷ []) fresh twins,
      )

  -- With two interested subscribers of one name in the configuration, the fan-out of every new message
  -- fails with an IntegrityError, whatever is stored.
  pub twins_stop_fanout :
      (settings : Settings) (deliveries : List WebhookDelivery)
      → ((other : Text) → has_delivery deliveries message.id other ≡ false)
      → HasTwins settings.subscribers
      → enqueue_fanout settings now uuid4 message deliveries ≡ raise integrity_error
  unfolding enqueue_fanout
  twins_stop_fanout settings deliveries fresh twins =
      rw (twins_refused 0 deliveries settings.subscribers deliveries fresh twins, enqueue_fanout)
