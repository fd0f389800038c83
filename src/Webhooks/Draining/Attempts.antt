-- ===== src/Webhooks/Draining/Attempts.antt =====
-- What the attempts of one round make of the deliveries (app/sms_relay/worker.py).
use sms_relay.Common.{
  ℕ, ◌+◌, ◌*◌, ◌≤◌, ◌<◌, ◌≡◌, refl, sym, ◌∙◌, subst, ◌≢◌, ◌⊎◌, inl, inr, Bool, true, false, some,
  List, [], ◌∷◌, arith, ltb, Bool-cases, Option-cases, All, Pointwise, Pointwise-refl, str_eq,
}
use sms_relay.Config.{Settings}
use sms_relay.External.{External}
use sms_relay.Models.{
  second, Message, WebhookDelivery, DeliveryStatus, cancelled, pending, is_pending,
}
use sms_relay.Messages.{get_row}
use sms_relay.Payload.{DeliveryRequest}
use sms_relay.Webhooks.{
  max_delivery_attempts, PostOutcome, broken, http_error, response, subscriber_named, after_post,
  deliver, deliver_row, write_back, deliver_batch,
}
use sms_relay.Payload.{request_of}
use sms_relay.Webhooks.Delivering.{IsAttempted, deliver-IsAttempted}
use sms_relay.Webhooks.Draining.Work.{
  attempts_left, IsReadyBy, IsReadyBy-later, Shrinks, Shrinks-refl,
}

-- A round's longest delay before a retry.
abbrev pub longest_delay : ℕ
longest_delay = 480 * second

-- A delivery that a round attempts: it is pending and due, and the table has no other row of its id.
pub record IsTarget (rows : List WebhookDelivery) (d : WebhookDelivery) : Type 0 where
  pub waits : is_pending d.status ≡ true
  pub left : d.attempts < max_delivery_attempts
  pub alone : All (λ (e : WebhookDelivery). str_eq e.id d.id ≡ true → e ≡ d) rows

-- What an attempt leaves.
record IsAdvanced (now : ℕ) (d d' : WebhookDelivery) : Type 0 where
  same_id : d'.id ≡ d.id
  fewer : attempts_left d' < attempts_left d
  ready : IsReadyBy (now + longest_delay) d'

IsAdvanced-of :
    (now : ℕ) (d d' : WebhookDelivery)
    → is_pending d.status ≡ true
    → d.attempts < max_delivery_attempts
    → IsAttempted now d d'
    → IsAdvanced now d d'
IsAdvanced-of now d d' waits left a = record {
  same_id = a.same_id;
  fewer = elim a.counted [
    | inl counted ↦ ground (arith, waits, left, counted)
    | inr (counted, stopped) ↦ ground (arith, waits, left, stopped)
  ];
  ready = λ p.
      let (t, at, low, high) = a.retried_soon (pending_of d'.status p) in
      (a.attempts_left.left p, rw at (ground (arith, high)));
}
  where
    pending_of : (s : DeliveryStatus) → is_pending s ≡ true → s ≡ pending
    pending_of pending h = refl
    pending_of DeliveryStatus.delivered h = absurd (cc h)
    pending_of DeliveryStatus.failed h = absurd (cc h)
    pending_of cancelled h = absurd (cc h)

-- The write of a delivery that was attempted.
module _ (marked marked' : WebhookDelivery → Bool) (now t : ℕ) (d d' : WebhookDelivery)
    (later : now + longest_delay ≤ t) (advanced : IsAdvanced now d d')
    (covered : (e : WebhookDelivery)
      → marked' e ≡ true
      → (str_eq e.id d.id ≡ true) ⊎ (marked e ≡ true)) where
  write_back-Shrinks :
      (rows0 rows : List WebhookDelivery)
      → All (λ (e : WebhookDelivery). str_eq e.id d.id ≡ true → e ≡ d) rows0
      → Pointwise (Shrinks marked) rows0 rows
      → Pointwise (Shrinks marked') rows0 (write_back (record d' { updated_at = now }) rows)
  write_back-Shrinks [] [] alone h = tt
  write_back-Shrinks [] (e ∷ rows) alone h = elim h [ ]
  write_back-Shrinks (e0 ∷ rows0) [] alone h = elim h [ ]
  write_back-Shrinks (e0 ∷ rows0) (e ∷ rows) alone h = elim (Bool-cases (str_eq e.id d'.id)) [
    | inl hit ↦
        let same : str_eq e0.id d.id ≡ true = rw (sym h.0.same_id, sym advanced.same_id) hit in
        let less =
          subst (λ k. attempts_left d' < attempts_left k) (sym (alone.0 same)) advanced.fewer in
        rw hit (
          record { same_id = h.0.same_id; no_more = omega (arith, less); fewer = λ _. less },
          write_back-Shrinks rows0 rows alone.1 h.1,
        )
    | inr miss ↦
        let other : str_eq e0.id d.id ≡ false = rw (sym h.0.same_id, sym advanced.same_id) miss in
        rw miss (
          record {
            same_id = h.0.same_id;
            no_more = h.0.no_more;
            fewer = λ k. elim (covered e0 k) [
              | inl hit ↦ absurd (cc (sym other ∙ hit))
              | inr old ↦ h.0.fewer old
            ];
          },
          write_back-Shrinks rows0 rows alone.1 h.1,
        )
  ]

write_back-AreReadyBy :
    (now t : ℕ) (d d' : WebhookDelivery) (rows : List WebhookDelivery)
    → now + longest_delay ≤ t
    → IsAdvanced now d d'
    → All (IsReadyBy t) rows
    → All (IsReadyBy t) (write_back (record d' { updated_at = now }) rows)
write_back-AreReadyBy now t d d' [] later advanced h = tt
write_back-AreReadyBy now t d d' (e ∷ rows) later advanced h =
    let rest = write_back-AreReadyBy now t d d' rows later advanced h.1 in
    elim (Bool-cases (str_eq e.id d'.id)) [
      | inl hit ↦ rw hit (IsReadyBy-later (now + longest_delay) t d' later advanced.ready, rest)
      | inr miss ↦ rw miss (h.0, rest)
    ]

module _ (x : External) (settings : Settings) (now : ℕ) (post : DeliveryRequest → PostOutcome)
    (messages : List Message) (sane : (r : DeliveryRequest) → post r ≢ broken) where
  deliver_returns :
      (d : WebhookDelivery) (message : Message)
      → (d' : WebhookDelivery) × (deliver x settings now post d message ≡ some d')
  unfolding deliver after_post
  deliver_returns d message =
      elim (Option-cases (subscriber_named d.subscriber settings.subscribers)) [
        | inl gone ↦ rw (gone, deliver) (_, refl)
        | inr (sub, found) ↦
            rw (found, deliver)
              (answered (post (request_of x sub d message)) (record d { attempts = d.attempts + 1 })
                (sane (request_of x sub d message)))
      ]
    where
      answered :
          (outcome : PostOutcome) (e : WebhookDelivery)
          → outcome ≢ broken
          → (d' : WebhookDelivery) × (after_post now outcome e ≡ some d')
      answered (http_error exc) e h = (_, refl)
      answered broken e h = absurd (h refl)
      answered (response status_code body) e h = elim (Bool-cases (ltb status_code 300)) [
        | inl taken ↦ rw (taken, after_post) (_, refl)
        | inr refused ↦ rw (refused, after_post) (_, refl)
      ]

  deliver_row-IsAdvanced :
      (d : WebhookDelivery)
      → is_pending d.status ≡ true
      → d.attempts < max_delivery_attempts
      → (d' : WebhookDelivery) × (deliver_row x settings now post messages d ≡ some d')
        × IsAdvanced now d d'
  unfolding deliver_row
  deliver_row-IsAdvanced d waits left = elim (Option-cases (get_row d.message_id messages)) [
    | inl lost ↦
        rw (lost, deliver_row)
          (
            _,
            refl,
            record {
              same_id = refl;
              fewer = ground (arith, waits, left);
              ready = λ p. absurd (cc p);
            },
          )
    | inr (message, found) ↦
        let (d', e) = deliver_returns d message in
        rw (found, deliver_row)
          (
            d',
            e,
            IsAdvanced-of now d d' waits left
                (deliver-IsAttempted x settings now post d message left e),
          )
  ]

  -- A batch returns, and loses no delivery that is ready.
  pub deliver_batch-Shrinks :
      (marked : WebhookDelivery → Bool) (t : ℕ) (rows0 batch rows : List WebhookDelivery)
      → now + longest_delay ≤ t
      → All (IsTarget rows0) batch
      → Pointwise (Shrinks marked) rows0 rows
      → All (IsReadyBy t) rows
      → (rows' : List WebhookDelivery) × (deliver_batch x settings now post messages batch rows
          ≡ some rows')
        × Pointwise (Shrinks marked) rows0 rows'
        × All (IsReadyBy t) rows'
  unfolding deliver_batch
  deliver_batch-Shrinks marked t rows0 [] rows later targets h ready = (rows, refl, h, ready)
  deliver_batch-Shrinks marked t rows0 (d ∷ batch) rows later targets h ready =
      let (d', e, advanced) = deliver_row-IsAdvanced d targets.0.waits targets.0.left in
      rw (e, deliver_batch)
        (deliver_batch-Shrinks marked t rows0 batch
          (write_back (record d' { updated_at = now }) rows) later targets.1
          (write_back-Shrinks marked marked now t d d' later advanced (λ _ k. inr k) rows0 rows
            targets.0.alone h)
          (write_back-AreReadyBy now t d d' rows later advanced ready))

  -- A batch that is not empty leaves fewer attempts.
  pub deliver_batch-fewer :
      (t : ℕ) (d : WebhookDelivery) (batch rows : List WebhookDelivery)
      → now + longest_delay ≤ t
      → All (IsTarget rows) (d ∷ batch)
      → All (IsReadyBy t) rows
      → (rows' : List WebhookDelivery) × (deliver_batch x settings now post messages
            (d ∷ batch)
            rows
          ≡ some rows')
        × Pointwise (Shrinks (λ (e : WebhookDelivery). str_eq e.id d.id)) rows rows'
        × All (IsReadyBy t) rows'
  unfolding deliver_batch
  deliver_batch-fewer t d batch rows later targets ready =
      let (d', e, advanced) = deliver_row-IsAdvanced d targets.0.waits targets.0.left in
      rw (e, deliver_batch)
        (deliver_batch-Shrinks (λ (k : WebhookDelivery). str_eq k.id d.id) t rows batch
          (write_back (record d' { updated_at = now }) rows) later targets.1
          (write_back-Shrinks (λ _. false) (λ (k : WebhookDelivery). str_eq k.id d.id) now t d d'
            later advanced (λ _ k. inl k) rows rows targets.0.alone
            (Pointwise-refl (Shrinks (λ _. false)) Shrinks-refl rows))
          (write_back-AreReadyBy now t d d' rows later advanced ready))
