-- ===== src/Webhooks/Delivering.antt =====
-- What becomes of one delivery over its attempts (app/sms_relay/webhooks.py, deliver).
use sms_relay.Common.{
  ℕ, zero, suc, ◌+◌, ◌*◌, ◌≤◌, ◌<◌, ◌≡◌, refl, subst, ◌⊎◌, inl, inr, true, some, arith, ltb, leb,
  Bool-cases, Option-cases, take, text,
}
use mathlib.Core.Option.{some-injective}
use sms_relay.Config.{Settings}
use sms_relay.External.{External}
use sms_relay.Models.{
  second, Message, WebhookDelivery, DeliveryStatus, pending, cancelled, is_pending,
}
use sms_relay.Payload.{DeliveryRequest, request_of}
use sms_relay.Webhooks.{
  max_delivery_attempts, backoff_seconds, backoff, PostOutcome, http_error, broken, response,
  subscriber_named, http_failure, after_failure, after_post, deliver,
}

-- A pending delivery has attempts left.
pub record HasAttemptsLeft (d : WebhookDelivery) : Type 0 where
  pub bounded : d.attempts ≤ max_delivery_attempts
  pub left : is_pending d.status ≡ true → d.attempts < max_delivery_attempts

-- The delay before a retry, with fewer than six attempts made: between 30 seconds and 8 minutes.
early_backoff :
    (attempts : ℕ)
    → attempts < 6
    → (30 ≤ backoff_seconds attempts) × (backoff_seconds attempts ≤ 480)
unfolding backoff_seconds
early_backoff zero h = (omega arith, omega arith)
early_backoff (suc zero) h = (omega arith, omega arith)
early_backoff (suc (suc zero)) h = (omega arith, omega arith)
early_backoff (suc (suc (suc zero))) h = (omega arith, omega arith)
early_backoff (suc (suc (suc (suc zero)))) h = (omega arith, omega arith)
early_backoff (suc (suc (suc (suc (suc zero))))) h = (omega arith, omega arith)
early_backoff (suc (suc (suc (suc (suc (suc n)))))) h = absurd (omega arith)

-- What an attempt at a pending delivery leaves, by the row before it.
pub record IsAttempted (now : ℕ) (d d' : WebhookDelivery) : Type 0 where
  pub same_id : d'.id ≡ d.id
  pub same_message : d'.message_id ≡ d.message_id
  pub same_subscriber : d'.subscriber ≡ d.subscriber
  pub attempts_left : HasAttemptsLeft d'
  pub counted :
      (d'.attempts ≡ d.attempts + 1) ⊎ ((d'.attempts ≡ d.attempts) × (d'.status ≡ cancelled))
  pub given_up_late : d'.status ≡ DeliveryStatus.failed → d'.attempts ≡ max_delivery_attempts
  pub retried_soon :
      d'.status ≡ pending
      → (t : ℕ) × (d'.next_attempt_at ≡ some t) × (now + 30 * second ≤ t) × (t ≤ now + 480 * second)

after_failure-IsAttempted :
    (now : ℕ) (d d1 : WebhookDelivery)
    → d.attempts < max_delivery_attempts
    → d1.id ≡ d.id
    → d1.message_id ≡ d.message_id
    → d1.subscriber ≡ d.subscriber
    → d1.attempts ≡ d.attempts + 1
    → IsAttempted now d (after_failure now d1)
unfolding after_failure
after_failure-IsAttempted now d d1 left i m s a =
    elim (Bool-cases (leb max_delivery_attempts d1.attempts)) [
      | inl over ↦ rw over (record {
        same_id = i;
        same_message = m;
        same_subscriber = s;
        attempts_left = ground arith;
        counted = inl a;
        given_up_late = λ _. ground arith;
        retried_soon = λ e. absurd (cc e);
      })
      | inr again ↦ rw again (record {
        same_id = i;
        same_message = m;
        same_subscriber = s;
        attempts_left = ground arith;
        counted = inl a;
        given_up_late = λ e. absurd (cc e);
        retried_soon = λ _.
            let (low, high) = early_backoff d1.attempts (ground arith) in
            (
              backoff now d1.attempts,
              refl,
              unfold backoff in omega arith,
              unfold backoff in omega arith,
            );
      })
    ]

after_post-IsAttempted :
    (now : ℕ) (outcome : PostOutcome) (d : WebhookDelivery) {d' : WebhookDelivery}
    → d.attempts < max_delivery_attempts
    → after_post now outcome (record d { attempts = d.attempts + 1 }) ≡ some d'
    → IsAttempted now d d'
unfolding after_post
after_post-IsAttempted now (http_error exc) d {d'} left e =
    let d1 : WebhookDelivery = record d {
      attempts = d.attempts + 1;
      error = some (take 500 exc);
    } in
    subst (IsAttempted now d) (some-injective _ _ e)
      (after_failure-IsAttempted now d d1 left refl refl refl refl)
after_post-IsAttempted now broken d left e = absurd (cc e)
after_post-IsAttempted now (response status_code body) d {d'} left e =
    elim (Bool-cases (ltb status_code 300)) [
      | inr refused ↦
          let d1 : WebhookDelivery = record d {
            attempts = d.attempts + 1;
            response_code = some status_code;
            error = some (http_failure status_code body);
          } in
          subst (IsAttempted now d) (some-injective _ _ (rw refused at e))
            (after_failure-IsAttempted now d d1 left refl refl refl refl)
      | inl taken ↦ subst (IsAttempted now d) (some-injective _ _ (rw taken at e)) (record {
        same_id = refl;
        same_message = refl;
        same_subscriber = refl;
        attempts_left = ground arith;
        counted = inl refl;
        given_up_late = λ k. absurd (cc k);
        retried_soon = λ k. absurd (cc k);
      })
    ]

-- An attempt at a pending delivery with attempts left, whatever the subscriber's server does short of
-- an exception that is no httpx.HTTPError: the delivery keeps its identity; it counts one attempt, or
-- none if its subscriber is gone and it is cancelled; it is given up only at the sixth attempt, a
-- pending one has attempts left, and it is due again after 30 seconds to 8 minutes.
pub deliver-IsAttempted :
    (x : External) (settings : Settings) (now : ℕ) (post : DeliveryRequest → PostOutcome)
    (d : WebhookDelivery) (message : Message) {d' : WebhookDelivery}
    → d.attempts < max_delivery_attempts
    → deliver x settings now post d message ≡ some d'
    → IsAttempted now d d'
unfolding deliver
deliver-IsAttempted x settings now post d message {d'} left e =
    elim (Option-cases (subscriber_named d.subscriber settings.subscribers)) [
      | inr (sub, found) ↦
          after_post-IsAttempted now (post (request_of x sub d message)) d left
            (ground (arith, e, found))
      | inl gone ↦
          subst (IsAttempted now d)
            (some-injective
              (record d {
                status = cancelled;
                error = some (text "subscriber no longer configured");
              })
              d' (ground (arith, e, gone)))
            (record {
              same_id = refl;
              same_message = refl;
              same_subscriber = refl;
              attempts_left = ground arith;
              counted = inr (refl, refl);
              given_up_late = λ k. absurd (cc k);
              retried_soon = λ k. absurd (cc k);
            })
    ]
