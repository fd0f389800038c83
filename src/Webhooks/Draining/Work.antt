-- ===== src/Webhooks/Draining/Work.antt =====
-- The attempts that the deliveries have left (app/sms_relay/webhooks.py).
use sms_relay.Common.{
  ℕ, ◌+◌, ◌-◌, ◌≤◌, ◌<◌, ◌≡◌, refl, inl, inr, Bool, true, false, Option, none, some, List, [], ◌∷◌,
  arith, if◌then◌else◌, Bool-cases, All, Any, Pointwise,
}
use sms_relay.Models.{WebhookDelivery, is_pending}
use sms_relay.Models.Db.{is_due}
use sms_relay.Webhooks.{max_delivery_attempts}

-- The attempts that a delivery has left, and the sum of them.
abbrev pub attempts_left : WebhookDelivery → ℕ
attempts_left d = if is_pending d.status then max_delivery_attempts - d.attempts else 0

unfoldable pub work : List WebhookDelivery → ℕ
work [] = 0
work (d ∷ rows) = attempts_left d + work rows

-- A pending delivery has attempts left and is due by a time.
abbrev pub IsReadyBy : ℕ → WebhookDelivery → Type 0
IsReadyBy t d =
    is_pending d.status ≡ true
    → (d.attempts < max_delivery_attempts) × (is_due d.next_attempt_at t ≡ true)

pub IsReadyBy-later : (t u : ℕ) (d : WebhookDelivery) → t ≤ u → IsReadyBy t d → IsReadyBy u d
IsReadyBy-later t u d later h =
    λ p. let (left, due) = h p in (left, due_later d.next_attempt_at due)
  where
    due_later : (a : Option ℕ) → is_due a t ≡ true → is_due a u ≡ true
    due_later none h = refl
    due_later (some n) h = ground (arith, later, h)

pub AreReadyBy-later :
    (t u : ℕ) (rows : List WebhookDelivery)
    → t ≤ u
    → All (IsReadyBy t) rows
    → All (IsReadyBy u) rows
AreReadyBy-later t u [] later h = tt
AreReadyBy-later t u (d ∷ rows) later h =
    (IsReadyBy-later t u d later h.0, AreReadyBy-later t u rows later h.1)

-- What a part of a round makes of a row: the row is as it was, or has fewer attempts left; a marked row has.
pub record Shrinks (marked : WebhookDelivery → Bool) (d e : WebhookDelivery) : Type 0 where
  pub same_id : e.id ≡ d.id
  pub no_more : attempts_left e ≤ attempts_left d
  pub fewer : marked d ≡ true → attempts_left e < attempts_left d

pub Shrinks-refl : (d : WebhookDelivery) → Shrinks (λ _. false) d d
Shrinks-refl d = record { same_id = refl; no_more = omega arith; fewer = λ e. absurd (cc e) }

pub work-Shrinks :
    (marked : WebhookDelivery → Bool) (rows rows' : List WebhookDelivery)
    → Pointwise (Shrinks marked) rows rows'
    → work rows' ≤ work rows
unfolding work
work-Shrinks marked [] [] h = omega arith
work-Shrinks marked [] (e ∷ rows') h = elim h [ ]
work-Shrinks marked (d ∷ rows) [] h = elim h [ ]
work-Shrinks marked (d ∷ rows) (e ∷ rows') h =
    omega (arith, h.0.no_more, work-Shrinks marked rows rows' h.1)

pub work-fewer :
    (marked : WebhookDelivery → Bool) (rows rows' : List WebhookDelivery)
    → Pointwise (Shrinks marked) rows rows'
    → Any (λ d. marked d ≡ true) rows
    → work rows' < work rows
unfolding work
work-fewer marked [] rows' h a = elim a [ ]
work-fewer marked (d ∷ rows) [] h a = elim h [ ]
work-fewer marked (d ∷ rows) (e ∷ rows') h (inl hit) =
    omega (arith, h.0.fewer hit, work-Shrinks marked rows rows' h.1)
work-fewer marked (d ∷ rows) (e ∷ rows') h (inr a) =
    omega (arith, h.0.no_more, work-fewer marked rows rows' h.1 a)

pub none_left :
    (t : ℕ) (rows : List WebhookDelivery)
    → All (IsReadyBy t) rows
    → work rows ≡ 0
    → All (λ d. is_pending d.status ≡ false) rows
unfolding work
none_left t [] ready h = tt
none_left t (d ∷ rows) ready h = elim (Bool-cases (is_pending d.status)) [
  | inr done ↦ (done, none_left t rows ready.1 (omega (arith, h)))
  | inl waits ↦ absurd (omega (arith, rw waits at h, (ready.0 waits).0))
]
