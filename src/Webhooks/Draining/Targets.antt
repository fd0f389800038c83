-- ===== src/Webhooks/Draining/Targets.antt =====
-- The deliveries that a round of the fan-out attempts (app/sms_relay/worker.py).
use sms_relay.Common.{
  ℕ, ◌≡◌, refl, ap, subst, inl, inr, true, false, List, [], ◌∷◌, arith, Bool-cases, &&-eq-true,
  length, any, select, All, All-take, All-select, length-take, Any, str_eq, str_eq_refl,
  str_eq_comm,
}
use sms_relay.Common.Lists.{All-of_Any, All-selected, All-found, none_selected}
use sms_relay.Common.Sort.{sort, All-sort, length-sort}
use sms_relay.Models.{WebhookDelivery}
use sms_relay.Models.Db.{delivery_clash}
use sms_relay.Models.Db.Constraints.{IsDistinct}
use sms_relay.Webhooks.{earlier, is_due_delivery, due_deliveries, are_there}
use sms_relay.Webhooks.Draining.Attempts.{IsTarget}
use sms_relay.Webhooks.Draining.Work.{IsReadyBy}

-- A row stands alone under its id.
abbrev IsAlone : List WebhookDelivery → WebhookDelivery → Type 0
IsAlone rows d = All (λ (e : WebhookDelivery). str_eq e.id d.id ≡ true → e ≡ d) rows

apart-IsAlone :
    (d : WebhookDelivery) (rows : List WebhookDelivery)
    → All (λ e. delivery_clash e d ≡ false) rows
    → IsAlone rows d
apart-IsAlone d [] h = tt
apart-IsAlone d (e ∷ rows) h = ((λ k. absurd (ground (arith, k, h.0))), apart-IsAlone d rows h.1)

found-IsAlone :
    (d : WebhookDelivery) (rows : List WebhookDelivery)
    → IsDistinct delivery_clash rows
    → Any (λ e. e ≡ d) rows
    → IsAlone rows d
found-IsAlone d [] h a = elim a [ ]
found-IsAlone d (e ∷ rows) h (inl same) =
    ((λ _. same), subst (IsAlone rows) same (apart-IsAlone e rows h.0))
found-IsAlone d (e ∷ rows) h (inr a) =
    let other : delivery_clash d e ≡ false =
      All-found (λ k. delivery_clash k e ≡ false) d rows h.0 a in
    ((λ k. absurd (ground (arith, k, other, str_eq_comm e.id d.id))), found-IsAlone d rows h.1 a)

module _ (now t : ℕ) (rows : List WebhookDelivery) (distinct : IsDistinct delivery_clash rows)
    (ready : All (IsReadyBy t) rows) where
  IsTarget-of :
      (d : WebhookDelivery) → Any (λ e. e ≡ d) rows → is_due_delivery now d ≡ true → IsTarget rows d
  IsTarget-of d a due =
      let (waits, _) = &&-eq-true _ _ due in
      record {
        waits = waits;
        left = (All-found (IsReadyBy t) d rows ready a waits).0;
        alone = found-IsAlone d rows distinct a;
      }

  pub due_targets : All (IsTarget rows) (due_deliveries now rows)
  unfolding due_deliveries
  due_targets = All-take (IsTarget rows) 20 _ (
      All-sort earlier (IsTarget rows) _ (
        All-selected (IsTarget rows) (is_due_delivery now) rows
          (All-of_Any (λ d. is_due_delivery now d ≡ true → IsTarget rows d) rows IsTarget-of)))

stored_there :
    (d : WebhookDelivery) (rows : List WebhookDelivery)
    → Any (λ e. e ≡ d) rows
    → any (λ (e : WebhookDelivery). str_eq e.id d.id) rows ≡ true
stored_there d [] a = elim a [ ]
stored_there d (e ∷ rows) (inl same) = rw (same, str_eq_refl d.id) refl
stored_there d (e ∷ rows) (inr a) = ground (arith, stored_there d rows a)

-- The rows of a batch are in the table that they were read from.
pub due_there :
    (now : ℕ) (rows : List WebhookDelivery) → are_there (due_deliveries now rows) rows ≡ true
unfolding due_deliveries are_there
due_there now rows = all_of_All (due_deliveries now rows) (
    All-take IsThere 20 _ (
      All-sort earlier IsThere _ (
        All-select IsThere (is_due_delivery now) rows
          (All-of_Any IsThere rows (λ d a. stored_there d rows a)))))
  where
    IsThere : WebhookDelivery → Type 0
    IsThere d = any (λ (e : WebhookDelivery). str_eq e.id d.id) rows ≡ true

    all_of_All : (batch : List WebhookDelivery) → All IsThere batch → are_there batch rows ≡ true
    all_of_All [] h = refl
    all_of_All (d ∷ batch) h = ground (arith, h.0, all_of_All batch h.1)

-- A row of the batch stands in the table.
pub due_stored :
    (now : ℕ) (d : WebhookDelivery) (batch rows : List WebhookDelivery)
    → due_deliveries now rows ≡ d ∷ batch
    → Any (λ (e : WebhookDelivery). str_eq e.id d.id ≡ true) rows
unfolding due_deliveries are_there
due_stored now d batch rows e =
    let there : are_there (d ∷ batch) rows ≡ true =
      subst (λ b. are_there b rows ≡ true) e (due_there now rows) in
    some_row rows (&&-eq-true _ _ there).0
  where
    some_row :
        (rs : List WebhookDelivery)
        → any (λ (e : WebhookDelivery). str_eq e.id d.id) rs ≡ true
        → Any (λ (e : WebhookDelivery). str_eq e.id d.id ≡ true) rs
    some_row [] h = absurd (cc h)
    some_row (e ∷ rs) h = elim (Bool-cases (str_eq e.id d.id)) [
      | inl hit ↦ inl hit
      | inr miss ↦ inr (some_row rs (rw miss at h))
    ]

-- Where the batch is empty, no delivery is due.
pub none_due_left :
    (now : ℕ) (rows : List WebhookDelivery)
    → due_deliveries now rows ≡ []
    → All (λ d. is_due_delivery now d ≡ false) rows
unfolding due_deliveries
none_due_left now rows e = none_selected (is_due_delivery now) rows (
    nothing _ (
      omega (
        arith,
        ap length e,
        length-take 20 (sort earlier (select (is_due_delivery now) rows)),
        length-sort earlier (select (is_due_delivery now) rows),
      )))
  where
    nothing : (l : List WebhookDelivery) → length l ≡ 0 → l ≡ []
    nothing [] h = refl
    nothing (d ∷ l) h = absurd (omega (arith, h))
