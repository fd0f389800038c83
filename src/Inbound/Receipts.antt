-- ===== src/Inbound/Receipts.antt =====
-- Delivery receipts (app/sms_relay/routes/inbound.py, _apply_receipt).
use sms_relay.Common.{
  ℕ, ◌≡◌, refl, ap, ◌∙◌, inl, inr, true, false, none, some, List, [], ◌∷◌, arith, Bool-cases,
  select, update, All, All-unselect, Text, str_eq, str_eq_iff, is_empty,
}
use sms_relay.Common.Json.{Props}
use sms_relay.Common.Result.{ok, Result-cases}
use sms_relay.External.{External}
use sms_relay.Inbound.{updated, has_provider_id, receipt_id_of, mark_delivered, apply_receipt}
use sms_relay.Messages.{one_or_none}
use sms_relay.Models.{Message, MessageStatus, status_eq}
use sms_relay.Models.Db.{Db}

-- Every row with a provider's id is delivered.
abbrev pub AreDelivered : Text → List Message → Type 0
AreDelivered id =
    All (λ (m : Message). has_provider_id id m ≡ true → m.status ≡ MessageStatus.delivered)

one_or_none_single :
    (l : List Message) (m : Message) → one_or_none l ≡ ok (some m) → All (λ n. n ≡ m) l
unfolding one_or_none
one_or_none_single [] m h = tt
one_or_none_single (n ∷ []) m h = (cc h, tt)
one_or_none_single (n ∷ k ∷ l) m h = absurd (cc h)

module _ (id : Text) (now : ℕ) (m : Message) where
  abbrev mark : Message → Message
  mark row = record row { status = MessageStatus.delivered; updated_at = now }

  marked-AreDelivered :
      (rows : List Message)
      → All (λ n. has_provider_id id n ≡ true → n ≡ m) rows
      → AreDelivered id (update (λ (n : Message). str_eq n.id m.id) mark rows)
  marked-AreDelivered [] h = tt
  marked-AreDelivered (n ∷ rows) h = elim (Bool-cases (str_eq n.id m.id)) [
    | inl hit ↦ rw hit ((λ _. refl), marked-AreDelivered rows h.1)
    | inr miss ↦ rw miss (
      (λ named.
          absurd
            (ground (arith, miss, str_eq_iff n.id m.id, ap (λ (k : Message). k.id) (h.0 named)))),
      marked-AreDelivered rows h.1,
    )
  ]

  unmarked-AreDelivered :
      (rows : List Message)
      → m.status ≡ MessageStatus.delivered
      → All (λ n. has_provider_id id n ≡ true → n ≡ m) rows
      → AreDelivered id rows
  unmarked-AreDelivered [] s h = tt
  unmarked-AreDelivered (n ∷ rows) s h =
      ((λ named. ap (λ (k : Message). k.status) (h.0 named) ∙ s), unmarked-AreDelivered rows s h.1)

  mark_delivered-AreDelivered :
      (db : Db)
      → one_or_none (select (has_provider_id id) db.messages) ≡ ok (some m)
      → AreDelivered id (mark_delivered now m db).messages
  unfolding mark_delivered
  mark_delivered-AreDelivered db h =
      let single =
        All-unselect (λ (n : Message). n ≡ m) (has_provider_id id) db.messages
          (one_or_none_single _ m h) in
      elim (Bool-cases (status_eq m.status MessageStatus.delivered)) [
        | inl same ↦
            rw (same, mark_delivered)
              (unmarked-AreDelivered db.messages (ground (arith, same)) single)
        | inr new ↦ rw (new, mark_delivered) (marked-AreDelivered db.messages single)
      ]

-- With no other commit between its read and its own: after a delivery receipt that is answered as an
-- update, whatever the status of the row was, every row with the receipt's id is delivered; and a
-- receipt that a message was sent changes nothing.
pub apply_receipt-AreDelivered :
    (x : External) (now : ℕ) (event : Props) (db : Db)
    → ((id : Text)
        → (apply_receipt x now true event db db).0 ≡ ok (updated id)
        → AreDelivered (receipt_id_of x event) (apply_receipt x now true event db db).1.messages)
      × ((apply_receipt x now false event db db).1 ≡ db)
unfolding apply_receipt
apply_receipt-AreDelivered x now event db =
    let pid = receipt_id_of x event in
    elim (Bool-cases (is_empty pid)) [
      | inl e ↦ rw (e, apply_receipt) ((λ id h. absurd (cc h)), refl)
      | inr e ↦ elim (Result-cases (one_or_none (select (has_provider_id pid) db.messages))) [
        | inr (f, several) ↦ rw (e, several, apply_receipt) ((λ id h. absurd (cc h)), refl)
        | inl (none, found) ↦ rw (e, found, apply_receipt) ((λ id h. absurd (cc h)), refl)
        | inl (some m, found) ↦
            rw (e, found, apply_receipt)
              ((λ id h. mark_delivered-AreDelivered pid now m db found), refl)
      ]
    ]
