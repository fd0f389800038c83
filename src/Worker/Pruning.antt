-- ===== src/Worker/Pruning.antt =====
-- What pruning removes (app/sms_relay/worker.py, prune_loop).
use sms_relay.Common.{
  ℕ, ◌≡◌, refl, Bool, true, false, not, List, [], ◌∷◌, arith, any, select, All, str_eq,
}
use sms_relay.Config.{Settings}
use sms_relay.Models.{Message, WebhookDelivery, is_terminal}
use sms_relay.Models.Db.{Db, message_clash, delivery_clash}
use sms_relay.Models.Db.Constraints.{IsValid, select-IsDistinct, IsReferential, is_stored}
use sms_relay.Worker.Upkeep.{is_pruned, prune}

any_of_rest :
    {A : Type 0} (p t : A → Bool) (xs : List A)
    → any p xs ≡ true
    → any p (select t xs) ≡ false
    → any p (select (λ y. not (t y)) xs) ≡ true
any_of_rest p t [] h k = h
any_of_rest p t (y ∷ xs) h k = ground (arith, any_of_rest p t xs)

select_twice :
    (settings : Settings) (now : ℕ) (rows : List Message)
    → select (λ m. not (is_terminal m.status)) (select (λ m. not (is_pruned settings now m)) rows)
      ≡ select (λ m. not (is_terminal m.status)) rows
unfolding is_pruned
select_twice settings now [] = refl
select_twice settings now (m ∷ rows) = ground (arith, select_twice settings now rows)

kept_stored :
    (settings : Settings) (now : ℕ) (rows : List Message) (deliveries : List WebhookDelivery)
    → All (λ (d : WebhookDelivery). is_stored rows d.message_id ≡ true) deliveries
    → All
        (λ (d : WebhookDelivery).
          is_stored (select (λ m. not (is_pruned settings now m)) rows) d.message_id ≡ true)
        (select
          (λ (d : WebhookDelivery).
            not (is_stored (select (is_pruned settings now) rows) d.message_id))
          deliveries)
kept_stored settings now rows [] h = tt
kept_stored settings now rows (d ∷ deliveries) h = ground (
  arith,
  kept_stored settings now rows deliveries h.1,
  any_of_rest (λ (m : Message). str_eq m.id d.message_id) (is_pruned settings now) rows h.0,
)

-- Pruning removes no message that is still on its way, in whatever order they stand, and it leaves the
-- constraints of both tables intact, with the message of every delivery that is left.
pub prune_keeps :
    (settings : Settings) (now : ℕ) (db : Db)
    → IsValid db
    → IsReferential db
    → (select (λ m. not (is_terminal m.status)) (prune settings now db).messages
        ≡ select (λ m. not (is_terminal m.status)) db.messages)
      × IsValid (prune settings now db)
      × IsReferential (prune settings now db)
unfolding prune
prune_keeps settings now db valid parents = (
  select_twice settings now db.messages,
  record {
    messages_distinct =
        select-IsDistinct message_clash (λ m. not (is_pruned settings now m)) db.messages
          valid.messages_distinct;
    deliveries_distinct =
        select-IsDistinct delivery_clash _ db.deliveries valid.deliveries_distinct;
  },
  kept_stored settings now db.messages db.deliveries parents,
)
