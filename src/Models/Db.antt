-- ===== src/Models/Db.antt =====
-- The database as the ORM sees it: the rows of the two tables, the constraints that a commit
-- checks, and updates of one row by its primary key (app/sms_relay/models.py).
use sms_relay.Common.{
  ℕ, ◌≡◌, refl, Bool, true, false, ◌&&◌, ◌||◌, Option, none, some, List, [], ◌∷◌, ◌++◌, leb,
  if◌then◌else◌, any, update, Text, str_eq, str_eq_comm,
}
pub mod Constraints
pub mod Growth
pub mod Keys
use sms_relay.Models.{Message, WebhookDelivery}

pub record Db : Type 0 where
  pub messages : List Message
  pub deliveries : List WebhookDelivery

-- A NULL equals nothing.
abbrev pub opt_eq : Option Text → Option Text → Bool
opt_eq (some a) (some b) = str_eq a b
opt_eq _ _ = false

pub opt_eq_comm : (a b : Option Text) → opt_eq a b ≡ opt_eq b a
opt_eq_comm none none = refl
opt_eq_comm none (some b) = refl
opt_eq_comm (some a) none = refl
opt_eq_comm (some a) (some b) = str_eq_comm a b

-- A column that `default=None` or a past time makes due: `IS NULL OR <= now`.
abbrev pub is_due : Option ℕ → ℕ → Bool
is_due none now = true
is_due (some t) now = leb t now

-- The primary key, or uq_messages_service_idem.
abbrev pub message_clash : Message → Message → Bool
message_clash m n =
    str_eq m.id n.id || (str_eq m.service n.service && opt_eq m.idempotency_key n.idempotency_key)

-- The primary key, or uq_delivery_message_subscriber.
abbrev pub delivery_clash : WebhookDelivery → WebhookDelivery → Bool
delivery_clash d e =
    str_eq d.id e.id || (str_eq d.message_id e.message_id && str_eq d.subscriber e.subscriber)

-- INSERT of rows one after another; None is an IntegrityError, after which nothing is stored.
unfoldable pub insert_all {ℓ} : {A : Type ℓ} → (A → A → Bool) → List A → List A → Option (List A)
insert_all clash [] rows = some rows
insert_all clash (m ∷ ms) rows =
    let rest = insert_all clash ms (rows ++ m ∷ []) in if any (clash m) rows then none else rest

-- UPDATE of the row with an id.
abbrev pub update_message : Text → (Message → Message) → Db → Db
update_message id f db = record db {
  messages = update (λ (m : Message). str_eq m.id id) f db.messages;
}

abbrev pub update_delivery : Text → (WebhookDelivery → WebhookDelivery) → Db → Db
update_delivery id f db = record db {
  deliveries = update (λ (d : WebhookDelivery). str_eq d.id id) f db.deliveries;
}
