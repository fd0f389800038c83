-- ===== src/Models/Lifecycle.antt =====
-- The life of a row of `messages` (app/sms_relay/models.py): what may become of its status, and what
-- never changes. The writers of the table are measured against it.
use sms_relay.Common.{
  ◌≤◌, ◌≡◌, ◌∙◌, Bool, true, false, List, arith, update, All, Pointwise, Pointwise-refl,
  Pointwise-trans, Pointwise-update,
}
use sms_relay.Models.{
  Message, MessageStatus, queued, sending, sent, published, received, is_ntfy, is_terminal,
}

-- What may become of a status: a message that waits or is being sent may become any outbound status,
-- a sent one is delivered or failed, and a terminal status stays.
abbrev pub can_become : MessageStatus → MessageStatus → Bool
can_become queued received = false
can_become queued _ = true
can_become sending received = false
can_become sending _ = true
can_become sent sent = true
can_become sent MessageStatus.delivered = true
can_become sent MessageStatus.failed = true
can_become sent _ = false
can_become MessageStatus.delivered MessageStatus.delivered = true
can_become MessageStatus.delivered _ = false
can_become MessageStatus.failed MessageStatus.failed = true
can_become MessageStatus.failed _ = false
can_become published published = true
can_become published _ = false
can_become received received = true
can_become received _ = false

-- What a caller handed over, and where it goes.
pub record IsSameMessage (m n : Message) : Type 0 where
  pub id : m.id ≡ n.id
  pub direction : m.direction ≡ n.direction
  pub to_number : m.to_number ≡ n.to_number
  pub from_number : m.from_number ≡ n.from_number
  pub body : m.body ≡ n.body
  pub service : m.service ≡ n.service
  pub idempotency_key : m.idempotency_key ≡ n.idempotency_key
  pub notification_topic : m.notification_topic ≡ n.notification_topic
  pub notification_priority : m.notification_priority ≡ n.notification_priority
  pub created_at : m.created_at ≡ n.created_at

-- A lawful change of a row: the message is the same, its status follows the table above, it never
-- goes back to ntfy, and its attempts never fall.
pub record Evolves (m n : Message) : Type 0 where
  pub same : IsSameMessage m n
  pub status : can_become m.status n.status ≡ true
  pub transport : is_ntfy n.transport ≡ true → is_ntfy m.transport ≡ true
  pub attempts : m.attempts ≤ n.attempts

pub can_become_refl : (s : MessageStatus) → can_become s s ≡ true
can_become_refl s = ground arith

can_become_trans :
    (s t u : MessageStatus) → can_become s t ≡ true → can_become t u ≡ true → can_become s u ≡ true
can_become_trans s t u h k = ground arith

pub Evolves-refl : (m : Message) → Evolves m m
Evolves-refl m = ground (arith, can_become_refl m.status)

pub IsSameMessage-refl : (m : Message) → IsSameMessage m m
IsSameMessage-refl m = ground arith

pub IsSameMessage-trans :
    (m n k : Message) → IsSameMessage m n → IsSameMessage n k → IsSameMessage m k
IsSameMessage-trans m n k h g = record {
  id = h.id ∙ g.id;
  direction = h.direction ∙ g.direction;
  to_number = h.to_number ∙ g.to_number;
  from_number = h.from_number ∙ g.from_number;
  body = h.body ∙ g.body;
  service = h.service ∙ g.service;
  idempotency_key = h.idempotency_key ∙ g.idempotency_key;
  notification_topic = h.notification_topic ∙ g.notification_topic;
  notification_priority = h.notification_priority ∙ g.notification_priority;
  created_at = h.created_at ∙ g.created_at;
}

pub Evolves-trans : (m n k : Message) → Evolves m n → Evolves n k → Evolves m k
Evolves-trans m n k h g = record {
  same = IsSameMessage-trans m n k h.same g.same;
  status = can_become_trans m.status n.status k.status h.status g.status;
  transport = λ e. h.transport (g.transport e);
  attempts = omega (arith, h.attempts, g.attempts);
}

-- A terminal status is never left.
pub Evolves-is_terminal :
    (m n : Message) → Evolves m n → is_terminal m.status ≡ true → n.status ≡ m.status
Evolves-is_terminal m n h t = terminal_stays m.status n.status t h.status
  where
    terminal_stays : (s u : MessageStatus) → is_terminal s ≡ true → can_become s u ≡ true → u ≡ s
    terminal_stays s u t k = ground arith

-- Every row is still there, in its place, and has evolved.
abbrev pub Evolve : List Message → List Message → Type 0
Evolve = Pointwise Evolves

pub Evolve-refl : (rows : List Message) → Evolve rows rows
Evolve-refl = Pointwise-refl Evolves Evolves-refl

pub Evolve-trans : (a b c : List Message) → Evolve a b → Evolve b c → Evolve a c
Evolve-trans = Pointwise-trans Evolves Evolves-trans

pub Evolve-update :
    (p : Message → Bool) (f : Message → Message) (rows : List Message)
    → All (λ m. p m ≡ true → Evolves m (f m)) rows
    → Evolve rows (update p f rows)
Evolve-update = Pointwise-update Evolves Evolves-refl
