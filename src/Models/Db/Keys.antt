-- ===== src/Models/Db/Keys.antt =====
-- Changes that leave the keys of the rows alone (app/sms_relay/models.py): the primary keys, the
-- columns of the unique constraints, and the foreign key.
use sms_relay.Common.{
  ◌≡◌, refl, sym, ◌∙◌, Bool, true, false, List, [], ◌∷◌, update, All, Pointwise, Pointwise-refl,
  Pointwise-trans, Pointwise-update, Text,
}
use sms_relay.Models.{Message, WebhookDelivery}
use sms_relay.Models.Db.{Db, message_clash, delivery_clash}
use sms_relay.Models.Lifecycle.{IsSameMessage, IsSameMessage-refl, IsSameMessage-trans}
use sms_relay.Models.Db.Constraints.{IsDistinct, is_stored, IsSound}

pub record IsSameDelivery (d e : WebhookDelivery) : Type 0 where
  pub id : d.id ≡ e.id
  pub message_id : d.message_id ≡ e.message_id
  pub subscriber : d.subscriber ≡ e.subscriber

pub IsSameDelivery-refl : (d : WebhookDelivery) → IsSameDelivery d d
IsSameDelivery-refl d = record { id = refl; message_id = refl; subscriber = refl }

pub IsSameDelivery-trans :
    (d e f : WebhookDelivery) → IsSameDelivery d e → IsSameDelivery e f → IsSameDelivery d f
IsSameDelivery-trans d e f g h = record {
  id = g.id ∙ h.id;
  message_id = g.message_id ∙ h.message_id;
  subscriber = g.subscriber ∙ h.subscriber;
}

-- Every row of both tables is still there, in its place, with its keys.
abbrev pub Keyed : Db → Db → Type 0
Keyed db db' =
    Pointwise IsSameMessage db.messages db'.messages
    × Pointwise IsSameDelivery db.deliveries db'.deliveries

pub Keyed-refl : (db : Db) → Keyed db db
Keyed-refl db = (
  Pointwise-refl IsSameMessage IsSameMessage-refl db.messages,
  Pointwise-refl IsSameDelivery IsSameDelivery-refl db.deliveries,
)

pub Keyed-trans : (a b c : Db) → Keyed a b → Keyed b c → Keyed a c
Keyed-trans a b c g h = (
  Pointwise-trans IsSameMessage IsSameMessage-trans a.messages b.messages c.messages g.0 h.0,
  Pointwise-trans IsSameDelivery IsSameDelivery-trans a.deliveries b.deliveries c.deliveries g.1
      h.1,
)

pub Keyed-update :
    (p : Message → Bool) (f : Message → Message) (db : Db)
    → ((m : Message) → IsSameMessage m (f m))
    → Keyed db (record db { messages = update p f db.messages })
Keyed-update p f db same = (
  Pointwise-update IsSameMessage IsSameMessage-refl p f db.messages (everywhere db.messages),
  Pointwise-refl IsSameDelivery IsSameDelivery-refl db.deliveries,
)
  where
    everywhere : (rows : List Message) → All (λ m. p m ≡ true → IsSameMessage m (f m)) rows
    everywhere [] = tt
    everywhere (m ∷ rows) = ((λ _. same m), everywhere rows)

-- A constraint on columns that are left alone.
module _ {A : Type 0} (clash : A → A → Bool) (R : A → A → Type 0)
    (fixed : (a a' b b' : A) → R a a' → R b b' → clash a b ≡ clash a' b') where
  Pointwise-apart :
      (m m' : A) (xs ys : List A)
      → R m m'
      → Pointwise R xs ys
      → All (λ n. clash n m ≡ false) xs
      → All (λ n. clash n m' ≡ false) ys
  Pointwise-apart m m' [] [] r h k = tt
  Pointwise-apart m m' [] (y ∷ ys) r h k = elim h [ ]
  Pointwise-apart m m' (x ∷ xs) [] r h k = elim h [ ]
  Pointwise-apart m m' (x ∷ xs) (y ∷ ys) r h k =
      (sym (fixed x y m m' h.0 r) ∙ k.0, Pointwise-apart m m' xs ys r h.1 k.1)

  Pointwise-IsDistinct :
      (xs ys : List A) → Pointwise R xs ys → IsDistinct clash xs → IsDistinct clash ys
  Pointwise-IsDistinct [] [] h d = tt
  Pointwise-IsDistinct [] (y ∷ ys) h d = elim h [ ]
  Pointwise-IsDistinct (x ∷ xs) [] h d = elim h [ ]
  Pointwise-IsDistinct (x ∷ xs) (y ∷ ys) h d =
      (Pointwise-apart x y xs ys h.0 h.1 d.0, Pointwise-IsDistinct xs ys h.1 d.1)

message_clash_fixed :
    (m m' n n' : Message)
    → IsSameMessage m m'
    → IsSameMessage n n'
    → message_clash m n ≡ message_clash m' n'
message_clash_fixed m m' n n' r s =
    rw (r.id, s.id, r.service, s.service, r.idempotency_key, s.idempotency_key) refl

delivery_clash_fixed :
    (d d' e e' : WebhookDelivery)
    → IsSameDelivery d d'
    → IsSameDelivery e e'
    → delivery_clash d e ≡ delivery_clash d' e'
delivery_clash_fixed d d' e e' r s =
    rw (r.id, s.id, r.message_id, s.message_id, r.subscriber, s.subscriber) refl

is_stored_fixed :
    (id : Text) (xs ys : List Message)
    → Pointwise IsSameMessage xs ys
    → is_stored xs id ≡ is_stored ys id
is_stored_fixed id [] [] h = refl
is_stored_fixed id [] (y ∷ ys) h = elim h [ ]
is_stored_fixed id (x ∷ xs) [] h = elim h [ ]
is_stored_fixed id (x ∷ xs) (y ∷ ys) h = rw (h.0.id, is_stored_fixed id xs ys h.1) refl

Pointwise-IsReferential :
    (xs ys : List Message) (ds es : List WebhookDelivery)
    → Pointwise IsSameMessage xs ys
    → Pointwise IsSameDelivery ds es
    → All (λ d. is_stored xs d.message_id ≡ true) ds
    → All (λ d. is_stored ys d.message_id ≡ true) es
Pointwise-IsReferential xs ys [] [] h k r = tt
Pointwise-IsReferential xs ys [] (e ∷ es) h k r = elim k [ ]
Pointwise-IsReferential xs ys (d ∷ ds) [] h k r = elim k [ ]
Pointwise-IsReferential xs ys (d ∷ ds) (e ∷ es) h k r = (
  rw (sym k.0.message_id) (sym (is_stored_fixed d.message_id xs ys h) ∙ r.0),
  Pointwise-IsReferential xs ys ds es h k.1 r.1,
)

-- The constraints read the keys alone.
pub Keyed-IsSound : (db db' : Db) → Keyed db db' → IsSound db → IsSound db'
Keyed-IsSound db db' k s = record {
  valid = record {
    messages_distinct =
        Pointwise-IsDistinct message_clash IsSameMessage message_clash_fixed db.messages
          db'.messages k.0 s.valid.messages_distinct;
    deliveries_distinct =
        Pointwise-IsDistinct delivery_clash IsSameDelivery delivery_clash_fixed db.deliveries
          db'.deliveries k.1 s.valid.deliveries_distinct;
  };
  referential =
      Pointwise-IsReferential db.messages db'.messages db.deliveries db'.deliveries k.0 k.1
        s.referential;
}
