-- ===== src/Inbound/Growing.antt =====
-- The inbound webhook loses no message (app/sms_relay/routes/inbound.py).
use sms_relay.Common.{ℕ, [], ◌∷◌, arith, Text, str_eq}
use sms_relay.Auth.{SignedRequest}
use sms_relay.Config.{Settings}
use sms_relay.External.{External}
use sms_relay.Inbound.{inbound_webhook}
use sms_relay.Inbound.Changes.{AllowsInbound, inbound_webhook-allowed}
use sms_relay.Models.{Message, MessageStatus}
use sms_relay.Models.Db.{Db}
use sms_relay.Models.Db.Growth.{Grows, Grows-of_Keyed, Grows-of_append}
use sms_relay.Models.Db.Keys.{Keyed-refl, Keyed-update}

Grows-AllowsInbound : AllowsInbound Grows
Grows-AllowsInbound = record {
  unchanged = λ db. Grows-of_Keyed db db (Keyed-refl db);
  appended = λ m db db' fresh e. Grows-of_append db db' (m ∷ []) e;
  marked = λ now m db. Grows-of_Keyed db _ (
      Keyed-update (λ (k : Message). str_eq k.id m.id)
        (λ row. record row { status = MessageStatus.delivered; updated_at = now }) db
        (λ k. ground arith));
}

pub inbound_webhook-Grows :
    (x : External) (settings : Settings) (now : ℕ) (id : Text) (uuid4 : ℕ → Text)
    (request : SignedRequest) (seen db : Db)
    → Grows db (inbound_webhook x settings now id uuid4 request seen db).1
inbound_webhook-Grows = inbound_webhook-allowed Grows Grows-AllowsInbound
