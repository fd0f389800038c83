-- ===== src/Payload.antt =====
-- app/sms_relay/webhooks.py, _payload: the JSON text that a subscriber receives, and the request that
-- carries it.
use sms_relay.Common.{
  ℕ, ◌+◌, ◌-◌, ◌/◌, ◌%◌, ◌&&◌, Option, none, some, [], ◌∷◌, ◌++◌, ltb, leb, ◌==◌, if◌then◌else◌,
  Text, text, is_empty,
}
use sms_relay.Auth.{sign}
use sms_relay.Config.{Subscriber}
use sms_relay.External.{External}
use sms_relay.Models.{Message, WebhookDelivery}
pub mod Signing

-- A digit of a \u escape.
unfoldable pub hex_digit : ℕ → ℕ
hex_digit n = if leb n 9 then n + 48 else n + 87

-- \uXXXX
unfoldable pub unicode_escape : ℕ → Text
unfolding hex_digit
unicode_escape u =
    b'\\'
    ∷ b'u'
    ∷ hex_digit (u / 4096 % 16)
    ∷ hex_digit (u / 256 % 16)
    ∷ hex_digit (u / 16 % 16)
    ∷ hex_digit (u % 16)
    ∷ []

-- `json.dumps` of one character: a short escape, itself, or one or two \u escapes.
unfoldable pub escape_char : ℕ → Text
unfolding unicode_escape
escape_char c =
    if c == b'"'
    then b'\\' ∷ b'"' ∷ []
    else if c == b'\\'
    then b'\\' ∷ b'\\' ∷ []
    else if c == 10
    then b'\\' ∷ b'n' ∷ []
    else if c == 13
    then b'\\' ∷ b'r' ∷ []
    else if c == 9
    then b'\\' ∷ b't' ∷ []
    else if c == 12
    then b'\\' ∷ b'f' ∷ []
    else if c == 8
    then b'\\' ∷ b'b' ∷ []
    else if leb 32 c && leb c 126
    then c ∷ []
    else if ltb c 65536
    then unicode_escape c
    else unicode_escape (55296 + (c - 65536) / 1024) ++ unicode_escape (56320 + (c - 65536) % 1024)

unfoldable pub escape : Text → Text
unfolding escape_char
escape [] = []
escape (c ∷ s) = escape_char c ++ escape s

unfoldable pub quoted : Text → Text
unfolding escape
quoted s = b'"' ∷ (escape s ++ b'"' ∷ [])

unfoldable pub quoted_or_null : Option Text → Text
unfolding quoted
quoted_or_null none = text "null"
quoted_or_null (some s) = quoted s

-- `"key":value`
abbrev member : Text → Text → Text
member key value = quoted key ++ (b':' ∷ value)

-- The POST that `deliver` makes.
pub record DeliveryRequest : Type 0 where
  pub url : Text
  pub content : Text
  pub delivery_header : Text
  pub x_signature : Option Text

module _ (x : External) where
  -- `_payload`: the keys of each object are sorted.
  unfoldable pub payload : Message → Text
  unfolding quoted_or_null
  payload m =
      b'{'
      ∷ (member (text "event") (quoted (text "message.received"))
          ++ (b','
              ∷ (member (text "message") (
                    b'{'
                    ∷ (member (text "body") (quoted m.body)
                        ++ (b','
                            ∷ (member (text "from") (quoted_or_null m.from_number)
                                ++ (b','
                                    ∷ (member (text "id") (quoted m.id)
                                        ++ (b','
                                            ∷ (member (text "received_at")
                                                  (quoted (x.isoformat m.created_at))
                                                ++ (b','
                                                    ∷ (member (text "to")
                                                          (quoted_or_null m.to_number)
                                                        ++ text "}"))))))))))
                  ++ text "}")))

  unfoldable pub request_of : Subscriber → WebhookDelivery → Message → DeliveryRequest
  unfolding payload sign
  request_of sub d m = record {
    url = sub.url;
    content = payload m;
    delivery_header = d.id;
    x_signature = if is_empty sub.secret then none else some (sign x (payload m) sub.secret);
  }
