-- ===== src/Payload/Signing.antt =====
-- The signature of a delivery, as a receiver checks it (app/sms_relay/webhooks.py and
-- app/sms_relay/auth.py).
use sms_relay.Common.{
  ℕ, ◌≡◌, refl, ap, ◌∙◌, Bool, true, false, ◌&&◌, ◌||◌, none, some, [], ◌∷◌, ◌++◌, reverse, arith,
  leb, all, Text, text, str_eq_refl, is_empty, is_space, strip, starts_with, remove_prefix,
  is_ascii,
}
use mathlib.Core.List.{reverse-reverse, reverse-cons}
use sms_relay.Auth.{header_or, presented_signature, sign, compare_digest, verify_inbound_signature}
use sms_relay.Common.Result.{ok}
use sms_relay.Common.Strings.{lstrip}
use sms_relay.Config.{Settings, Subscriber}
use sms_relay.External.{External}
use sms_relay.Models.{Message, WebhookDelivery}
use sms_relay.Payload.{payload, request_of}

-- The characters of a hexdigest.
abbrev pub is_hex : ℕ → Bool
is_hex c = (leb 48 c && leb c 57) || (leb 97 c && leb c 102)

lstrip_hex : (c : ℕ) (s : Text) → is_hex c ≡ true → lstrip (c ∷ s) ≡ c ∷ s
unfolding lstrip is_space
lstrip_hex c s h = ground (arith, h)

lstrip_hexes : (s : Text) → all is_hex s ≡ true → lstrip s ≡ s
unfolding lstrip
lstrip_hexes [] h = refl
lstrip_hexes (c ∷ s) h = lstrip_hex c s (ground (arith, h))

all-append : (s t : Text) → all is_hex s ≡ true → all is_hex t ≡ true → all is_hex (s ++ t) ≡ true
all-append [] t h k = k
all-append (c ∷ s) t h k = ground (arith, all-append s t, h, k)

all-reverse : (s : Text) → all is_hex s ≡ true → all is_hex (reverse s) ≡ true
all-reverse [] h = refl
all-reverse (c ∷ s) h =
    rw (reverse-cons)
      (all-append (reverse s) (c ∷ []) (all-reverse s (ground (arith, h))) (ground (arith, h)))

pub strip_hexes : (s : Text) → all is_hex s ≡ true → strip s ≡ s
unfolding strip
strip_hexes s h =
    rw (lstrip_hexes s h, lstrip_hexes (reverse s) (all-reverse s h)) (reverse-reverse s)

-- No hexdigest begins as `sha256=` does.
remove_prefix_hexes : (s : Text) → all is_hex s ≡ true → remove_prefix (text "sha256=") s ≡ s
unfolding remove_prefix starts_with text
remove_prefix_hexes [] h = refl
remove_prefix_hexes (c ∷ s) h = ground (arith, h)

is_ascii_hexes : (s : Text) → all is_hex s ≡ true → is_ascii s ≡ true
is_ascii_hexes [] h = refl
is_ascii_hexes (c ∷ s) h = ground (arith, is_ascii_hexes s, h)

presented_digest :
    (body digest : Text)
    → all is_hex digest ≡ true
    → presented_signature
        (record { body = body; x_signature = some digest; x_hub_signature = none })
      ≡ digest
unfolding presented_signature header_or remove_prefix text strip
presented_digest body [] h = refl
presented_digest body (c ∷ s) h =
    ap (remove_prefix (text "sha256=")) (strip_hexes (c ∷ s) h) ∙ remove_prefix_hexes (c ∷ s) h

digest_verified :
    (x : External) (receiver : Settings) (body digest : Text)
    → all is_hex digest ≡ true
    → is_empty digest ≡ false
    → is_empty receiver.webhook_secret ≡ false
    → sign x body receiver.webhook_secret ≡ digest
    → verify_inbound_signature x receiver
        (record { body = body; x_signature = some digest; x_hub_signature = none })
      ≡ ok body
unfolding verify_inbound_signature compare_digest
digest_verified x receiver body digest hex some_digits secret signed =
    ground (
      arith,
      presented_digest body digest hex,
      is_ascii_hexes digest hex,
      str_eq_refl digest,
      signed,
    )

-- A delivery to a subscriber with a secret passes the check of a receiver that has the same secret and
-- checks signatures as the inbound webhook does, where a hexdigest is a text of hexadecimal digits
-- that is not empty.
pub request_verified :
    (x : External) (receiver : Settings) (sub : Subscriber) (d : WebhookDelivery)
    (message : Message)
    → ((secret body : Text) → all is_hex (x.hmac_sha256 secret body) ≡ true)
    → ((secret body : Text) → is_empty (x.hmac_sha256 secret body) ≡ false)
    → is_empty sub.secret ≡ false
    → receiver.webhook_secret ≡ sub.secret
    → verify_inbound_signature x receiver (record {
      body = (request_of x sub d message).content;
      x_signature = (request_of x sub d message).x_signature;
      x_hub_signature = none;
    })
      ≡ ok (payload x message)
unfolding request_of sign
request_verified x receiver sub d message hex some_digits secret same =
    rw (secret, request_of)
      (digest_verified x receiver (payload x message) (x.hmac_sha256 sub.secret (payload x message))
        (hex sub.secret (payload x message)) (some_digits sub.secret (payload x message))
        (rw same secret) (ap (λ key. x.hmac_sha256 key (payload x message)) same))
