-- ===== src/Auth/Keys.antt =====
-- The scan over all configured keys against a lookup of one (app/sms_relay/auth.py).
use sms_relay.Common.{
  ◌≡◌, refl, ◌↔◌, true, false, Option, none, some, [], ◌∷◌, arith, Option-cases, All, Text,
  str_eq_iff, str_eq_comm, is_empty, is_ascii,
}
use sms_relay.Common.Dict.{Dict, lookup, IsDict}
use sms_relay.Common.Result.{ok}
use sms_relay.Config.{Settings}
use sms_relay.Auth.{scan_keys, presented_key, require_api_key}

abbrev pub HasAsciiKeys : Dict Text → Type 0
HasAsciiKeys keys = All (λ (e : Text × Text). is_ascii e.0 ≡ true) keys

abbrev found_or : Option Text → Text → Text
found_or none d = d
found_or (some v) _ = v

scan_keys_missed :
    (p m : Text) (keys : Dict Text)
    → is_ascii p ≡ true
    → HasAsciiKeys keys
    → lookup p keys ≡ none
    → scan_keys p m keys ≡ ok m
unfolding scan_keys
scan_keys_missed p m [] a h e = refl
scan_keys_missed p m ((k, v) ∷ keys) a h e =
    ground (arith, scan_keys_missed p m keys a h.1, str_eq_comm p k)

-- Over keys that are ASCII and distinct, the scan that visits them all finds what a lookup finds.
scan_keys-lookup :
    (p m : Text) (keys : Dict Text)
    → is_ascii p ≡ true
    → HasAsciiKeys keys
    → IsDict keys
    → scan_keys p m keys ≡ ok (found_or (lookup p keys) m)
unfolding scan_keys
scan_keys-lookup p m [] a h d = refl
scan_keys-lookup p m ((k, v) ∷ keys) a h d = ground (
  arith,
  scan_keys-lookup p m keys a h.1 d.1,
  scan_keys_missed p v keys a h.1,
  str_eq_comm p k,
  str_eq_iff k p,
)

-- Where the presented key and the configured ones are ASCII and no key is configured twice, a
-- caller passes as a service exactly when the presented key is not empty, a lookup of it among the
-- configured keys finds that service, and the service's name is not empty.
pub require_api_key_iff :
    (settings : Settings) (authorization x_api_key : Option Text) (service : Text)
    → is_ascii (presented_key authorization x_api_key) ≡ true
    → HasAsciiKeys settings.api_keys
    → IsDict settings.api_keys
    → (require_api_key settings authorization x_api_key ≡ ok service) ↔ (
        (is_empty (presented_key authorization x_api_key) ≡ false)
        × (lookup (presented_key authorization x_api_key) settings.api_keys ≡ some service)
        × (is_empty service ≡ false))
unfolding require_api_key
require_api_key_iff settings authorization x_api_key service a h d = ground (
  arith,
  scan_keys-lookup (presented_key authorization x_api_key) [] settings.api_keys a h d,
  Option-cases (lookup (presented_key authorization x_api_key) settings.api_keys),
)
