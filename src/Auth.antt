-- ===== src/Auth.antt =====
-- app/sms_relay/auth.py: the API key of a caller, and the signature of an inbound webhook.
use sms_relay.Common.{
  Bool, ◌&&◌, not, Option, none, some, [], ◌∷◌, if◌then◌else◌, drop, Text, text, str_eq, is_empty,
  strip, starts_with, remove_prefix, lower, is_ascii,
}
use sms_relay.Common.Dict.{Dict}
use sms_relay.Common.Result.{Result, ok, raise, http, type_error, ◌>>=◌, ◌>>◌, raise_if}
use sms_relay.Config.{Settings}
use sms_relay.External.{External}
pub mod Keys

-- `hmac.compare_digest` on two texts: a TypeError unless both are ASCII.
unfoldable pub compare_digest : Text → Text → Result Bool
compare_digest a b = if is_ascii a && is_ascii b then ok (str_eq a b) else raise type_error

-- `authorization[7:].strip()` or `x_api_key.strip()`; a header that is missing is None.
unfoldable pub presented_key : Option Text → Option Text → Text
presented_key authorization x_api_key =
    let from_header : Text = elim x_api_key [
      | none ↦ []
      | some key ↦ if is_empty key then [] else strip key
    ] in
    elim authorization [
      | none ↦ from_header
      | some value ↦
          if starts_with (lower value) (text "bearer ") then strip (drop 7 value) else from_header
    ]

-- The loop over every configured key; `matched` is the service of the last key that fitted.
unfoldable pub scan_keys : Text → Text → Dict Text → Result Text
unfolding compare_digest
scan_keys presented matched [] = ok matched
scan_keys presented matched ((key, service) ∷ keys) = do
  hit ← compare_digest presented key
  scan_keys presented (if hit then service else matched) keys

unfoldable pub require_api_key : Settings → Option Text → Option Text → Result Text
unfolding scan_keys presented_key
require_api_key settings authorization x_api_key = do
  let presented = presented_key authorization x_api_key
  raise_if (is_empty presented) (http 401 (text "missing API key"))
  matched ← scan_keys presented [] settings.api_keys
  raise_if (is_empty matched) (http 401 (text "invalid API key"))
  ok matched

-- The parts of a request that the signature check reads.
pub record SignedRequest : Type 0 where
  pub body : Text
  pub x_signature : Option Text
  pub x_hub_signature : Option Text

-- `a or b or ""` on headers.
unfoldable pub header_or : Option Text → Text → Text
header_or none other = other
header_or (some []) other = other
header_or (some (c ∷ s)) other = c ∷ s

unfoldable pub presented_signature : SignedRequest → Text
unfolding header_or
presented_signature r =
    remove_prefix (text "sha256=")
      (strip (header_or r.x_signature (header_or r.x_hub_signature [])))

module _ (x : External) where
  -- `sign(body, secret)`
  unfoldable pub sign : Text → Text → Text
  sign body secret = x.hmac_sha256 secret body

  unfoldable pub verify_inbound_signature : Settings → SignedRequest → Result Text
  unfolding presented_signature compare_digest sign
  verify_inbound_signature settings r = do
    raise_if (is_empty settings.webhook_secret)
        (http 503 (text "inbound webhooks are not configured"))
    let presented = presented_signature r
    raise_if (is_empty presented) (http 401 (text "bad signature"))
    same ← compare_digest presented (sign r.body settings.webhook_secret)
    raise_if (not same) (http 401 (text "bad signature"))
    ok r.body
