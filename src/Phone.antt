-- ===== src/Phone.antt =====
-- app/sms_relay/phone.py: normalization to E.164, and the redaction of numbers in logs.
use sms_relay.Common.{
  ℕ, ◌-◌, inl, inr, Bool, not, Option, none, some, [], ◌∷◌, ◌++◌, leb, if◌then◌else◌, length,
  replicate, select, Text, text, is_empty, strip, last_n,
}
use sms_relay.Common.Json.{Json, str, truthy}
use sms_relay.Common.Result.{Result, ok, raise, invalid_phone_number, attribute_error}
use sms_relay.Config.{Settings}
use sms_relay.External.{External}
pub mod Redaction

module _ (x : External) (settings : Settings) where
  open x use {PhoneNumber, parse, is_valid_number, format_number, text_repr}

  -- `normalize(raw)`; no caller names a region.
  unfoldable pub normalize : Text → Result Text
  normalize raw =
      let candidate = strip raw in
      if is_empty candidate
      then raise (invalid_phone_number (text "phone number is empty"))
      else elim (parse candidate settings.default_region) [
        | inl exc ↦ raise (
            invalid_phone_number
              (text "could not parse " ++ (text_repr candidate ++ (text ": " ++ exc))))
        | inr parsed ↦
            if is_valid_number parsed
            then ok (format_number parsed)
            else raise
                (invalid_phone_number (text_repr candidate ++ text " is not a valid phone number"))
      ]

  -- `normalize` at a value of a JSON document: what is no text has no `strip`.
  unfoldable pub normalize_json : Json → Result Text
  unfolding normalize
  normalize_json (str s) = normalize s
  normalize_json v =
      if truthy v
      then raise attribute_error
      else raise (invalid_phone_number (text "phone number is empty"))

abbrev pub star : ℕ
star = b'*'

-- `redact` once the digits are picked out.
unfoldable pub mask : Text → Text
mask digits =
    if leb (length digits) 4
    then replicate (length digits) star
    else replicate (length digits - 4) star ++ last_n 4 digits

-- `redact(number)`; the digits are those of `str.isdigit`.
unfoldable pub redact : (ℕ → Bool) → Option Text → Text
unfolding mask
redact isdigit none = text "<none>"
redact isdigit (some []) = text "<none>"
redact isdigit (some (c ∷ s)) = mask (select isdigit (c ∷ s))
