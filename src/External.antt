-- ===== src/External.antt =====
-- What the program calls and does not implement: libphonenumber, regular expressions, HMAC, the
-- JSON reader, ISO dates, and the database driver's binding of values.
use sms_relay.Common.{ℕ, ◌⊎◌, Bool, Option, Text}
use sms_relay.Common.Json.{Json}

-- What `json.loads` does with a body: a value, a JSONDecodeError, or another ValueError (bytes that
-- are no UTF-8, an integer of more than 4300 digits).
pub data Loaded : Type 0 where
  loaded : Json → Loaded
  malformed undecodable : Loaded

pub record External : Type 1 where
  -- phonenumbers.parse; on the left, the text of a NumberParseException
  pub PhoneNumber : Type 0
  pub parse : Text → Text → Text ⊎ PhoneNumber
  pub is_valid_number : PhoneNumber → Bool
  pub format_number : PhoneNumber → Text
  -- repr() of a str
  pub text_repr : Text → Text
  -- re.search on a pattern and a text, None for a pattern that does not compile
  pub re_search : Text → Text → Option Bool
  -- hmac.new(secret, body, sha256).hexdigest(), and sha256(body).hexdigest()
  pub hmac_sha256 : Text → Text → Text
  pub sha256 : Text → Text
  pub loads : Text → Loaded
  -- str() of a value that is no str
  pub json_str : Json → Text
  -- what the driver stores in a text column for a number or a Boolean; None for the OverflowError of
  -- an integer that takes more than 64 bits
  pub bind_text : Json → Option Text
  -- datetime.fromisoformat of a text, in UTC; None for a ValueError
  pub fromisoformat : Text → Option ℕ
  -- whether the datetime that fromisoformat makes of a text has a time zone
  pub names_zone : Text → Bool
  -- datetime.isoformat of a time
  pub isoformat : ℕ → Text
  -- str.isdigit on one character
  pub isdigit : ℕ → Bool
