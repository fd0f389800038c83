-- ===== src/Providers/Dev.antt =====
-- app/sms_relay/providers/dev.py and the choice of the provider in app/sms_relay/providers/__init__.py.
use sms_relay.Common.{
  ℕ, ◌≡◌, refl, inl, inr, Bool, false, ◌||◌, Option, none, some, [], ◌∷◌, ◌++◌, map, arith, ◌==◌,
  if◌then◌else◌, ==_iff, Bool-cases, take, All, All-append, All-take, All-map, All-image, Text,
  text, str_eq, is_empty,
}
use sms_relay.Common.Dict.{Dict, insert}
use sms_relay.Common.Json.{str}
use sms_relay.Common.Result.{Result, ok, raise, value_error, ◌>>=◌}
use sms_relay.Config.{Settings, rstrip_slash}
use sms_relay.Models.{MessageStatus}
use sms_relay.Providers.{SendOutcome, accepted}

pub data Provider : Type 0 where
  dev_provider : (output_dir : Text) → Provider
  android_gateway_provider : (url user password : Text) → Provider

-- AndroidGatewayProvider.__init__
unfoldable pub new_android_gateway : (base_url user password : Text) → Result Provider
unfolding rstrip_slash
new_android_gateway base_url user password =
    if is_empty base_url
    then raise value_error
    else ok (android_gateway_provider (rstrip_slash base_url) user password)

-- The choice of the class.
unfoldable pub made_provider : Settings → Result Provider
unfolding new_android_gateway
made_provider settings =
    if str_eq settings.provider (text "dev")
    then ok (dev_provider settings.dev_output_dir)
    else new_android_gateway settings.gateway_url settings.gateway_user settings.gateway_password

-- `get_provider`: the provider, and the global that holds it.
unfoldable pub get_provider : Settings → Option Provider → Result (Provider × Option Provider)
unfolding made_provider
get_provider settings (some held) = ok (held, some held)
get_provider settings none = made_provider settings >>= λ (made : Provider). ok (made, some made)

-- Provider.fetch_status, which DevProvider inherits.
abbrev pub dev_fetch_status : Text → Option (Option MessageStatus)
dev_fetch_status provider_message_id = some none

-- `close_provider`
unfoldable pub close_provider : Option Provider → Option Provider
close_provider held = none

-- A character of re.sub(r"[^\w+-]", "_", to_number); `is_word` is `\w`.
module _ (is_word : ℕ → Bool) where
  unfoldable pub safe_char : ℕ → ℕ
  safe_char c = if is_word c || c == b'+' || c == b'-' then c else b'_'

  -- f"{stamp}_{safe}.txt"
  unfoldable pub file_name : Text → Text → Text
  unfolding safe_char
  file_name stamp to_number =
      stamp ++ (text "_" ++ (take 32 (map safe_char to_number) ++ text ".txt"))

  -- DevProvider.send, on the files of the output directory by their names.
  unfoldable pub dev_send :
      (stamp uuid4 to_number body : Text) → Dict Text → SendOutcome × Dict Text
  unfolding file_name
  dev_send stamp uuid4 to_number body files = (
    accepted (str (text "dev-" ++ uuid4)),
    insert (file_name stamp to_number)
        (text "To: " ++ (to_number ++ (text "\n\n" ++ (body ++ text "\n")))) files,
  )

  safe_char_apart : is_word b'/' ≡ false → (c : ℕ) → (safe_char c == b'/') ≡ false
  unfolding safe_char
  safe_char_apart h c = elim (Bool-cases (c == b'/')) [
    | inl slash ↦ rw ((==_iff c b'/').0 slash, h) refl
    | inr other ↦ ground (arith, other)
  ]

  -- A name of a file that the dev provider writes holds no slash, whatever the recipient is, where the
  -- stamp holds none and a slash is no word character.
  pub file_name_stays :
      (stamp to_number : Text)
      → is_word b'/' ≡ false
      → All (λ c. (c == b'/') ≡ false) stamp
      → All (λ c. (c == b'/') ≡ false) (file_name stamp to_number)
  unfolding file_name text
  file_name_stays stamp to_number h s =
      let P : ℕ → Type 0 = λ c. (c == b'/') ≡ false in
      let safe = All-map P safe_char to_number (apart to_number) in
      All-append P stamp _ s (
        refl,
        All-append P (take 32 (map safe_char to_number)) (text ".txt") (All-take P 32 _ safe)
            (refl, (refl, (refl, (refl, tt)))),
      )
    where
      apart : (s : Text) → All-image (λ c. (c == b'/') ≡ false) safe_char s
      apart [] = tt
      apart (c ∷ s) = (safe_char_apart h c, apart s)
