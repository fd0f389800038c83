-- ===== src/Health.antt =====
-- app/sms_relay/routes/health.py: the two health answers.
use sms_relay.Common.{
  ℕ, ◌≡◌, refl, ap, ◌↔◌, inl, inr, Bool, true, false, ◌&&◌, not, ◌++◌, arith, ◌==◌, if◌then◌else◌,
  ==_iff, Bool-cases, &&-eq-true, Text, text, str_eq, str_eq_iff, is_empty,
}
use sms_relay.Common.Int.{ℤ, pos, negsuc}
use sms_relay.Common.Result.{other_error, Result, ok, raise, ◌>>=◌, ok_injective}
use sms_relay.Config.{Settings}
use sms_relay.Models.Db.{Db}
use sms_relay.Providers.{HttpOutcome, http_error, broken, response}
use sms_relay.Worker.Upkeep.{queue_depth}

pub record HealthResponse : Type 0 where
  pub status : Text
  pub provider : Text
  pub database : Bool
  pub queued : ℤ

-- `healthy` (app/sms_relay/db.py), by what `SELECT 1` comes to.
unfoldable pub healthy : Result (Unit {0}) → Bool
healthy (ok _) = true
healthy (raise e) = false

unfoldable pub health : Settings → Result (Unit {0}) → Db → HealthResponse
unfolding queue_depth healthy
health settings selected db =
    let db_ok : Bool = healthy selected in
    record {
      status = if db_ok then text "ok" else text "degraded";
      provider = settings.provider;
      database = db_ok;
      queued = if db_ok then pos (queue_depth db) else negsuc 0;
    }

-- The status in the body, and the status code.
abbrev pub Answer : Type 0
Answer = Text × ℕ

abbrev pub available : Answer
available = (text "ok", 200)

abbrev pub unavailable : Answer
unavailable = (text "unavailable", 503)

-- Whether the gateway is configured.
unfoldable pub has_gateway : Settings → Bool
has_gateway settings =
    str_eq settings.provider (text "android_gateway") && not (is_empty settings.gateway_url)

-- The answer of the gateway; a TimeoutError counts as an `http_error`.
unfoldable pub probe : HttpOutcome → Result Bool
probe (http_error exc) = ok false
probe broken = raise other_error
probe (response status_code body) = ok (status_code == 200)

-- `gateway_health`; `fetch` is what a GET of a URL comes to.
unfoldable pub gateway_health : Settings → (Text → HttpOutcome) → Result Answer
unfolding has_gateway probe
gateway_health settings fetch =
    if has_gateway settings
    then probe (fetch (settings.gateway_url ++ text "/"))
      >>= (λ reached. ok (if reached then available else unavailable))
    else ok unavailable

probe-true : (o : HttpOutcome) → probe o ≡ ok true → (body : Text) × (o ≡ response 200 body)
unfolding probe
probe-true (http_error exc) h = absurd (cc (ok_injective _ _ h))
probe-true broken h = absurd (cc h)
probe-true (response status_code body) h =
    (body, ap (λ c. response c body) ((==_iff status_code 200).0 (ok_injective _ _ h)))

codes_apart {ℓ} : {X : Type ℓ} → ◌≡◌ {A = ℕ} 503 200 → X
codes_apart h = absurd (cc (ap (λ n. n == 200) h))

ok_answer :
    (r : Result Bool)
    → (r >>= λ b. ok (if b then available else unavailable)) ≡ ok available
    → r ≡ ok true
ok_answer (raise e) h = absurd (cc h)
ok_answer (ok true) h = refl
ok_answer (ok false) h = codes_apart (ap (λ (a : Answer). a.1) (ok_injective _ _ h))

-- The gateway is told to be there exactly where it is the provider, has a URL, and answers a GET of its
-- root with 200, whatever else it answers.
pub gateway_health_iff :
    (settings : Settings) (fetch : Text → HttpOutcome)
    → (gateway_health settings fetch ≡ ok available) ↔ (
        (settings.provider ≡ text "android_gateway")
        × (is_empty settings.gateway_url ≡ false)
        × ((body : Text) × (fetch (settings.gateway_url ++ text "/") ≡ response 200 body)))
unfolding gateway_health has_gateway str_eq text
gateway_health_iff settings fetch = (there, back)
  where
    there :
        gateway_health settings fetch ≡ ok available
        → (settings.provider ≡ text "android_gateway")
          × (is_empty settings.gateway_url ≡ false)
          × ((body : Text) × (fetch (settings.gateway_url ++ text "/") ≡ response 200 body))
    there h = elim (Bool-cases (has_gateway settings)) [
      | inr missing ↦ absurd (cc (ok_answer (ok false) (rw missing at h)))
      | inl found ↦
          let (chosen, url) = &&-eq-true _ _ found in
          (
            (str_eq_iff settings.provider (text "android_gateway")).0 chosen,
            ground (arith, url),
            probe-true _ (ok_answer _ (rw found at h)),
          )
    ]

    back :
        (settings.provider ≡ text "android_gateway")
          × (is_empty settings.gateway_url ≡ false)
          × ((body : Text) × (fetch (settings.gateway_url ++ text "/") ≡ response 200 body))
        → gateway_health settings fetch ≡ ok available
    back (chosen, url, (body, answered)) =
        rw (chosen, url, answered, gateway_health, has_gateway) refl
