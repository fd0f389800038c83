-- ===== src/Worker/Backoff.antt =====
-- The schedule of retries (app/sms_relay/worker.py, backoff_seconds).
use sms_relay.Common.{ℕ, zero, suc, ◌-◌, ◌*◌, ◌^◌, ◌≤◌, ◌≡◌, refl, arith}
use native.Mathlib.Nat.{pow-suc, pow-le-pow_right}
use sms_relay.Worker.{backoff_seconds}

-- Doubling from 30 seconds up to 8 minutes, and 15 minutes from then on.
abbrev pub schedule : ℕ → ℕ
schedule zero = 30
schedule (suc zero) = 30
schedule (suc (suc zero)) = 60
schedule (suc (suc (suc zero))) = 120
schedule (suc (suc (suc (suc zero)))) = 240
schedule (suc (suc (suc (suc (suc zero))))) = 480
schedule (suc (suc (suc (suc (suc (suc n)))))) = 900

one-le-two_pow : (n : ℕ) → 1 ≤ 2 ^ n
one-le-two_pow zero = omega arith
one-le-two_pow (suc n) = omega (arith, one-le-two_pow n, pow-suc 2 n)

past_the_cap : (attempts : ℕ) → 6 ≤ attempts → 900 ≤ 30 * 2 ^ (attempts - 1)
past_the_cap attempts h =
    let at_least_32 : 2 ^ 5 ≤ 2 ^ (attempts - 1) =
      pow-le-pow_right (omega arith) {i = 5} {j = attempts - 1} (omega arith) in
    omega (arith, at_least_32)

-- The delay before each retry, in seconds, for every number of attempts: 30, 60, 120, 240, 480, and
-- 900 from the sixth on.
pub backoff_seconds-schedule : (attempts : ℕ) → backoff_seconds attempts ≡ schedule attempts
unfolding backoff_seconds
backoff_seconds-schedule zero = refl
backoff_seconds-schedule (suc zero) = refl
backoff_seconds-schedule (suc (suc zero)) = refl
backoff_seconds-schedule (suc (suc (suc zero))) = refl
backoff_seconds-schedule (suc (suc (suc (suc zero)))) = refl
backoff_seconds-schedule (suc (suc (suc (suc (suc zero))))) = refl
backoff_seconds-schedule (suc (suc (suc (suc (suc (suc n)))))) =
    omega (arith, past_the_cap (suc (suc (suc (suc (suc (suc n)))))) (omega arith))

pub backoff_seconds_bounds :
    (attempts : ℕ) → (30 ≤ backoff_seconds attempts) × (backoff_seconds attempts ≤ 900)
unfolding backoff_seconds
backoff_seconds_bounds attempts = omega (arith, one-le-two_pow (attempts - 1))
