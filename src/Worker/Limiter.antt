-- ===== src/Worker/Limiter.antt =====
-- app/sms_relay/worker.py, RateLimiter: the sliding window. A time is the event loop's clock, in
-- microseconds.
use sms_relay.Common.{
  ℕ, ◌+◌, ◌-◌, ◌*◌, max, Bool, true, false, Option, none, some, List, [], ◌∷◌, ◌++◌, ltb, leb,
  if◌then◌else◌, length,
}
use sms_relay.Common.Int.{ℤ, max_one}
use sms_relay.Models.{second}
pub mod Pacing
pub mod Reference

abbrev pub window : ℕ
window = 60 * second

pub record RateLimiter : Type 0 where
  pub per_minute : ℕ
  pub sent : List ℕ

unfoldable pub new_limiter : ℤ → RateLimiter
new_limiter per_minute = record { per_minute = max_one per_minute; sent = [] }

-- The inner loop: `popleft` while the oldest time is a window old.
unfoldable pub evict : ℕ → List ℕ → List ℕ
evict now [] = []
evict now (t ∷ ts) = let rest = evict now ts in if leb (t + window) now then rest else t ∷ ts

-- One turn of the outer loop at a reading of the clock: whether it returns.
unfoldable pub turn : RateLimiter → ℕ → RateLimiter × Bool
unfolding evict
turn l now =
    let kept = evict now l.sent in
    if ltb (length kept) l.per_minute
    then (record l { sent = kept ++ now ∷ [] }, true)
    else (record l { sent = kept }, false)

-- How long a turn that does not return sleeps: `max(0.1, 60 - (now - sent[0]))`.
unfoldable pub sleep_time : RateLimiter → ℕ → ℕ
sleep_time l now = elim l.sent [ [] ↦ 100000 | t ∷ _ ↦ max 100000 (t + window - now) ]

-- `acquire` over the readings of its turns; None where it still waits after all of them.
unfoldable pub acquire : RateLimiter → List ℕ → Option RateLimiter
unfolding turn
acquire l [] = none
acquire l (now ∷ readings) =
    let rest = acquire (turn l now).0 readings in
    if (turn l now).1 then some (turn l now).0 else rest

-- The times at which a limiter lets a message pass over many calls, the latest first: each turn of
-- each call takes the next reading.
unfoldable pub passed : RateLimiter → List ℕ → List ℕ → List ℕ
unfolding turn
passed l history [] = history
passed l history (now ∷ readings) =
    passed (turn l now).0 (if (turn l now).1 then now ∷ history else history) readings
