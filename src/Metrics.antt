-- ===== src/Metrics.antt =====
-- app/sms_relay/metrics.py: what the monitoring port tells of the messages table. An age is in
-- microseconds here; SQLite computes it as a float of days.
use sms_relay.Common.{
  ℕ, ◌-◌, ◌*◌, ◌/◌, max, Bool, true, false, ◌&&◌, ◌||◌, Option, none, some, List, [], ◌∷◌, ◌++◌,
  leb, if◌then◌else◌, length, select, Text, text, str_eq, decimal,
}
use sms_relay.Models.{
  second, Message, MessageStatus, Transport, sms_fallback, queued, sending, is_outbound, status_eq,
}
use sms_relay.Models.Db.{Db}
pub mod Ages

abbrev pub is_fallback : Transport → Bool
is_fallback sms_fallback = true
is_fallback _ = false

-- `direction='outbound' AND status IN ('queued','sending')`
unfoldable pub is_on_its_way : Message → Bool
is_on_its_way m =
    is_outbound m.direction && (status_eq m.status queued || status_eq m.status sending)

-- max(0, coalesce(max(age), 0)) over rows
unfoldable pub max_age : ℕ → List Message → ℕ
max_age now [] = 0
max_age now (m ∷ rows) = max (now - m.created_at) (max_age now rows)

unfoldable pub oldest_pending : ℕ → Db → ℕ
unfolding is_on_its_way max_age
oldest_pending now db = max_age now (select is_on_its_way db.messages)

-- datetime('now','-1 hour'), which has whole seconds
unfoldable pub hour_ago : ℕ → ℕ
hour_ago now = (now / second - 3600) * second

unfoldable pub failed_last_hour : ℕ → Db → ℕ
unfolding hour_ago
failed_last_hour now db = length (
    select
      (λ (m : Message).
        is_outbound m.direction
        && status_eq m.status MessageStatus.failed
        && leb (hour_ago now) m.updated_at)
      db.messages)

unfoldable pub fallback_last_hour : ℕ → Db → ℕ
unfolding hour_ago
fallback_last_hour now db = length (
    select (λ (m : Message). is_fallback m.transport && leb (hour_ago now) m.created_at)
      db.messages)

-- `collect`: each query reads the clock; `seconds` prints an age.
unfoldable pub collect : (ℕ → Text) → (now at after : ℕ) → Db → Text
unfolding oldest_pending failed_last_hour fallback_last_hour
collect seconds now at after db =
    text "home_relay_oldest_pending_seconds "
    ++ (seconds (oldest_pending now db)
        ++ (text "\nhome_relay_failed_last_hour "
            ++ (decimal (failed_last_hour at db)
                ++ (text "\nhome_relay_fallback_last_hour "
                    ++ (decimal (fallback_last_hour after db) ++ text "\n")))))

-- `Handler.do_GET`: the status and the body, None for the error page of the server. `collected` is
-- None where `collect` raises.
unfoldable pub do_get : Text → Option Text → ℕ × Option Text
do_get path collected =
    if str_eq path (text "/metrics")
    then elim collected [ none ↦ (503, none) | some data' ↦ (200, some data') ]
    else (404, none)
