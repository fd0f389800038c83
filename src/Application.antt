-- ===== src/Application.antt =====
-- app/sms_relay/main.py: the start of the process and its end (`lifespan`), with the metrics server that
-- it starts (app/sms_relay/metrics.py).
use sms_relay.Common.{
  ℕ, ◌+◌, ◌-◌, ◌*◌, Bool, true, false, Option, none, some, List, [], ◌∷◌, map, leb, if◌then◌else◌,
  Text, text, strip,
}
use sms_relay.Common.Dict.{lookup}
use sms_relay.Common.Int.{ℤ}
use sms_relay.Common.Result.{Result, ok, raise, value_error, other_error}
use sms_relay.Config.{Settings, Environ, py_int}
use sms_relay.Models.{second}
use sms_relay.Providers.Dev.{Provider, get_provider, close_provider}
use sms_relay.Startup.{Table, init_db}
use sms_relay.Worker.Limiter.{RateLimiter, turn, sleep_time}
pub mod Stranding

pub data LoopTask : Type 0 where
  send_task status_task fanout_task prune_task : LoopTask

pub data TaskState : Type 0 where
  running ended was_cancelled : TaskState

-- What the process holds: the cached provider, the metrics server, the event, and the loops' tasks.
pub record App : Type 0 where
  pub provider : Option Provider
  pub serves_metrics : Bool
  pub stop : Bool
  pub tasks : List (LoopTask × TaskState)

abbrev pub new_tasks : List (LoopTask × TaskState)
new_tasks =
    (send_task, running)
    ∷ (status_task, running)
    ∷ (fanout_task, running)
    ∷ (prune_task, running)
    ∷ []

-- `metrics.start`, where `listens` tells whether a server can be opened at a port.
unfoldable pub start_metrics : Environ → (listens : ℤ → Bool) → Result ℤ
unfolding py_int
start_metrics environ listens =
    let raw : Text = elim (lookup (text "SMS_RELAY_METRICS_PORT") environ) [
      | none ↦ text "9105"
      | some v ↦ v
    ] in
    elim (py_int (strip raw)) [
      | none ↦ raise value_error
      | some port ↦ if listens port then ok port else raise other_error
    ]

-- `lifespan` to its `yield`.
unfoldable pub start_up :
    Settings
    → Environ
    → (listens : ℤ → Bool) → (created : Table) → (found : Option Table) → App
    → Result (Unit {0}) × App
unfolding init_db get_provider start_metrics
start_up settings environ listens created found app = elim (init_db created found) [
  | raise e ↦ (raise e, app)
  | ok _ ↦ elim (get_provider settings app.provider) [
    | raise e ↦ (raise e, app)
    | ok (_, held) ↦ elim (start_metrics environ listens) [
      | raise e ↦ (raise e, record app { provider = held })
      | ok _ ↦ (
        ok tt,
        record { provider = held; serves_metrics = true; stop = false; tasks = new_tasks },
      )
    ]
  ]
]

-- How long after `stop.set()` each loop needs to end by itself; None where it does not.
abbrev pub Rests : Type 0
Rests = LoopTask → Option ℕ

abbrev pub ends_within : ℕ → Option ℕ → Bool
ends_within timeout none = false
ends_within timeout (some n) = leb n timeout

-- When the send loop ends that asks the limiter at `now`, the event being set before it is through:
-- a turn that does not pass the message sleeps first, and the event does not cut the sleep short.
-- `further` is how long the loop needs after that.
unfoldable pub send_loop_end : RateLimiter → (now : ℕ) → (further : Option ℕ) → Option ℕ
unfolding turn sleep_time
send_loop_end l now none = none
send_loop_end l now (some further) =
    let woken = if (turn l now).1 then now else now + sleep_time (turn l now).0 now in
    some (woken + further)

-- How long the loops need after the event is set at `stop_time`.
unfoldable pub loop_rests :
    RateLimiter → (now : ℕ) → (further : Option ℕ) → (stop_time : ℕ) → Rests → Rests
unfolding send_loop_end
loop_rests l now further stop_time others send_task = elim (send_loop_end l now further) [
  | none ↦ none
  | some end ↦ some (end - stop_time)
]
loop_rests l now further stop_time others task = others task

-- `asyncio.wait(tasks, timeout)`
abbrev pub wait_for : ℕ → Rests → LoopTask × TaskState → LoopTask × TaskState
wait_for timeout rests (task, running) =
    (task, if ends_within timeout (rests task) then ended else running)
wait_for timeout rests (task, state) = (task, state)

-- `task.cancel()` of the pending tasks and the `gather`: every loop lets a CancelledError out.
abbrev pub cancel : LoopTask × TaskState → LoopTask × TaskState
cancel (task, running) = (task, was_cancelled)
cancel (task, state) = (task, state)

abbrev pub grace : ℕ
grace = 10 * second

-- `lifespan` from its `finally`; `closed` is what `_provider.aclose()` comes to.
unfoldable pub shut_down : Rests → (closed : Result (Unit {0})) → App → Result (Unit {0}) × App
unfolding close_provider
shut_down rests closed app =
    let stopped = record app {
      serves_metrics = false;
      stop = true;
      tasks = map cancel (map (wait_for grace rests) app.tasks);
    } in
    elim app.provider [
      | none ↦ (ok tt, stopped)
      | some held ↦ elim closed [
        | raise e ↦ (raise e, stopped)
        | ok _ ↦ (ok tt, record stopped { provider = close_provider app.provider })
      ]
    ]
