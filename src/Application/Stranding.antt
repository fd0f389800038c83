-- ===== src/Application/Stranding.antt =====
-- A shutdown while the send loop waits for its limiter (app/sms_relay/main.py, app/sms_relay/worker.py).
use sms_relay.Common.{
  ℕ, ◌+◌, ◌≤◌, ◌<◌, ◌≡◌, refl, sym, ap, subst, inl, inr, Bool, true, false, Option, none, some,
  List, ◌∷◌, map, arith, Option-cases, All, Any, str_eq,
}
use sms_relay.Application.{
  send_task, was_cancelled, App, new_tasks, start_metrics, start_up, Rests, ends_within,
  send_loop_end, loop_rests, wait_for, cancel, grace, shut_down,
}
use sms_relay.Common.Int.{ℤ, before_cutoff}
use sms_relay.Common.Result.{Fault, raise, Result, ok, Result-cases}
use sms_relay.Config.{Settings, Environ}
use sms_relay.External.{External}
use sms_relay.Models.{second, Message, sending}
use sms_relay.Models.Db.{Db}
use sms_relay.Providers.Dev.{get_provider}
use sms_relay.Startup.{Table, init_db}
use sms_relay.Worker.{claim_next, Answers, send_loop}
use sms_relay.Worker.Claiming.{IsClaim, claim_next-IsClaim}
use sms_relay.Worker.Limiter.{RateLimiter, turn, sleep_time, window}
use sms_relay.Worker.Stranded.{claimed-AreHeld, send_loop-AreHeld}

start_up_tasks :
    (settings : Settings) (environ : Environ) (listens : ℤ → Bool) (created : Table)
    (found : Option Table) (app : App) {app' : App}
    → start_up settings environ listens created found app ≡ (ok tt, app')
    → app'.tasks ≡ new_tasks
unfolding start_up
start_up_tasks settings environ listens created found app h =
    elim (Result-cases (init_db created found)) [
      | inr (e, refused) ↦ absurd (failed (rw (refused, start_up) at h))
      | inl (t, upgraded) ↦ elim (Result-cases (get_provider settings app.provider)) [
        | inr (e, refused) ↦ absurd (failed (rw (upgraded, refused, start_up) at h))
        | inl ((p, held), made) ↦ elim (Result-cases (start_metrics environ listens)) [
          | inr (e, refused) ↦ absurd (failed (rw (upgraded, made, refused, start_up) at h))
          | inl (port, opened) ↦ sym (
              ap (λ (q : Result (Unit {0}) × App). q.1.tasks)
                (rw (upgraded, made, opened, start_up) at h))
        ]
      ]
    ]
  where
    failed : {e : Fault} {a b : App} → ◌≡◌ {A = Result (Unit {0}) × App} (raise e, a) (ok tt, b) → ⊥
    failed k = cc (ap (λ (q : Result (Unit {0}) × App). q.0) k)

-- Whatever the provider's end comes to, the tasks are waited for and then cancelled.
shut_down_tasks :
    (rests : Rests) (closed : Result (Unit {0})) (app : App)
    → (shut_down rests closed app).1.tasks ≡ map cancel (map (wait_for grace rests) app.tasks)
unfolding shut_down
shut_down_tasks rests closed app = elim (Option-cases app.provider) [
  | inl nothing ↦ rw (nothing, shut_down) refl
  | inr (held, e) ↦ elim (Result-cases closed) [
    | inl (_, gone) ↦ rw (e, gone, shut_down) refl
    | inr (f, failed) ↦ rw (e, failed, shut_down) refl
  ]
]

-- A turn that does not pass a message sleeps until the oldest one kept leaves the window.
sleeps_out_window :
    (l : RateLimiter) (now t : ℕ) (ts : List ℕ)
    → l.sent ≡ t ∷ ts
    → t + window ≤ now + sleep_time l now
unfolding sleep_time
sleeps_out_window l now t ts kept = rw kept (ground arith)

waits_too_long :
    (l : RateLimiter) (now t : ℕ) (ts : List ℕ) (further : Option ℕ) (stop_time : ℕ) (rests : Rests)
    → (turn l now).1 ≡ false
    → (turn l now).0.sent ≡ t ∷ ts
    → stop_time + grace < t + window
    → ends_within grace (loop_rests l now further stop_time rests send_task) ≡ false
unfolding loop_rests send_loop_end
waits_too_long l now t ts none stop_time rests full kept long = refl
waits_too_long l now t ts (some n) stop_time rests full kept long =
    let slept = sleeps_out_window (turn l now).0 now t ts kept in
    rw full (ground (arith, slept, long))

-- After a start that succeeded, the send loop has claimed a message and, with nothing else committed
-- since, asks the limiter, whose window is full; the oldest of its times leaves the window more than
-- ten seconds after a shutdown begins. However soon the loop would be through after its sleep, the
-- shutdown cancels it; and in all rounds of a next send loop that come before `stuck_after_seconds`
-- have passed since the claim, whatever the outside answers, the message stays in `sending`.
pub shutdown_strands :
    (x : External) (settings : Settings) (environ : Environ) (listens : ℤ → Bool) (created : Table)
    (found : Option Table) (app : App) {app' : App} (claim_time : ℕ) (m : Message) (db db' : Db)
    (l : RateLimiter) (now t : ℕ) (ts : List ℕ) (further : Option ℕ) (stop_time : ℕ)
    (others : Rests) (closed : Result (Unit {0})) (answers : List Answers)
    → start_up settings environ listens created found app ≡ (ok tt, app')
    → claim_next claim_time db ≡ some (m, db')
    → (turn l now).1 ≡ false
    → (turn l now).0.sent ≡ t ∷ ts
    → stop_time + grace < t + window
    → All
        (λ (a : Answers).
          before_cutoff second settings.stuck_after_seconds claim_time a.claim_time ≡ false)
        answers
    → Any
        (λ p. p ≡ (send_task, was_cancelled))
        (shut_down (loop_rests l now further stop_time others) closed app').1.tasks
      × All
          (λ (k : Message).
            str_eq k.id m.id ≡ true → (k.status ≡ sending) × (k.updated_at ≡ claim_time))
          (send_loop x settings answers db').messages
shutdown_strands x settings environ listens created found app {app'} claim_time m db db' l now t ts
      further stop_time others closed answers started taken full kept long early =
    let late = waits_too_long l now t ts further stop_time others full kept long in
    let (row, _, held, stored) =
      subst (IsClaim claim_time db) taken (claim_next-IsClaim claim_time db) in
    (
      rw
          (
            shut_down_tasks (loop_rests l now further stop_time others) closed app',
            start_up_tasks settings environ listens created found app started,
            late,
          )
          (inl refl),
      send_loop-AreHeld x settings m.id claim_time answers db' early
          (rw (stored, held) (claimed-AreHeld x settings row.id claim_time db.messages)),
    )
