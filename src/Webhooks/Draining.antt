-- ===== src/Webhooks/Draining.antt =====
-- The rounds of the fan-out, one after the other (app/sms_relay/worker.py).
use sms_relay.Common.{
  ℕ, ◌+◌, ◌-◌, ◌≤◌, ◌<◌, ◌≡◌, refl, sym, subst, ◌≢◌, ◌⊎◌, inl, inr, true, false, Option, none, some,
  List, [], ◌∷◌, arith, leb, Bool-cases, All, str_eq,
}
use sms_relay.Config.{Settings}
use sms_relay.External.{External}
use sms_relay.Models.{WebhookDelivery, is_pending}
use sms_relay.Models.Db.{Db, is_due}
use sms_relay.Models.Db.Constraints.{IsSound}
use sms_relay.Models.Db.Keys.{Keyed-IsSound}
use sms_relay.Payload.{DeliveryRequest}
use sms_relay.Webhooks.{
  PostOutcome, broken, is_due_delivery, due_deliveries, deliver_batch, are_there, fanout_round,
  Round, fanout_loop,
}
use sms_relay.Webhooks.Keys.{fanout_round-Keyed}
use sms_relay.Webhooks.Draining.Attempts.{longest_delay, deliver_batch-fewer}
use sms_relay.Webhooks.Draining.Targets.{due_targets, due_there, due_stored, none_due_left}
use sms_relay.Webhooks.Draining.Work.{
  attempts_left, work, IsReadyBy, AreReadyBy-later, work-fewer, none_left,
}
pub mod Attempts
pub mod Targets
pub mod Work

-- A round in which no request ends in an exception that is no httpx.HTTPError.
abbrev pub IsSane : Round → Type 0
IsSane r = (q : DeliveryRequest) → r.post q ≢ broken

-- The rounds come one after the other, from a time on.
abbrev pub AreLater : ℕ → List Round → Type 0
AreLater t [] = Unit
AreLater t (r ∷ rounds) = (t ≤ r.now) × AreLater r.now rounds

-- How many rounds from a time on stand at least the longest delay apart, taken greedily.
unfoldable pub windows : ℕ → List Round → ℕ
windows t [] = 0
windows t (r ∷ rounds) = elim (leb t r.now) [
  | true ↦ 1 + windows (r.now + longest_delay) rounds
  | false ↦ windows t rounds
]

idle_work :
    (t now : ℕ) (rows : List WebhookDelivery)
    → t ≤ now
    → All (IsReadyBy t) rows
    → All (λ d. is_due_delivery now d ≡ false) rows
    → work rows ≡ 0
unfolding work
idle_work t now [] later ready idle = refl
idle_work t now (d ∷ rows) later ready idle = elim (Bool-cases (is_pending d.status)) [
  | inr done ↦ rw done (omega (arith, idle_work t now rows later ready.1 idle.1))
  | inl waits ↦ absurd (not_due d.next_attempt_at (ready.0 waits).1 (ground (arith, waits, idle.0)))
]
  where
    not_due : (a : Option ℕ) → is_due a t ≡ true → is_due a now ≡ false → ⊥
    not_due none h k = cc k
    not_due (some n) h k = ground (arith, later, h, k)

module _ (x : External) (settings : Settings) where
  -- A round finds nothing due and changes nothing, or leaves fewer attempts.
  abbrev IsRound : Round → Db → Db → Type 0
  IsRound r db db' =
      ((db'.deliveries ≡ db.deliveries) × All (λ d. is_due_delivery r.now d ≡ false) db.deliveries)
      ⊎ ((work db'.deliveries < work db.deliveries)
          × All (IsReadyBy (r.now + longest_delay)) db'.deliveries)

  fanout_round-IsRound :
      (r : Round) (db : Db)
      → IsSound db
      → IsSane r
      → All (IsReadyBy (r.now + longest_delay)) db.deliveries
      → IsRound r db (fanout_round x settings r.now r.post db db)
  unfolding fanout_round deliver_batch
  fanout_round-IsRound r db sound sane ready = of_batch (due_deliveries r.now db.deliveries) refl
    where
      of_batch :
          (batch : List WebhookDelivery)
          → due_deliveries r.now db.deliveries ≡ batch
          → IsRound r db (fanout_round x settings r.now r.post db db)
      of_batch [] e =
          rw (due_there r.now db.deliveries, e, fanout_round)
            (inl (refl, none_due_left r.now db.deliveries e))
      of_batch (d ∷ batch) e =
          let t = r.now + longest_delay in
          let targets =
            subst (All _) e
              (due_targets r.now t db.deliveries sound.valid.deliveries_distinct ready) in
          let (rows, done, shrunk, ready') =
            deliver_batch-fewer x settings r.now r.post db.messages sane t d batch db.deliveries
              (omega arith) targets ready in
          rw (due_there r.now db.deliveries, e, done, fanout_round)
            (inr (
              work-fewer (λ (k : WebhookDelivery). str_eq k.id d.id) db.deliveries rows shrunk
                  (due_stored r.now d batch db.deliveries e),
              ready',
            ))

  -- The attempts that are left, counted against the windows that are left from a time on: every pending
  -- delivery is due when the next window opens, or an attempt was made since the last one opened.
  abbrev Within : (t n now : ℕ) → List WebhookDelivery → Type 0
  Within t n now rows =
      (All (IsReadyBy t) rows × (work rows ≤ n))
      ⊎ (All (IsReadyBy (now + longest_delay)) rows × (work rows < n))

  Within-ready :
      (t n now now' : ℕ) (rows : List WebhookDelivery)
      → t ≤ now + longest_delay
      → now ≤ now'
      → Within t n now rows
      → All (IsReadyBy (now' + longest_delay)) rows
  Within-ready t n now now' rows soon later (inl (ready, _)) =
      AreReadyBy-later t (now' + longest_delay) rows (omega (arith, soon, later)) ready
  Within-ready t n now now' rows soon later (inr (ready, _)) =
      AreReadyBy-later (now + longest_delay) (now' + longest_delay) rows (omega (arith, later))
        ready

  -- A round in the course of a window.
  Within-inside :
      (t n now : ℕ) (r : Round) (db db' : Db)
      → t ≤ now + longest_delay
      → now ≤ r.now
      → Within t n now db.deliveries
      → IsRound r db db'
      → Within t n r.now db'.deliveries
  Within-inside t n now r db db' soon later (inl w) (inl (same, idle)) =
      subst (Within t n r.now) (sym same) (inl w)
  Within-inside t n now r db db' soon later (inr (ready, few)) (inl (same, idle)) =
      subst (Within t n r.now) (sym same)
        (inr (Within-ready t n now r.now db.deliveries soon later (inr (ready, few)), few))
  Within-inside t n now r db db' soon later (inl (ready, few)) (inr (less, ready')) =
      inr (ready', omega (arith, few, less))
  Within-inside t n now r db db' soon later (inr (ready, few)) (inr (less, ready')) =
      inr (ready', omega (arith, few, less))

  -- A round that opens a window.
  Within-opening :
      (t n now : ℕ) (r : Round) (db db' : Db)
      → t ≤ now + longest_delay
      → now ≤ r.now
      → t ≤ r.now
      → Within t n now db.deliveries
      → IsRound r db db'
      → Within (r.now + longest_delay) (n - 1) r.now db'.deliveries
  Within-opening t n now r db db' soon later opens (inl (ready, few)) (inl (same, idle)) =
      let nothing = idle_work t r.now db.deliveries opens ready idle in
      subst (Within (r.now + longest_delay) (n - 1) r.now) (sym same) (
        inl (
          Within-ready t n now r.now db.deliveries soon later (inl (ready, few)),
          omega (arith, nothing),
        ))
  Within-opening t n now r db db' soon later opens (inr (ready, few)) (inl (same, idle)) =
      subst (Within (r.now + longest_delay) (n - 1) r.now) (sym same) (
        inl (
          Within-ready t n now r.now db.deliveries soon later (inr (ready, few)),
          omega (arith, few),
        ))
  Within-opening t n now r db db' soon later opens (inl (ready, few)) (inr (less, ready')) =
      inl (ready', omega (arith, few, less))
  Within-opening t n now r db db' soon later opens (inr (ready, few)) (inr (less, ready')) =
      inl (ready', omega (arith, few, less))

  fanout_loop-Within :
      (rounds : List Round) (t n now : ℕ) (db : Db)
      → IsSound db
      → AreLater now rounds
      → All IsSane rounds
      → t ≤ now + longest_delay
      → Within t n now db.deliveries
      → n ≤ windows t rounds
      → All (λ d. is_pending d.status ≡ false) (fanout_loop x settings rounds db).deliveries
  unfolding fanout_loop windows
  fanout_loop-Within [] t n now db sound run sane soon (inl (ready, few)) enough =
      none_left t db.deliveries ready (omega (arith, few, enough))
  fanout_loop-Within [] t n now db sound run sane soon (inr (ready, few)) enough =
      absurd (omega (arith, few, enough))
  fanout_loop-Within (r ∷ rounds) t n now db sound run sane soon w enough =
      let db' = fanout_round x settings r.now r.post db db in
      let sound' = Keyed-IsSound db db' (fanout_round-Keyed x settings r.now r.post db db) sound in
      let round =
        fanout_round-IsRound r db sound sane.0
          (Within-ready t n now r.now db.deliveries soon run.0 w) in
      elim (Bool-cases (leb t r.now)) [
        | inl opens ↦
            fanout_loop-Within rounds (r.now + longest_delay) (n - 1) r.now db' sound' run.1 sane.1
              (omega arith)
              (Within-opening t n now r db db' soon run.0 (ground (arith, opens)) w round)
              (omega (arith, rw (opens, windows) at enough))
        | inr inside ↦
            fanout_loop-Within rounds t n r.now db' sound' run.1 sane.1 (omega (arith, soon, run.0))
              (Within-inside t n now r db db' soon run.0 w round) (rw (inside, windows) at enough)
      ]

  -- Where the constraints hold and every pending delivery has attempts left and is due eight minutes
  -- after a time at the latest, rounds of the fan-out from that time on, in their order and with no
  -- other commit in their course, in which no request ends in an exception that is no httpx.HTTPError,
  -- leave no delivery pending, whatever the subscribers answer, if at least as many of them as there
  -- are attempts left stand, from those eight minutes on, eight minutes apart.
  pub fanout_loop_drains :
      (rounds : List Round) (now : ℕ) (db : Db)
      → IsSound db
      → All (IsReadyBy (now + longest_delay)) db.deliveries
      → AreLater now rounds
      → All IsSane rounds
      → work db.deliveries ≤ windows (now + longest_delay) rounds
      → All (λ d. is_pending d.status ≡ false) (fanout_loop x settings rounds db).deliveries
  fanout_loop_drains rounds now db sound ready run sane enough =
      fanout_loop-Within rounds (now + longest_delay) (work db.deliveries) now db sound run sane
        (omega arith) (inl (ready, omega arith)) enough
