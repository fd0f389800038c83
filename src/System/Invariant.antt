-- ===== src/System/Invariant.antt =====
-- What holds in every database that the service can come to (app/sms_relay/models.py,
-- app/sms_relay/routes/, app/sms_relay/worker.py).
use sms_relay.Common.{ℕ, ◌≡◌, refl, sym, subst, inl, inr, some, List, ◌++◌, arith, Text, str_eq}
use sms_relay.Config.{Settings}
use sms_relay.External.{External}
use sms_relay.Grafana.{grafana}
use sms_relay.Grafana.Appending.{grafana-cases}
use sms_relay.Inbound.Growing.{inbound_webhook-Grows}
use sms_relay.Inbound.Keeping.{inbound_webhook-KeepsSound, All-stored_more}
use sms_relay.Messages.{send_message}
use sms_relay.Messages.Appending.{send_message-Appends}
use sms_relay.Messages.Queueing.{send_message-Keeps}
use sms_relay.Models.{Message}
use sms_relay.Models.Db.{Db, update_message}
use sms_relay.Models.Db.Constraints.{IsSound}
use sms_relay.Models.Db.Growth.{Grows, Grows-of_Keyed, Grows-of_append, Grows-trans}
use sms_relay.Models.Db.Keys.{Keyed, Keyed-refl, Keyed-update, Keyed-IsSound}
use sms_relay.Schemas.{SendRequest}
use sms_relay.System.{
  Outer, Write, outside, sends, alerts, receives, requeues, claims, publishes, falls_back, settles,
  polls, fans_out, Step, writes, prunes, Writes, none_yet, then_one, Reachable, empty, step,
}
use sms_relay.Webhooks.Keys.{fanout_round-Keyed}
use sms_relay.Worker.{
  requeue_stuck, requeued, is_stuck, claimed, claim_next, fallen_back, published_as,
}
use sms_relay.Worker.Claiming.{IsClaim, claim_next-IsClaim}
use sms_relay.Worker.Keys.{settle-Keyed, status_iteration-Keyed}
use sms_relay.Worker.Pruning.{prune_keeps}

-- What a commit that deletes nothing keeps.
abbrev pub Sound : Db → Db → Type 0
Sound db db' = IsSound db' × Grows db db'

module _ (x : External) (settings : Settings) where
  Sound-of_Keyed : (db db' : Db) → IsSound db → Keyed db db' → Sound db db'
  Sound-of_Keyed db db' s k = (Keyed-IsSound db db' k s, Grows-of_Keyed db db' k)

  Sound-refl : (db : Db) → IsSound db → Sound db db
  Sound-refl db s = Sound-of_Keyed db db s (Keyed-refl db)

  send_message-Sound :
      (r : SendRequest) (service : Text) (now : ℕ) (uuid4 : ℕ → Text) (seen db : Db)
      → IsSound db
      → Sound db (send_message x settings r service now uuid4 seen db).1
  send_message-Sound r service now uuid4 seen db s =
      let (created, _, e) = send_message-Appends x settings r service now uuid4 seen db in
      let valid = (send_message-Keeps x settings r service now uuid4 seen db s.valid).0 in
      (
        record {
          valid = valid;
          referential = rw e (All-stored_more db.messages created db.deliveries s.referential);
        },
        rw e (Grows-of_append db (record db { messages = db.messages ++ created }) created refl),
      )

  grafana-Sound :
      (service : Text) (clock : ℕ → ℕ) (now : ℕ) (uuid4 : ℕ → Text) (chunks : List Text)
      (seen db : Db)
      → IsSound db
      → Sound db (grafana x settings service clock now uuid4 chunks seen db).1
  grafana-Sound service clock now uuid4 chunks seen db s =
      elim (grafana-cases x settings service clock now uuid4 chunks seen db) [
        | inl e ↦ rw e (Sound-refl db s)
        | inr (r, e) ↦ rw e (send_message-Sound r service now uuid4 seen db s)
      ]

  claim_next-Keyed :
      (now : ℕ) (m : Message) (db db' : Db) → claim_next now db ≡ some (m, db') → Keyed db db'
  claim_next-Keyed now m db db' h =
      let (row, _, _, e) = subst (IsClaim now db) h (claim_next-IsClaim now db) in
      subst (Keyed db) (sym e)
        (Keyed-update (λ (k : Message). str_eq k.id row.id) (claimed now) db (λ k. ground arith))

  Outer-Sound : {db db' : Db} → Outer x settings db db' → IsSound db → Sound db db'
  Outer-Sound {db} (sends r service now uuid4 seen e) s =
      rw e (send_message-Sound r service now uuid4 seen db s)
  Outer-Sound {db} (alerts service clock now uuid4 chunks seen e) s =
      rw e (grafana-Sound service clock now uuid4 chunks seen db s)
  Outer-Sound {db} (receives now id uuid4 request seen e) s = rw e (
    (inbound_webhook-KeepsSound x settings now id uuid4 request seen db s).0.0,
    inbound_webhook-Grows x settings now id uuid4 request seen db,
  )
  Outer-Sound {db} (polls fetch now seen e) s =
      rw e (Sound-of_Keyed db _ s (status_iteration-Keyed fetch now seen db))
  Outer-Sound {db} (fans_out now post seen e) s =
      rw e (Sound-of_Keyed db _ s (fanout_round-Keyed x settings now post seen db))

  pub Write-Sound : {db db' : Db} → Write x settings db db' → IsSound db → Sound db db'
  Write-Sound (outside w) s = Outer-Sound w s
  Write-Sound {db} (requeues now e) s = rw e (
      Sound-of_Keyed db (requeue_stuck settings now db) s (
        unfold requeue_stuck in
        Keyed-update (is_stuck settings now) (requeued now) db (λ k. ground arith)))
  Write-Sound {db} {db'} (claims now m e) s =
      Sound-of_Keyed db db' s (claim_next-Keyed now m db db' e)
  Write-Sound {db} (publishes now m receipt e) s = rw e (
      Sound-of_Keyed db (update_message m.id (published_as now receipt) db) s
        (Keyed-update _ (published_as now receipt) db (λ k. ground arith)))
  Write-Sound {db} (falls_back now m e) s = rw e (
      Sound-of_Keyed db (update_message m.id (fallen_back now) db) s
        (Keyed-update _ (fallen_back now) db (λ k. ground arith)))
  Write-Sound {db} (settles now m outcome e) s =
      rw e (Sound-of_Keyed db _ s (settle-Keyed x settings now m outcome db))

  pub Step-IsSound : {db db' : Db} → Step x settings db db' → IsSound db → IsSound db'
  Step-IsSound (writes w) s = (Write-Sound w s).0
  Step-IsSound {db} (prunes now e) s =
      let (_, valid, referential) = prune_keeps settings now db s.valid s.referential in
      rw e (record { valid = valid; referential = referential })

  -- In every database that the service comes to from the empty one, by any commits of its requests and
  -- its loops in any order, no two rows clash in their keys and every delivery has its message.
  pub Reachable-IsSound : {db : Db} → Reachable x settings db → IsSound db
  Reachable-IsSound empty = record {
    valid = record { messages_distinct = tt; deliveries_distinct = tt };
    referential = tt;
  }
  Reachable-IsSound (step r s) = Step-IsSound s (Reachable-IsSound r)

  -- Commits that delete nothing lose no message.
  pub Writes-Sound : {db db' : Db} → Writes x settings db db' → IsSound db → Sound db db'
  Writes-Sound {db} none_yet s = Sound-refl db s
  Writes-Sound {db} {db'} (then_one {d} {e} r w) s =
      let (sound, grown) = Writes-Sound r s in
      let (sound', more) = Write-Sound w sound in (sound', Grows-trans db d db' grown more)
