-- ===== src/Worker/Draining.antt =====
-- How the queue empties while the provider accepts what it is given (app/sms_relay/worker.py,
-- send_loop).
use sms_relay.Common.{
  ℕ, ◌≤◌, ◌<◌, ◌≡◌, refl, sym, ◌∙◌, subst, ◌⊎◌, inl, inr, Bool, true, false, Option, none, some,
  List, [], ◌∷◌, arith, Bool-cases, length, select, update, All, All-update, Any-map, str_eq,
  str_eq_refl,
}
use sms_relay.Common.Int.{ℤ, pos, negsuc, before_cutoff}
use sms_relay.Common.Json.{Json}
use sms_relay.Common.Result.{Fault, Result, ok, raise, Result-cases}
use sms_relay.Config.{Settings}
use sms_relay.External.{External}
use sms_relay.Metrics.{is_on_its_way}
use sms_relay.Models.{Message, second, is_ntfy, is_outbound, status_eq, queued, sending}
use sms_relay.Models.Db.{Db, is_due, update_message}
use sms_relay.Providers.{SendOutcome, accepted, column_text}
use sms_relay.Worker.{
  is_stuck, requeued, requeue_stuck, is_claimable, claimed, claim_next, fallen_back, published_as,
  sent_as, is_caught, settle, Answers, dispatch, take_up, send_round, send_loop,
}
use sms_relay.Worker.Claiming.{IsNext, IsClaim, claim_next-IsClaim}
-- Counts of rows.
use sms_relay.Worker.Draining.Rows.{select-update_less}
use sms_relay.Worker.Draining.Ready.{
  IsReady, AreClaimable, pending, requeued-AreClaimable, pending-requeued, AreClaimable-later,
  IsReady-later,
}
use sms_relay.Worker.Draining.Finished.{IsAccepting, IsFinished, dispatch-IsFinished}
pub mod Finished
pub mod Ready
pub mod Rows

-- Rounds one after the other, from a time on.
abbrev pub AreAccepting : External → ℕ → List Answers → Type 0
AreAccepting x t [] = Unit
AreAccepting x t (a ∷ answers) =
    (t ≤ a.claim_time) × IsAccepting x a × AreAccepting x a.claim_time answers

-- Rows of which one is finished.
module _ (t : ℕ) (p : Message → Bool) (g : Message → Message)
    (gone : (m : Message) → is_on_its_way (g m) ≡ false) where
  update-AreClaimable :
      (rows : List Message) → AreClaimable t rows → AreClaimable t (update p g rows)
  update-AreClaimable =
      All-update (λ m. is_on_its_way m ≡ true → is_claimable t m ≡ true) p g
        (λ m hit k w. absurd (cc (sym (gone m) ∙ w)))

module _ (x : External) (settings : Settings) where
  -- What a round leaves of the rows that are still to be sent.
  abbrev IsShorter : ℕ → List Message → List Message → Type 0
  IsShorter t rows rows' =
      AreClaimable t rows'
      × ((pending rows' < pending rows) ⊎ ((pending rows ≡ 0) × (pending rows' ≡ 0)))

  unclaimed_pending :
      (t : ℕ) (rows : List Message)
      → AreClaimable t rows
      → All (λ m. is_claimable t m ≡ false) rows
      → pending rows ≡ 0
  unclaimed_pending t [] h k = refl
  unclaimed_pending t (m ∷ rows) h k = elim (Bool-cases (is_on_its_way m)) [
    | inl waits ↦ absurd (cc (sym (h.0 waits) ∙ k.0))
    | inr done ↦ rw done (unclaimed_pending t rows h.1 k.1)
  ]

  claimed_on_its_way :
      (t : ℕ) (row m : Message)
      → is_claimable t row ≡ true
      → m ≡ row
      → (is_on_its_way m ≡ true) × (str_eq m.id row.id ≡ true)
  unfolding is_on_its_way
  claimed_on_its_way t row m due e = rw e ((ground (arith, due), str_eq_refl row.id))

  take_up-IsShorter :
      (a : Answers) (db : Db) (taken : Option (Message × Db))
      → IsAccepting x a
      → AreClaimable a.claim_time db.messages
      → IsClaim a.claim_time db taken
      → IsShorter a.claim_time db.messages (take_up x settings a db taken).messages
  unfolding take_up
  take_up-IsShorter a db none ok_round h c =
      let idle = unclaimed_pending a.claim_time db.messages h c in (h, inr (idle, idle))
  take_up-IsShorter a db (some (m, db')) ok_round h (row, next, is_m, is_db) =
      let (g, gone, e) =
        dispatch-IsFinished x settings a (claimed a.claim_time row) (claimed a.claim_time) db
          ok_round (λ n. refl) in
      let p = λ (n : Message). str_eq n.id row.id in
      let there =
        Any-map _ (λ n is_n. claimed_on_its_way a.claim_time row n next.due is_n) db.messages
          next.stored in
      let shorter : IsShorter a.claim_time db.messages
          (dispatch x settings a (claimed a.claim_time row)
            (update_message row.id (claimed a.claim_time) db)).messages =
        subst (IsShorter a.claim_time db.messages) (sym e) (
          update-AreClaimable a.claim_time p g gone db.messages h,
          inl (select-update_less p is_on_its_way g gone db.messages there),
        ) in
      subst (λ k. IsShorter a.claim_time db.messages (dispatch x settings a k db').messages)
        (sym is_m)
        (subst
          (λ d.
            IsShorter a.claim_time db.messages
              (dispatch x settings a (claimed a.claim_time row) d).messages)
          (sym is_db) shorter)

  send_round-IsShorter :
      (a : Answers) (db : Db)
      → IsAccepting x a
      → IsReady settings a.claim_time db
      → IsShorter a.claim_time db.messages (send_round x settings a db).messages
  unfolding send_round requeue_stuck
  send_round-IsShorter a db ok_round h =
      let ready = requeue_stuck settings a.claim_time db in
      let (there, fewer) =
        take_up-IsShorter a ready (claim_next a.claim_time ready) ok_round
          (requeued-AreClaimable settings a.claim_time db.messages h)
          (claim_next-IsClaim a.claim_time ready) in
      (
        there,
        subst
            (λ n.
              (pending (send_round x settings a db).messages < n)
              ⊎ ((n ≡ 0) × (pending (send_round x settings a db).messages ≡ 0)))
            (pending-requeued settings a.claim_time db.messages) fewer,
      )

  none_pending : (rows : List Message) → pending rows ≡ 0 → All (λ m. is_on_its_way m ≡ false) rows
  none_pending [] h = tt
  none_pending (m ∷ rows) h = elim (Bool-cases (is_on_its_way m)) [
    | inl waits ↦ absurd (cc (rw waits at h))
    | inr done ↦ (done, none_pending rows (rw done at h))
  ]

  -- Where every outbound message that is queued or being sent is due, or stuck in sending, at a time, then
  -- rounds of the send loop from that time on, none of them earlier than the one before and with no
  -- other commit in their course, in each of which the provider accepts the message and a publication
  -- succeeds or fails as expected, leave none of them queued or being sent, once there are as many
  -- rounds as there were such messages.
  pub send_loop_drains :
      (answers : List Answers) (t : ℕ) (db : Db)
      → IsReady settings t db
      → AreAccepting x t answers
      → length (select is_on_its_way db.messages) ≤ length answers
      → All (λ m. is_on_its_way m ≡ false) (send_loop x settings answers db).messages
  unfolding send_loop
  send_loop_drains [] t db ready run few = none_pending db.messages (omega (arith, few))
  send_loop_drains (a ∷ answers) t db ready (later, ok_round, run) few =
      let now_ready = IsReady-later settings t a.claim_time db.messages later ready in
      let (there, fewer) = send_round-IsShorter a db ok_round now_ready in
      send_loop_drains answers a.claim_time (send_round x settings a db)
        (AreClaimable-later settings a.claim_time a.claim_time _ (omega arith) there) run
        (elim fewer [ inl less ↦ omega (arith, few, less) | inr idle ↦ omega (arith, few, idle.1) ])
