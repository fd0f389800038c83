-- ===== src/Worker/Rounds.antt =====
-- What one round of the send loop may do to the table (app/sms_relay/worker.py, send_loop).
use sms_relay.Common.{
  ℕ, ◌+◌, ◌≡◌, refl, sym, subst, inl, inr, Bool, true, ◌||◌, Option, none, some, List, [], ◌∷◌,
  arith, Bool-cases, update, All, Text, str_eq,
}
use sms_relay.Common.Result.{Result-cases}
use sms_relay.Common.Int.{at_least}
use sms_relay.Config.{Settings}
use sms_relay.External.{External}
use sms_relay.Models.{Message, sending, is_ntfy}
use sms_relay.Models.Db.{Db, update_message, message_clash}
use sms_relay.Models.Db.Constraints.{IsValid, update-IsDistinct}
use sms_relay.Models.Held.{Holds, Holds-of_Any, Holds-update, Evolve-held}
use sms_relay.Models.Lifecycle.{Evolves, Evolve, Evolve-refl, Evolve-trans, Evolve-update}
use sms_relay.Providers.{SendOutcome, accepted, provider_error, crashed, column_text}
use sms_relay.Worker.{
  is_stuck, requeued, requeue_stuck, claimed, claim_next, fallen_back, published_as, sent_as,
  failed_as, is_caught, settle, Answers, dispatch, take_up, send_round, is_claimable,
}
use sms_relay.Worker.Claiming.{IsNext, IsClaim, claim_next-IsClaim}

module _ (x : External) (settings : Settings) where
  failed_as-Evolves :
      (now : ℕ) (message : Text) (permanent : Bool) (m : Message)
      → m.status ≡ sending
      → Evolves m (failed_as settings now (m.attempts + 1) message permanent m)
  unfolding failed_as
  failed_as-Evolves now message permanent m s =
      elim (Bool-cases (permanent || at_least (m.attempts + 1) settings.max_attempts)) [
        | inl over ↦ rw over (record {
          same = ground arith;
          status = ground arith;
          transport = λ e. e;
          attempts = omega arith;
        })
        | inr again ↦ rw again (record {
          same = ground arith;
          status = ground arith;
          transport = λ e. e;
          attempts = omega arith;
        })
      ]

  sent_as-Evolves :
      (now : ℕ) (id : Option Text) (m : Message)
      → m.status ≡ sending
      → Evolves m (sent_as now (m.attempts + 1) id m)
  sent_as-Evolves now id m s = record {
    same = ground arith;
    status = ground arith;
    transport = λ e. e;
    attempts = omega arith;
  }

  -- The row as it is in the table and the message that the loop holds differ at most in the columns
  -- of the fallback.
  settle-Evolve :
      (now : ℕ) (m row : Message) (outcome : SendOutcome) (db : Db)
      → row.attempts ≡ m.attempts
      → row.status ≡ sending
      → Holds m.id row db.messages
      → Evolve db.messages (settle x settings now m outcome db).messages
  unfolding settle
  settle-Evolve now m row (provider_error message permanent) db same s h =
      Evolve-held m.id row (failed_as settings now (m.attempts + 1) message permanent) db.messages
        (subst (λ n. Evolves row (failed_as settings now (n + 1) message permanent row)) same
          (failed_as-Evolves now message permanent row s))
        h
  settle-Evolve now m row crashed db same s h = Evolve-refl db.messages
  settle-Evolve now m row (accepted id) db same s h = elim (Result-cases (column_text x id)) [
    | inr (e, refused) ↦ rw (refused, settle) (Evolve-refl db.messages)
    | inl (provider_id, bound) ↦
        rw (bound, settle)
          (Evolve-held m.id row (sent_as now (m.attempts + 1) provider_id) db.messages
            (subst (λ n. Evolves row (sent_as now (n + 1) provider_id row)) same
              (sent_as-Evolves now provider_id row s))
            h)
  ]

  fallen_back-Evolves : (now : ℕ) (m : Message) → m.status ≡ sending → Evolves m (fallen_back now m)
  fallen_back-Evolves now m s = record {
    same = ground arith;
    status = ground arith;
    transport = λ e. absurd (cc e);
    attempts = omega arith;
  }

  published_as-Evolves :
      (now : ℕ) (receipt : Text) (m : Message)
      → m.status ≡ sending
      → Evolves m (published_as now receipt m)
  published_as-Evolves now receipt m s = record {
    same = ground arith;
    status = ground arith;
    transport = λ e. e;
    attempts = omega arith;
  }

  fallback-Evolve :
      (now later : ℕ) (m : Message) (outcome : SendOutcome) (db : Db)
      → m.status ≡ sending
      → Holds m.id m db.messages
      → Evolve db.messages
          (settle x settings later m outcome (update_message m.id (fallen_back now) db)).messages
  fallback-Evolve now later m outcome db s h =
      let switched = update (λ (n : Message). str_eq n.id m.id) (fallen_back now) db.messages in
      let switched_db : Db = record db { messages = switched } in
      Evolve-trans db.messages switched _
        (Evolve-held m.id m (fallen_back now) db.messages (fallen_back-Evolves now m s) h)
        (settle-Evolve later m (fallen_back now m) outcome switched_db refl s
          (Holds-update m.id m (fallen_back now) db.messages h))

  dispatch-Evolve :
      (a : Answers) (m : Message) (db : Db)
      → m.status ≡ sending
      → Holds m.id m db.messages
      → Evolve db.messages (dispatch x settings a m db).messages
  unfolding dispatch
  dispatch-Evolve a m db s h = elim (Bool-cases (is_ntfy m.transport)) [
    | inr by_sms ↦
        rw (by_sms, dispatch) (settle-Evolve a.send_time m m a.sending_outcome db refl s h)
    | inl by_ntfy ↦ elim (Result-cases a.publication) [
      | inl (receipt, ok_receipt) ↦
          rw (by_ntfy, ok_receipt, dispatch)
            (Evolve-held m.id m (published_as a.publish_time receipt) db.messages
              (published_as-Evolves a.publish_time receipt m s) h)
      | inr (e, refused) ↦ elim (Bool-cases (is_caught e)) [
        | inl fell ↦
            rw (by_ntfy, refused, fell, dispatch)
              (fallback-Evolve a.publish_time a.send_time m a.sending_outcome db s h)
        | inr out ↦ rw (by_ntfy, refused, out, dispatch) (Evolve-refl db.messages)
      ]
    ]
  ]

  requeued-Evolves :
      (now : ℕ) (m : Message) → is_stuck settings now m ≡ true → Evolves m (requeued now m)
  unfolding is_stuck
  requeued-Evolves now m e = record {
    same = ground arith;
    status = ground arith;
    transport = λ k. k;
    attempts = omega arith;
  }

  claimed-Evolves : (now : ℕ) (m : Message) → is_claimable now m ≡ true → Evolves m (claimed now m)
  claimed-Evolves now m e = record {
    same = ground arith;
    status = ground arith;
    transport = λ k. k;
    attempts = omega arith;
  }

  requeue_stuck-Evolve :
      (now : ℕ) (db : Db) → Evolve db.messages (requeue_stuck settings now db).messages
  unfolding requeue_stuck
  requeue_stuck-Evolve now db =
      Evolve-update (is_stuck settings now) (requeued now) db.messages (all_stuck db.messages)
    where
      all_stuck :
          (rows : List Message)
          → All (λ m. is_stuck settings now m ≡ true → Evolves m (requeued now m)) rows
      all_stuck [] = tt
      all_stuck (m ∷ rows) = (λ e. requeued-Evolves now m e, all_stuck rows)

  pub requeue_stuck-IsValid :
      (now : ℕ) (db : Db) → IsValid db → IsValid (requeue_stuck settings now db)
  unfolding requeue_stuck
  requeue_stuck-IsValid now db v = record {
    messages_distinct =
        update-IsDistinct message_clash (is_stuck settings now) (requeued now) (λ a b. refl)
          (λ a b. refl) db.messages v.messages_distinct;
    deliveries_distinct = v.deliveries_distinct;
  }

  claimed_round-Evolve :
      (a : Answers) (db : Db) (row : Message)
      → IsValid db
      → IsNext a.claim_time db row
      → Evolve db.messages
          (dispatch x settings a
            (claimed a.claim_time row)
            (update_message row.id (claimed a.claim_time) db)).messages
  claimed_round-Evolve a db row v next =
      let held = Holds-of_Any row db.messages v.messages_distinct next.stored in
      let mark = claimed a.claim_time in
      Evolve-trans db.messages (update_message row.id mark db).messages _
        (Evolve-held row.id row mark db.messages (claimed-Evolves a.claim_time row next.due) held)
        (dispatch-Evolve a (mark row) (update_message row.id mark db) refl
          (Holds-update row.id row mark db.messages held))

  take_up-Evolve :
      (a : Answers) (db : Db) (taken : Option (Message × Db))
      → IsValid db
      → IsClaim a.claim_time db taken
      → Evolve db.messages (take_up x settings a db taken).messages
  unfolding take_up
  take_up-Evolve a db none v c = Evolve-refl db.messages
  take_up-Evolve a db (some (m, db')) v (row, next, is_m, is_db) =
      subst (λ k. Evolve db.messages (dispatch x settings a k db').messages) (sym is_m)
        (subst
          (λ d. Evolve db.messages (dispatch x settings a (claimed a.claim_time row) d).messages)
          (sym is_db) (claimed_round-Evolve a db row v next))

  -- Where the constraints of the tables hold, and whatever the outside answers, a round of the send loop
  -- with no other commit in its course loses no row, changes nothing that a caller handed over, leaves
  -- a terminal status as it is, and never moves a message back to ntfy.
  pub send_round-Evolve :
      (a : Answers) (db : Db)
      → IsValid db
      → Evolve db.messages (send_round x settings a db).messages
  unfolding send_round
  send_round-Evolve a db v =
      let ready = requeue_stuck settings a.claim_time db in
      Evolve-trans db.messages ready.messages _ (requeue_stuck-Evolve a.claim_time db) (
        take_up-Evolve a ready (claim_next a.claim_time ready)
          (requeue_stuck-IsValid a.claim_time db v) (claim_next-IsClaim a.claim_time ready))
