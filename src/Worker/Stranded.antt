-- ===== src/Worker/Stranded.antt =====
-- A row that a loop which is gone has left in `sending`, in the rounds of the next one
-- (app/sms_relay/worker.py, send_loop).
use sms_relay.Common.{
  ℕ, ◌+◌, ◌≡◌, refl, sym, ap, ◌∙◌, subst, inl, inr, Bool, true, false, Option, none, some, List, [],
  ◌∷◌, arith, Bool-cases, update, All, Any, Text, str_eq, str_eq_iff,
}
use sms_relay.Common.Int.{before_cutoff}
use sms_relay.Common.Result.{Result-cases}
use sms_relay.Config.{Settings}
use sms_relay.External.{External}
use sms_relay.Models.{Message, sending, second, is_ntfy}
use sms_relay.Models.Db.{Db, update_message}
use sms_relay.Providers.{SendOutcome, accepted, provider_error, crashed, column_text}
use sms_relay.Worker.{
  is_stuck, requeued, requeue_stuck, claimed, claim_next, fallen_back, published_as, sent_as,
  failed_as, is_caught, settle, Answers, dispatch, take_up, send_round, send_loop, is_claimable,
}
use sms_relay.Worker.Claiming.{IsClaim, claim_next-IsClaim}

module _ (x : External) (settings : Settings) (id : Text) (claim_time : ℕ) where
  -- The rows with the id are in `sending` since the claim.
  abbrev pub AreHeld : List Message → Type 0
  AreHeld =
      All (λ (m : Message).
        str_eq m.id id ≡ true → (m.status ≡ sending) × (m.updated_at ≡ claim_time))

  AreHeld-update :
      (other : Text) (f : Message → Message)
      → ((m : Message) → (f m).id ≡ m.id)
      → str_eq other id ≡ false
      → (rows : List Message) → AreHeld rows
      → AreHeld (update (λ (m : Message). str_eq m.id other) f rows)
  AreHeld-update other f keeps differs [] h = tt
  AreHeld-update other f keeps differs (m ∷ rows) h = elim (Bool-cases (str_eq m.id other)) [
    | inl hit ↦
        let same : m.id ≡ other = (str_eq_iff m.id other).0 hit in
        let apart : str_eq (f m).id id ≡ false = ap (λ i. str_eq i id) (keeps m ∙ same) ∙ differs in
        rw hit (λ e. absurd (cc (apart, e)), AreHeld-update other f keeps differs rows h.1)
    | inr miss ↦ rw miss (h.0, AreHeld-update other f keeps differs rows h.1)
  ]

  failed_as-id :
      (now attempts : ℕ) (message : Text) (permanent : Bool) (m : Message)
      → (failed_as settings now attempts message permanent m).id ≡ m.id
  unfolding failed_as
  failed_as-id now attempts message permanent m = ground arith

  settle-AreHeld :
      (now : ℕ) (m : Message) (outcome : SendOutcome) (db : Db)
      → str_eq m.id id ≡ false
      → AreHeld db.messages
      → AreHeld (settle x settings now m outcome db).messages
  unfolding settle
  settle-AreHeld now m (provider_error message permanent) db differs h =
      AreHeld-update m.id (failed_as settings now (m.attempts + 1) message permanent)
        (failed_as-id now (m.attempts + 1) message permanent) differs db.messages h
  settle-AreHeld now m crashed db differs h = h
  settle-AreHeld now m (accepted told) db differs h = elim (Result-cases (column_text x told)) [
    | inr (f, refused) ↦ rw (refused, settle) h
    | inl (provider_id, bound) ↦
        rw (bound, settle)
          (AreHeld-update m.id (sent_as now (m.attempts + 1) provider_id) (λ _. refl) differs
            db.messages h)
  ]

  dispatch-AreHeld :
      (a : Answers) (m : Message) (db : Db)
      → str_eq m.id id ≡ false
      → AreHeld db.messages
      → AreHeld (dispatch x settings a m db).messages
  unfolding dispatch
  dispatch-AreHeld a m db differs h = elim (Bool-cases (is_ntfy m.transport)) [
    | inr by_sms ↦
        rw (by_sms, dispatch) (settle-AreHeld a.send_time m a.sending_outcome db differs h)
    | inl by_ntfy ↦ elim (Result-cases a.publication) [
      | inl (receipt, ok_receipt) ↦
          rw (by_ntfy, ok_receipt, dispatch)
            (AreHeld-update m.id (published_as a.publish_time receipt) (λ _. refl) differs
              db.messages h)
      | inr (e, refused) ↦ elim (Bool-cases (is_caught e)) [
        | inl fell ↦
            rw (by_ntfy, refused, fell, dispatch)
              (settle-AreHeld a.send_time m a.sending_outcome
                (update_message m.id (fallen_back a.publish_time) db) differs
                (AreHeld-update m.id (fallen_back a.publish_time) (λ _. refl) differs db.messages
                  h))
        | inr out ↦ rw (by_ntfy, refused, out, dispatch) h
      ]
    ]
  ]

  stuck_since :
      (now : ℕ) (m : Message)
      → is_stuck settings now m ≡ true
      → m.updated_at ≡ claim_time
      → before_cutoff second settings.stuck_after_seconds claim_time now ≡ true
  unfolding is_stuck
  stuck_since now m stuck since =
      let late : before_cutoff second settings.stuck_after_seconds m.updated_at now ≡ true =
        ground (arith, stuck) in
      rw since at late

  requeue_stuck-AreHeld :
      (now : ℕ)
      → before_cutoff second settings.stuck_after_seconds claim_time now ≡ false
      → (rows : List Message) → AreHeld rows
      → AreHeld (update (is_stuck settings now) (requeued now) rows)
  requeue_stuck-AreHeld now early [] h = tt
  requeue_stuck-AreHeld now early (m ∷ rows) h = elim (Bool-cases (is_stuck settings now m)) [
    | inl stuck ↦ rw stuck (
      λ e. absurd (cc (stuck_since now m stuck (h.0 e).1, early)),
      requeue_stuck-AreHeld now early rows h.1,
    )
    | inr fresh ↦ rw fresh (h.0, requeue_stuck-AreHeld now early rows h.1)
  ]

  -- A row that is claimed is not one that is being sent.
  claimed_apart :
      (now : ℕ) (row : Message) (rows : List Message)
      → is_claimable now row ≡ true
      → Any (λ n. n ≡ row) rows
      → AreHeld rows
      → str_eq row.id id ≡ false
  claimed_apart now row [] due a h = elim a [ ]
  claimed_apart now row (m ∷ rows) due (inl same) h = elim (Bool-cases (str_eq row.id id)) [
    | inr apart ↦ apart
    | inl hit ↦
        let (held, _) = h.0 (ap (λ (r : Message). str_eq r.id id) same ∙ hit) in
        let busy : row.status ≡ sending = ap (λ (r : Message). r.status) (sym same) ∙ held in
        absurd (ground (arith, due, busy))
  ]
  claimed_apart now row (m ∷ rows) due (inr a) h = claimed_apart now row rows due a h.1

  take_up-AreHeld :
      (a : Answers) (db : Db) (taken : Option (Message × Db))
      → AreHeld db.messages
      → IsClaim a.claim_time db taken
      → AreHeld (take_up x settings a db taken).messages
  unfolding take_up
  take_up-AreHeld a db none h c = h
  take_up-AreHeld a db (some (m, db')) h (row, next, is_m, is_db) =
      let apart = claimed_apart a.claim_time row db.messages next.due next.stored h in
      let mark = claimed a.claim_time in
      subst (λ k. AreHeld (dispatch x settings a k db').messages) (sym is_m)
        (subst (λ d. AreHeld (dispatch x settings a (mark row) d).messages) (sym is_db)
          (dispatch-AreHeld a (mark row) (update_message row.id mark db) apart
            (AreHeld-update row.id mark (λ _. refl) apart db.messages h)))

  send_round-AreHeld :
      (a : Answers) (db : Db)
      → before_cutoff second settings.stuck_after_seconds claim_time a.claim_time ≡ false
      → AreHeld db.messages
      → AreHeld (send_round x settings a db).messages
  unfolding send_round requeue_stuck
  send_round-AreHeld a db early h =
      let ready = requeue_stuck settings a.claim_time db in
      take_up-AreHeld a ready (claim_next a.claim_time ready)
        (requeue_stuck-AreHeld a.claim_time early db.messages h)
        (claim_next-IsClaim a.claim_time ready)

  -- Every round of the send loop before the row is taken for stuck leaves it in `sending`.
  pub send_loop-AreHeld :
      (answers : List Answers) (db : Db)
      → All
          (λ (a : Answers).
            before_cutoff second settings.stuck_after_seconds claim_time a.claim_time ≡ false)
          answers
      → AreHeld db.messages
      → AreHeld (send_loop x settings answers db).messages
  unfolding send_loop
  send_loop-AreHeld [] db early h = h
  send_loop-AreHeld (a ∷ answers) db early h =
      send_loop-AreHeld answers (send_round x settings a db) early.1
        (send_round-AreHeld a db early.0 h)

  -- The claim itself leaves the row so.
  pub claimed-AreHeld :
      (rows : List Message)
      → AreHeld (update (λ (m : Message). str_eq m.id id) (claimed claim_time) rows)
  claimed-AreHeld [] = tt
  claimed-AreHeld (m ∷ rows) = elim (Bool-cases (str_eq m.id id)) [
    | inl hit ↦ rw hit (λ _. (refl, refl), claimed-AreHeld rows)
    | inr miss ↦ rw miss (λ e. absurd (cc (miss, e)), claimed-AreHeld rows)
  ]
