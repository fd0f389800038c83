-- ===== src/System/Closing.antt =====
-- What each write leaves of the messages that were sent (app/sms_relay/worker.py, app/sms_relay/routes/).
use sms_relay.Common.{
  ℕ, ◌≡◌, refl, sym, ap, subst, inl, inr, Bool, true, false, ◌&&◌, ◌||◌, not, Option, none, some,
  List, [], ◌∷◌, arith, Bool-cases, Option-cases, select, update, All, All-append, All-update,
  All-select, Text, str_eq, str_eq_iff,
}
use sms_relay.Config.{Settings}
use sms_relay.Inbound.Changes.{AllowsInbound}
use sms_relay.Messages.Appending.{Appends}
use sms_relay.Models.{Message, MessageStatus, sent, queued, sending, received, status_eq}
use sms_relay.Models.Db.{Db, update_message}
use sms_relay.Models.Lifecycle.{can_become}
use sms_relay.System.Machine.{is_done}
use sms_relay.Worker.{is_stuck, requeued, requeue_stuck}
use sms_relay.Worker.Upkeep.{
  status_iteration, status_round, apply_statuses, poll_raises, told_of, id_of, is_chased, prune,
  is_pruned,
}

abbrev pub is_open : MessageStatus → Bool
is_open s = status_eq s queued || status_eq s sending

-- A message that was sent waits for no sending.
abbrev pub IsClosed : List Text → Message → Type 0
IsClosed done m = (is_done done m.id && is_open m.status) ≡ false

abbrev pub AreClosed : List Text → Db → Type 0
AreClosed done db = All (IsClosed done) db.messages

-- The message in the hand was not sent.
abbrev pub IsFresh : List Text → Option Message → Type 0
IsFresh done none = Unit
IsFresh done (some m) = is_done done m.id ≡ false

module _ (done : List Text) where
  pub AreClosed-append :
      (uuid4 : ℕ → Text) (db db' : Db)
      → ((n : ℕ) → is_done done (uuid4 n) ≡ false)
      → Appends uuid4 db db'
      → AreClosed done db
      → AreClosed done db'
  AreClosed-append uuid4 db db' fair (created, ids, e) h =
      subst (AreClosed done) (sym e)
        (All-append (IsClosed done) db.messages created h (new_closed created ids))
    where
      new_closed :
          (ms : List Message) → All (λ m. (n : ℕ) × (m.id ≡ uuid4 n)) ms → All (IsClosed done) ms
      new_closed [] k = tt
      new_closed (m ∷ ms) k = let (n, named) = k.0 in (rw (named, fair n) refl, new_closed ms k.1)

  -- A write that opens no message.
  pub AreClosed-closing :
      (p : Message → Bool) (f : Message → Message) (db : Db)
      → ((m : Message) → (f m).id ≡ m.id)
      → ((m : Message) → is_open (f m).status ≡ true → is_open m.status ≡ true)
      → AreClosed done db
      → AreClosed done (record db { messages = update p f db.messages })
  AreClosed-closing p f db same closing h =
      All-update (IsClosed done) p f
        (λ m _ k. elim (Bool-cases (is_open (f m).status)) [
          | inl opened ↦ ground (arith, same m, closing m opened, k)
          | inr shut ↦ ground (arith, shut)
        ])
        db.messages h

  -- A write to a message that was not sent.
  pub AreClosed-other :
      (id : Text) (f : Message → Message) (db : Db)
      → ((m : Message) → (f m).id ≡ m.id)
      → is_done done id ≡ false
      → AreClosed done db
      → AreClosed done (update_message id f db)
  AreClosed-other id f db same fresh h =
      All-update (IsClosed done) (λ m. str_eq m.id id) f
        (λ m hit _. rw (same m, (str_eq_iff m.id id).0 hit, fresh) refl) db.messages h

  -- The write that ends a sending.
  pub AreClosed-done :
      (id : Text) (f : Message → Message) (db : Db)
      → ((m : Message) → is_open (f m).status ≡ false)
      → AreClosed done db
      → AreClosed (id ∷ done) (update_message id f db)
  AreClosed-done id f db shut h = each db.messages h
    where
      each :
          (ms : List Message)
          → All (IsClosed done) ms
          → All (IsClosed (id ∷ done)) (update (λ (m : Message). str_eq m.id id) f ms)
      each [] k = tt
      each (m ∷ ms) k = (ground (arith, shut m, k.0), each ms k.1)

  pub AreClosed-allowed : AllowsInbound (λ db db'. AreClosed done db → AreClosed done db')
  AreClosed-allowed = record {
    unchanged = λ db h. h;
    appended = λ m db db' fresh e h.
        subst (All (IsClosed done)) (sym e)
          (All-append (IsClosed done) db.messages (m ∷ []) h (ground (arith, fresh), tt));
    marked = λ now m db h.
        AreClosed-closing (λ (k : Message). str_eq k.id m.id)
          (λ row. record row { status = MessageStatus.delivered; updated_at = now }) db (λ k. refl)
          (λ k opened. absurd (ground arith)) h;
  }

  shut_of_sent : (s : MessageStatus) → can_become sent s ≡ true → is_open s ≡ false
  shut_of_sent queued h = absurd (cc h)
  shut_of_sent sending h = absurd (cc h)
  shut_of_sent sent h = refl
  shut_of_sent MessageStatus.delivered h = refl
  shut_of_sent MessageStatus.failed h = refl
  shut_of_sent MessageStatus.published h = refl
  shut_of_sent received h = refl

  module _ (fetch : Text → Option MessageStatus) (now : ℕ)
      (lawful : (id : Text) (s : MessageStatus)
        → fetch id ≡ some s
        → can_become sent s ≡ true) where
    apply_statuses-AreClosed :
        (pending : List Message) (db : Db)
        → AreClosed done db
        → AreClosed done (apply_statuses fetch now pending db)
    unfolding apply_statuses
    apply_statuses-AreClosed [] db h = h
    apply_statuses-AreClosed (m ∷ pending) db h = elim (Option-cases (fetch (id_of m))) [
      | inl nothing ↦ rw (nothing, apply_statuses) (apply_statuses-AreClosed pending db h)
      | inr (s, told) ↦ elim (Bool-cases (status_eq s m.status)) [
        | inl same ↦ rw (told, same, apply_statuses) (apply_statuses-AreClosed pending db h)
        | inr new ↦
            rw (told, new, apply_statuses)
              (apply_statuses-AreClosed pending _ (
                AreClosed-closing (λ (k : Message). str_eq k.id m.id)
                  (λ row. record row { status = s; updated_at = now }) db (λ k. refl)
                  (λ k opened.
                    absurd (ground (arith, opened, shut_of_sent s (lawful (id_of m) s told))))
                  h))
      ]
    ]

  pub status_iteration-AreClosed :
      (fetch : Text → Option (Option MessageStatus)) (now : ℕ) (seen db : Db)
      → ((id : Text) (s : MessageStatus) → fetch id ≡ some (some s) → can_become sent s ≡ true)
      → AreClosed done db
      → AreClosed done (status_iteration fetch now seen db)
  unfolding status_iteration status_round
  status_iteration-AreClosed fetch now seen db lawful h =
      elim (Bool-cases (poll_raises fetch (select (is_chased now) seen.messages))) [
        | inl failed ↦ rw (failed, status_iteration) h
        | inr fine ↦
            rw (fine, status_iteration)
              (apply_statuses-AreClosed (λ id. told_of (fetch id)) now
                (λ id s told. lawful id s (told_some (fetch id) told))
                (select (is_chased now) seen.messages) db h)
      ]
    where
      told_some :
          (q : Option (Option MessageStatus)) {s : MessageStatus}
          → told_of q ≡ some s
          → q ≡ some (some s)
      told_some none e = absurd (cc e)
      told_some (some q) e = ap some e

  pub prune-AreClosed :
      (settings : Settings) (now : ℕ) (db : Db)
      → AreClosed done db
      → AreClosed done (prune settings now db)
  unfolding prune
  prune-AreClosed settings now db h =
      All-select (IsClosed done) (λ m. not (is_pruned settings now m)) db.messages h

  pub requeue_stuck-AreClosed :
      (settings : Settings) (now : ℕ) (db : Db)
      → AreClosed done db
      → AreClosed done (requeue_stuck settings now db)
  unfolding requeue_stuck is_stuck
  requeue_stuck-AreClosed settings now db h =
      All-update (IsClosed done) (is_stuck settings now) (requeued now)
        (λ m stuck k. ground (arith, stuck, k)) db.messages h
