-- ===== src/System/Recorded.antt =====
-- What was sent stays sent (app/sms_relay/worker.py), whatever is committed beside the send loop.
use sms_relay.Common.{
  ℕ, ◌+◌, ◌≡◌, refl, sym, subst, inl, inr, Bool, true, false, none, some, List, [], ◌∷◌, arith, All,
  Any, Text, str_eq, str_eq_comm,
}
use sms_relay.Common.Result.{Result-cases}
use sms_relay.Config.{Settings}
use sms_relay.External.{External}
use sms_relay.Models.{Message}
use sms_relay.Models.Db.{Db, update_message}
use sms_relay.Models.Db.Constraints.{IsDistinct}
use sms_relay.Providers.{SendOutcome, accepted, provider_error, crashed, column_text}
use sms_relay.System.Closing.{
  is_open, IsClosed, AreClosed, IsFresh, AreClosed-other, AreClosed-done, prune-AreClosed,
  requeue_stuck-AreClosed,
}
use sms_relay.System.Outside.{Outer-AreClosed}
use sms_relay.System.Machine.{
  Service, is_done, recorded, Move, acts, prunes, requeues, claims, publishes, falls_back, settles,
  drops, Runs, at_rest, moved, IsFairMove, AreFair,
}
use sms_relay.Worker.{
  claimed, claim_next, is_claimable, fallen_back, published_as, sent_as, failed_as, settle,
}
use sms_relay.Worker.Claiming.{IsClaim, claim_next-IsClaim}

-- Each message is recorded as sent once at most, none of these is open, and the hand holds none of them.
pub record IsRecorded (s : Service) : Type 0 where
  pub once : IsDistinct str_eq s.done
  pub closed : AreClosed s.done s.db
  pub fresh : IsFresh s.done s.hand

module _ (x : External) (settings : Settings) where
  Any-closed :
      (done : List Text) (now : ℕ) (row : Message) (rows : List Message)
      → All (IsClosed done) rows
      → is_claimable now row ≡ true
      → Any (λ m. m ≡ row) rows
      → is_done done row.id ≡ false
  Any-closed done now row [] h due a = elim a [ ]
  Any-closed done now row (m ∷ rows) h due (inl e) =
      ground (arith, due, subst (IsClosed done) e h.0)
  Any-closed done now row (m ∷ rows) h due (inr a) = Any-closed done now row rows h.1 due a

  -- A claim takes a message that was not sent.
  claim_next-Fresh :
      (done : List Text) (now : ℕ) (m : Message) (db db' : Db)
      → claim_next now db ≡ some (m, db')
      → AreClosed done db
      → AreClosed done db' × (is_done done m.id ≡ false)
  claim_next-Fresh done now m db db' h closed =
      let (row, next, held, e) = subst (IsClaim now db) h (claim_next-IsClaim now db) in
      let unsent = Any-closed done now row db.messages closed next.due next.stored in
      (
        subst (AreClosed done) (sym e)
            (AreClosed-other done row.id (claimed now) db (λ k. refl) unsent closed),
        rw held unsent,
      )

  -- The record and the tables after the end of a sending.
  abbrev IsEnded : List Text → Db → Type 0
  IsEnded done db = IsDistinct str_eq done × AreClosed done db

  All-apart :
      (id : Text) (done : List Text)
      → is_done done id ≡ false
      → All (λ other. str_eq other id ≡ false) done
  All-apart id [] h = tt
  All-apart id (other ∷ done) h =
      (ground (arith, h, str_eq_comm other id), All-apart id done (ground (arith, h)))

  IsEnded-done :
      (done : List Text) (id : Text) (f : Message → Message) (db : Db)
      → ((m : Message) → is_open (f m).status ≡ false)
      → is_done done id ≡ false
      → IsEnded done db
      → IsEnded (id ∷ done) (update_message id f db)
  IsEnded-done done id f db shut unsent (once, closed) =
      ((All-apart id done unsent, once), AreClosed-done done id f db shut closed)

  failed_as_id :
      (now attempts : ℕ) (message : Text) (permanent : Bool) (row : Message)
      → (failed_as settings now attempts message permanent row).id ≡ row.id
  unfolding failed_as
  failed_as_id now attempts message permanent row = ground arith

  settle-IsEnded :
      (done : List Text) (now : ℕ) (m : Message) (outcome : SendOutcome) (db : Db)
      → is_done done m.id ≡ false
      → IsEnded done db
      → IsEnded (recorded x settings outcome m.id done) (settle x settings now m outcome db)
  unfolding settle recorded
  settle-IsEnded done now m (provider_error message permanent) db unsent h = (
    h.0,
    AreClosed-other done m.id (failed_as settings now (m.attempts + 1) message permanent) db
        (failed_as_id now (m.attempts + 1) message permanent) unsent h.1,
  )
  settle-IsEnded done now m crashed db unsent h = h
  settle-IsEnded done now m (accepted told) db unsent h = elim (Result-cases (column_text x told)) [
    | inr (e, refused) ↦ rw (refused, settle, recorded) h
    | inl (provider_id, bound) ↦
        rw (bound, settle, recorded)
          (IsEnded-done done m.id (sent_as now (m.attempts + 1) provider_id) db (λ k. refl) unsent
            h)
  ]

  held-Fresh :
      {s : Service} {m : Message} → s.hand ≡ some m → IsRecorded s → is_done s.done m.id ≡ false
  held-Fresh {s} held r = subst (IsFresh s.done) held r.fresh

  Move-IsRecorded :
      {s s' : Service} (m : Move x settings s s')
      → IsFairMove x settings m
      → IsRecorded s
      → IsRecorded s'
  Move-IsRecorded {s} (acts db' w e) fair r = rw e (record {
    once = r.once;
    closed = Outer-AreClosed x settings s.done w fair r.closed;
    fresh = r.fresh;
  })
  Move-IsRecorded {s} (prunes now e) _ r = rw e (record {
    once = r.once;
    closed = prune-AreClosed s.done settings now s.db r.closed;
    fresh = r.fresh;
  })
  Move-IsRecorded {s} (requeues now idle e) _ r = rw e (record {
    once = r.once;
    closed = requeue_stuck-AreClosed s.done settings now s.db r.closed;
    fresh = r.fresh;
  })
  Move-IsRecorded {s} (claims now m db' idle taken e) _ r =
      let (closed, unsent) = claim_next-Fresh s.done now m s.db db' taken r.closed in
      rw e (record { once = r.once; closed = closed; fresh = unsent })
  Move-IsRecorded {s} (publishes now m receipt held by_ntfy e) _ r =
      let (once, closed) =
        IsEnded-done s.done m.id (published_as now receipt) s.db (λ k. refl) (held-Fresh held r)
          (r.once, r.closed) in
      rw e (record { once = once; closed = closed; fresh = tt })
  Move-IsRecorded {s} (falls_back now m held by_ntfy e) _ r = rw e (record {
    once = r.once;
    closed =
        AreClosed-other s.done m.id (fallen_back now) s.db (λ k. refl) (held-Fresh held r) r.closed;
    fresh = held-Fresh held r;
  })
  Move-IsRecorded {s} (settles now m outcome held by_sms e) _ r =
      let (once, closed) =
        settle-IsEnded s.done now m outcome s.db (held-Fresh held r) (r.once, r.closed) in
      rw e (record { once = once; closed = closed; fresh = tt })
  Move-IsRecorded {s} (drops e) _ r = rw e (record { once = r.once; closed = r.closed; fresh = tt })

  Runs-IsRecorded :
      {s s' : Service} (runs : Runs x settings s s')
      → AreFair x settings runs
      → IsRecorded s
      → IsRecorded s'
  Runs-IsRecorded at_rest fair r = r
  Runs-IsRecorded (moved runs m) fair r = Move-IsRecorded m fair.1 (Runs-IsRecorded runs fair.0 r)

  -- From the start of the process over any tables, through any commits of the send loop and, between
  -- them, of requests, of the other loops and of restarts, where uuid4 repeats no id of a message that
  -- was sent and the provider tells only statuses that a sent message may take: no message is recorded
  -- as sent or published twice, none that was is queued or sending, and the message in the loop's hand
  -- was not.
  pub IsRecorded-once :
      (db : Db) {s : Service}
      (runs : Runs x settings (record { db = db; hand = none; done = [] }) s)
      → AreFair x settings runs
      → IsRecorded s
  IsRecorded-once db runs fair =
      Runs-IsRecorded runs fair
        (record { once = tt; closed = nothing_sent db.messages; fresh = tt })
    where
      nothing_sent : (rows : List Message) → All (IsClosed []) rows
      nothing_sent [] = tt
      nothing_sent (m ∷ rows) = (refl, nothing_sent rows)
