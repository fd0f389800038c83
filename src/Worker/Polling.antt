-- ===== src/Worker/Polling.antt =====
-- What a round of the status loop may do to the table (app/sms_relay/worker.py, status_loop).
use sms_relay.Common.{
  ℕ, ◌≡◌, refl, inl, inr, true, false, Option, some, List, [], ◌∷◌, arith, Bool-cases, Option-cases,
  select, update, All, All-select, Text, str_eq, str_eq_iff, str_eq_comm,
}
use sms_relay.Models.{Message, MessageStatus, sent, status_eq}
use sms_relay.Models.Db.{Db, message_clash, update_message}
use sms_relay.Models.Db.Constraints.{IsDistinct, IsValid, select-IsDistinct}
use sms_relay.Common.Lists.{All-of_Any, All-both}
use sms_relay.Models.Held.{Holds, Holds-of_Any, Evolve-held}
use sms_relay.Models.Lifecycle.{can_become, Evolves, Evolve, Evolve-refl, Evolve-trans}
use sms_relay.Providers.Dev.{dev_fetch_status}
use sms_relay.Worker.Upkeep.{
  is_chased, id_of, apply_statuses, status_round, status_iteration, poll_raises, told_of,
}

Holds-other :
    (id other : Text) (m : Message) (f : Message → Message) (rows : List Message)
    → str_eq other id ≡ false
    → ((n : Message) → (f n).id ≡ n.id)
    → Holds id m rows
    → Holds id m (update (λ n. str_eq n.id other) f rows)
Holds-other id other m f [] apart same h = tt
Holds-other id other m f (n ∷ rows) apart same h = elim (Bool-cases (str_eq n.id other)) [
  | inl hit ↦ rw hit (
    (λ e. absurd (
        ground (
          arith,
          apart,
          e,
          same n,
          str_eq_iff n.id other,
          str_eq_iff (f n).id id,
          str_eq_iff other id,
        ))),
    Holds-other id other m f rows apart same h.1,
  )
  | inr miss ↦ rw miss (h.0, Holds-other id other m f rows apart same h.1)
]

-- The rows of a poll are held, and sent, in the table.
abbrev AreHeld : List Message → List Message → Type 0
AreHeld rows = All (λ (p : Message). Holds p.id p rows × (p.status ≡ sent))

AreHeld-update :
    (m : Message) (f : Message → Message) (pending rows : List Message)
    → ((n : Message) → (f n).id ≡ n.id)
    → All (λ n. message_clash n m ≡ false) pending
    → AreHeld rows pending
    → AreHeld (update (λ (n : Message). str_eq n.id m.id) f rows) pending
AreHeld-update m f [] rows same apart h = tt
AreHeld-update m f (p ∷ pending) rows same apart h = (
  (
    Holds-other p.id m.id p f rows (ground (arith, apart.0, str_eq_comm p.id m.id)) same h.0.0,
    h.0.1,
  ),
  AreHeld-update m f pending rows same apart.1 h.1,
)

module _ (fetch : Text → Option MessageStatus) (now : ℕ) where
  abbrev polled : MessageStatus → Message → Message
  polled s row = record row { status = s; updated_at = now }

  polled-Evolves :
      (m : Message) (s : MessageStatus)
      → m.status ≡ sent
      → can_become sent s ≡ true
      → Evolves m (polled s m)
  polled-Evolves m s is_sent lawful = record {
    same = ground arith;
    status = rw is_sent lawful;
    transport = λ e. e;
    attempts = omega arith;
  }

  apply_statuses-Evolve :
      (pending : List Message) (db : Db)
      → ((id : Text) (s : MessageStatus) → fetch id ≡ some s → can_become sent s ≡ true)
      → IsDistinct message_clash pending
      → AreHeld db.messages pending
      → Evolve db.messages (apply_statuses fetch now pending db).messages
  unfolding apply_statuses
  apply_statuses-Evolve [] db lawful d h = Evolve-refl db.messages
  apply_statuses-Evolve (m ∷ pending) db lawful d h = elim (Option-cases (fetch (id_of m))) [
    | inl nothing ↦ rw (nothing, apply_statuses) (apply_statuses-Evolve pending db lawful d.1 h.1)
    | inr (s, told) ↦ elim (Bool-cases (status_eq s m.status)) [
      | inl same ↦ rw (told, same, apply_statuses) (apply_statuses-Evolve pending db lawful d.1 h.1)
      | inr new ↦
          rw (told, new, apply_statuses)
            (Evolve-trans db.messages (update_message m.id (polled s) db).messages _
              (Evolve-held m.id m (polled s) db.messages
                (polled-Evolves m s h.0.1 (lawful (id_of m) s told)) h.0.0)
              (apply_statuses-Evolve pending (update_message m.id (polled s) db) lawful d.1
                (AreHeld-update m (polled s) pending db.messages (λ n. refl) d.0 h.1)))
    ]
  ]

  sent_of_chased : (m : Message) → is_chased now m ≡ true → m.status ≡ sent
  unfolding is_chased
  sent_of_chased m h = ground (arith, h)

  chased_sent : (rows : List Message) → All (λ m. m.status ≡ sent) (select (is_chased now) rows)
  chased_sent [] = tt
  chased_sent (m ∷ rows) = elim (Bool-cases (is_chased now m)) [
    | inl hit ↦ rw hit (sent_of_chased m hit, chased_sent rows)
    | inr miss ↦ rw miss (chased_sent rows)
  ]

  -- Where the constraints of the tables hold, a round of the status loop with no other commit between its
  -- read and its commit, where the provider tells only statuses that a sent message may take, loses no
  -- row, changes nothing that a caller handed over, and takes no status back.
  pub status_round-Evolve :
      (db : Db)
      → ((id : Text) (s : MessageStatus) → fetch id ≡ some s → can_become sent s ≡ true)
      → IsValid db
      → Evolve db.messages (status_round fetch now db db).messages
  unfolding status_round
  status_round-Evolve db lawful v =
      let pending = select (is_chased now) db.messages in
      apply_statuses-Evolve pending db lawful
        (select-IsDistinct message_clash (is_chased now) db.messages v.messages_distinct)
        (All-both (λ (p : Message). Holds p.id p db.messages) (λ (p : Message). p.status ≡ sent)
          pending
          (All-select (λ (p : Message). Holds p.id p db.messages) (is_chased now) db.messages
            (All-of_Any (λ (p : Message). Holds p.id p db.messages) db.messages
              (λ m a. Holds-of_Any m db.messages v.messages_distinct a)))
          (chased_sent db.messages))

-- The dev provider's answers move nothing: a message that it took stays as it is.
dev_polls_nothing :
    (now : ℕ) (pending : List Message) (db : Db)
    → (poll_raises dev_fetch_status pending ≡ false)
      × (apply_statuses (λ id. told_of (dev_fetch_status id)) now pending db ≡ db)
unfolding poll_raises apply_statuses
dev_polls_nothing now [] db = (refl, refl)
dev_polls_nothing now (m ∷ pending) db = dev_polls_nothing now pending db

pub dev_status_iteration :
    (now : ℕ) (seen db : Db) → status_iteration dev_fetch_status now seen db ≡ db
unfolding status_iteration status_round
dev_status_iteration now seen db =
    let (quiet, same) = dev_polls_nothing now (select (is_chased now) seen.messages) db in
    rw (quiet, status_iteration, same) refl
