-- ===== src/Messages/Idempotency.antt =====
-- What an idempotency key promises (app/sms_relay/routes/messages.py).
use sms_relay.Common.{
  ℕ, ◌≡◌, refl, sym, ap, ◌∙◌, subst, inl, inr, true, false, none, some, List, [], ◌∷◌, ◌++◌, arith,
  Bool-cases, Option-cases, length, any, select, head?, select-append, Text, str_eq_refl,
  str_eq_iff, str_eq_comm, is_empty,
}
use sms_relay.Common.Result.{Result, ok, >>=-eq-ok, ok_injective, Result-cases}
use sms_relay.Config.{Settings}
use sms_relay.External.{External}
use sms_relay.Models.{Message}
use sms_relay.Notifications.{topic_for}
use sms_relay.Models.Db.{Db, opt_eq_comm, message_clash}
use sms_relay.Schemas.{SendRequest, MessageOut, message_out}
use sms_relay.Messages.Checks.{key_of_keyed, checked_recipients_keyed}
use sms_relay.Messages.{
  one_or_none, has_key, existing_by_idempotency_key, key_of, checked_recipients, new_message,
  new_messages, winner, commit_messages, queue_messages, replayed, send_message,
}

-- A row with the key that a new row has stops the new row.
any-clash_of_key :
    (service key : Text) (m n : Message) (rows : List Message)
    → m.service ≡ service
    → m.idempotency_key ≡ some key
    → head? (select (has_key service key) rows) ≡ some n
    → any (message_clash m) rows ≡ true
any-clash_of_key service key m n [] e k h = cc
any-clash_of_key service key m n (r ∷ rows) e k h = ground (
  arith,
  any-clash_of_key service key m n rows e k,
  str_eq_comm r.service service,
  opt_eq_comm r.idempotency_key (some key),
)

-- Where a new row with a key is stored, no stored row has the key.
select_of_no_clash :
    (service key : Text) (m : Message) (rows : List Message)
    → m.service ≡ service
    → m.idempotency_key ≡ some key
    → any (message_clash m) rows ≡ false
    → select (has_key service key) rows ≡ []
select_of_no_clash service key m [] e k h = refl
select_of_no_clash service key m (r ∷ rows) e k h = ground (
  arith,
  select_of_no_clash service key m rows e k,
  str_eq_comm r.service service,
  opt_eq_comm r.idempotency_key (some key),
)

existing_of_append :
    (service key : Text) (m : Message) (rows : List Message)
    → m.service ≡ service
    → m.idempotency_key ≡ some key
    → any (message_clash m) rows ≡ false
    → one_or_none (select (has_key service key) (rows ++ m ∷ [])) ≡ ok (some m)
unfolding one_or_none
existing_of_append service key m rows e k free =
    rw
      (
        select-append (has_key service key) rows (m ∷ []),
        select_of_no_clash service key m rows e k free,
      )
      (ground (arith, str_eq_iff m.service service, str_eq_refl service, str_eq_refl key))

module _ (r : SendRequest) (service : Text) where
  -- What a call has shown when it returns the message that the request's key names.
  abbrev pub Names : Db → List MessageOut → Type 0
  Names db outs =
      (n : Message) × (existing_by_idempotency_key db service (key_of r) ≡ ok (some n))
      × (outs ≡ message_out n ∷ [])

  winner-Names : (db : Db) {outs : List MessageOut} → winner r service db ≡ ok outs → Names db outs
  unfolding winner
  winner-Names db {outs} h = elim (Bool-cases (is_empty (key_of r))) [
    | inl unkeyed ↦ absurd (cc (rw unkeyed at h))
    | inr keyed ↦
        let (found, e, h1) =
          >>=-eq-ok (existing_by_idempotency_key db service (key_of r)) _ (rw keyed at h) in
        elim (Option-cases found) [
          | inl missing ↦ absurd (cc (rw missing at h1))
          | inr (n, is_n) ↦ (n, e ∙ ap ok is_n, sym (ok_injective _ _ (rw is_n at h1)))
        ]
  ]

  -- What a keyed row's commit returns is what the key names from then on.
  commit_messages-Names :
      (m : Message) (db db' : Db) {outs : List MessageOut}
      → m.service ≡ service
      → m.idempotency_key ≡ some (key_of r)
      → commit_messages r service (m ∷ []) db ≡ (ok outs, db')
      → Names db' outs
  unfolding commit_messages existing_by_idempotency_key
  commit_messages-Names m db db' {outs} e k h =
      elim (Bool-cases (any (message_clash m) db.messages)) [
        | inl hit ↦
            let h1 : (winner r service db, db) ≡ (ok outs, db') = ground (arith, h, hit) in
            subst (λ d. Names d outs) (ap (λ (p : Result (List MessageOut) × Db). p.1) h1)
              (winner-Names db (ap (λ (p : Result (List MessageOut) × Db). p.0) h1))
        | inr free ↦
            let stored : Db = record db { messages = db.messages ++ m ∷ [] } in
            let h1 : (ok (message_out m ∷ []), stored) ≡ (ok outs, db') = ground (arith, h, free) in
            subst (λ d. Names d outs) (ap (λ (p : Result (List MessageOut) × Db). p.1) h1)
              (
                m,
                existing_of_append service (key_of r) m db.messages e k free,
                sym (ok_injective _ _ (ap (λ (p : Result (List MessageOut) × Db). p.0) h1)),
              )
      ]

one_or_none_head {ℓ} :
    {A : Type ℓ} (l : List A) {a : A} → one_or_none l ≡ ok (some a) → head? l ≡ some a
unfolding one_or_none
one_or_none_head [] h = cc
one_or_none_head (a ∷ []) h = ok_injective _ _ h
one_or_none_head (a ∷ b ∷ l) h = cc

module _ (x : External) (settings : Settings) where
  new_message_key :
      (r : SendRequest) (service : Text) (now : ℕ) (id to_number : Text) {m : Message}
      → new_message x settings r service now id to_number ≡ ok m
      → (m.service ≡ service) × (m.idempotency_key ≡ r.idempotency_key)
  unfolding new_message
  new_message_key r service now id to_number h =
      let (topic, _, h1) = >>=-eq-ok (topic_for x settings service to_number r.body) _ h in
      let same = ok_injective _ _ h1 in
      (
        sym (ap (λ (m : Message). m.service) same),
        sym (ap (λ (m : Message). m.idempotency_key) same),
      )

  new_messages_one :
      (r : SendRequest) (service : Text) (now : ℕ) (uuid4 : ℕ → Text) (normalized : List Text)
      {created : List Message}
      → length normalized ≡ 1
      → new_messages x settings r service now uuid4 0 normalized ≡ ok created
      → (m : Message) × (created ≡ m ∷ [])
        × (m.service ≡ service)
        × (m.idempotency_key ≡ r.idempotency_key)
  unfolding new_messages
  new_messages_one r service now uuid4 [] e h = absurd (omega arith)
  new_messages_one r service now uuid4 (a ∷ b ∷ l) e h = absurd (omega arith)
  new_messages_one r service now uuid4 (a ∷ []) e h =
      let (m, made, h1) = >>=-eq-ok (new_message x settings r service now (uuid4 0) a) _ h in
      let (same_service, same_key) = new_message_key r service now (uuid4 0) a made in
      (m, sym (ok_injective _ _ h1), same_service, same_key)

  queue_messages-Names :
      (r : SendRequest) (service : Text) (now : ℕ) (uuid4 : ℕ → Text) (normalized : List Text)
      (db db' : Db) {outs : List MessageOut}
      → is_empty (key_of r) ≡ false
      → length normalized ≡ 1
      → queue_messages x settings r service now uuid4 normalized db ≡ (ok outs, db')
      → Names r service db' outs
  unfolding queue_messages
  queue_messages-Names r service now uuid4 normalized db db' {outs} keyed one h =
      elim (Result-cases (new_messages x settings r service now uuid4 0 normalized)) [
        | inr (e, refused) ↦ absurd (ground (arith, h, refused))
        | inl (created, made) ↦
            let (m, single, same_service, same_key) =
              new_messages_one r service now uuid4 normalized one made in
            let h1 : commit_messages r service (m ∷ []) db ≡ (ok outs, db') =
              rw (← single) (ground (arith, h, made)) in
            commit_messages-Names r service m db db' same_service (same_key ∙ key_of_keyed r keyed)
              h1
      ]

  -- With no other commit between its read and its own commit, a keyed request that is answered
  -- returns exactly the message that its key names from then on.
  pub send_message-Names :
      (r : SendRequest) (service : Text) (now : ℕ) (uuid4 : ℕ → Text) (db db' : Db)
      {outs : List MessageOut}
      → is_empty (key_of r) ≡ false
      → send_message x settings r service now uuid4 db db ≡ (ok outs, db')
      → Names r service db' outs
  unfolding send_message replayed
  send_message-Names r service now uuid4 db db' {outs} keyed h =
      elim (Result-cases (checked_recipients x settings r)) [
        | inr (e, refused) ↦ absurd (ground (arith, h, refused))
        | inl (normalized, checked) ↦
            elim (Result-cases (existing_by_idempotency_key db service (key_of r))) [
              | inr (e, several) ↦ absurd (ground (arith, h, checked, several, keyed))
              | inl (none, fresh) ↦
                  queue_messages-Names r service now uuid4 normalized db db' keyed
                    (checked_recipients_keyed x settings r keyed checked)
                    (ground (arith, h, checked, fresh, keyed))
              | inl (some m, known) ↦
                  let h1 : (ok (message_out m ∷ []), db) ≡ (ok outs, db') =
                    ground (arith, h, checked, known, keyed) in
                  subst (λ d. Names r service d outs)
                    (ap (λ (p : Result (List MessageOut) × Db). p.1) h1)
                    (
                      m,
                      known,
                      sym (ok_injective _ _ (ap (λ (p : Result (List MessageOut) × Db). p.0) h1)),
                    )
            ]
      ]

  -- A request is answered, with no other commit between its read and its own. A repeat with the same
  -- key and any one valid recipient and body, which reads the table as the first left it, returns the
  -- same message and stores nothing, whatever is committed between its read and its answer.
  pub send_message_replay :
      (r again : SendRequest) (service : Text) (now later : ℕ) (uuid4 uuid4' : ℕ → Text)
      (db db' later_db : Db) {outs : List MessageOut} {normalized : List Text}
      → is_empty (key_of r) ≡ false
      → send_message x settings r service now uuid4 db db ≡ (ok outs, db')
      → key_of again ≡ key_of r
      → checked_recipients x settings again ≡ ok normalized
      → send_message x settings again service later uuid4' db' later_db ≡ (ok outs, later_db)
  unfolding send_message replayed
  send_message_replay r again service now later uuid4 uuid4' db db' later_db {outs} keyed h same
        checked =
      let (n, known, only) = send_message-Names r service now uuid4 db db' keyed h in
      let known' : existing_by_idempotency_key db' service (key_of again) ≡ ok (some n) =
        rw same known in
      let keyed' : is_empty (key_of again) ≡ false = rw same keyed in
      rw only (ground (arith, checked, known', keyed'))

  -- Of two requests with one key that both find the key free, the one whose commit comes second, with
  -- a valid recipient and a route that raises nothing, stores nothing and returns the message that the
  -- first one stored.
  pub send_message_race :
      (r : SendRequest) (service : Text) (now : ℕ) (uuid4 : ℕ → Text) (seen db : Db)
      {winning : Message} {normalized : List Text} {created : List Message}
      → is_empty (key_of r) ≡ false
      → checked_recipients x settings r ≡ ok normalized
      → new_messages x settings r service now uuid4 0 normalized ≡ ok created
      → existing_by_idempotency_key seen service (key_of r) ≡ ok none
      → existing_by_idempotency_key db service (key_of r) ≡ ok (some winning)
      → send_message x settings r service now uuid4 seen db ≡ (ok (message_out winning ∷ []), db)
  unfolding send_message replayed queue_messages commit_messages winner existing_by_idempotency_key
  send_message_race r service now uuid4 seen db {winning} {normalized} keyed checked made free
        taken =
      let (m, single, same_service, same_key) =
        new_messages_one r service now uuid4 _ (checked_recipients_keyed x settings r keyed checked)
          made in
      let made' : new_messages x settings r service now uuid4 0 normalized ≡ ok (m ∷ []) =
        made ∙ ap ok single in
      let clash : any (message_clash m) db.messages ≡ true =
        any-clash_of_key service (key_of r) m winning db.messages same_service
          (same_key ∙ key_of_keyed r keyed) (one_or_none_head _ taken) in
      ground (arith, checked, made', free, taken, clash, keyed)
