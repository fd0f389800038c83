-- ===== src/Inbound/Races.antt =====
-- Two deliveries of one event at a time (app/sms_relay/routes/inbound.py).
use sms_relay.Common.{
  ℕ, ◌+◌, ◌≡◌, refl, ap, ◌∙◌, Bool, true, false, ◌&&◌, not, Option, none, List, [], ◌∷◌, ◌++◌,
  arith, length, select, length-append, select-append, Text, is_empty,
}
use sms_relay.Common.Json.{obj, Props, truthy}
use sms_relay.Common.Result.{ok, raise, raise_if, multiple_results_found, >>=-eq-ok}
use sms_relay.Config.{Settings}
use sms_relay.External.{External, loaded}
use sms_relay.Inbound.{
  accepted, has_provider_id, provider_id_of, body_of, sender_of, already_received, from_number_of,
  inbound_read, receive, event_type, is_reception, handle_event, android_gateway_inbound,
}
use sms_relay.Inbound.Duplicates.{
  has_own_id, IsReceived, receive-IsReceived, handle_event-is_reception,
}
use sms_relay.Messages.{one_or_none}
use sms_relay.Models.{Message, is_inbound}
use sms_relay.Models.Db.{Db}

one_or_none_several :
    (rows : List Message) (m n : Message)
    → one_or_none ((rows ++ m ∷ []) ++ n ∷ []) ≡ raise multiple_results_found
unfolding one_or_none
one_or_none_several [] m n = refl
one_or_none_several (a ∷ []) m n = refl
one_or_none_several (a ∷ b ∷ rows) m n = refl

select_behind :
    (p : Message → Bool) (rows : List Message) (m : Message)
    → p m ≡ true
    → select p (rows ++ m ∷ []) ≡ select p rows ++ m ∷ []
select_behind p rows m h = select-append p rows (m ∷ []) ∙ ap (λ l. select p rows ++ l) (rw h refl)

already_received_twice :
    (id : Text) (db db1 db2 : Db) (m n : Message)
    → is_empty id ≡ false
    → (is_inbound m.direction && has_provider_id id m) ≡ true
    → (is_inbound n.direction && has_provider_id id n) ≡ true
    → db1.messages ≡ db.messages ++ m ∷ []
    → db2.messages ≡ db1.messages ++ n ∷ []
    → already_received id db2 ≡ raise multiple_results_found
unfolding already_received
already_received_twice id db db1 db2 m n named hit hit' stored stored' =
    let p = λ (k : Message). is_inbound k.direction && has_provider_id id k in
    rw (named, already_received)
      (ap (λ rows. one_or_none (select p rows)) (stored' ∙ ap (λ l. l ++ n ∷ []) stored)
        ∙ ap one_or_none (
            select_behind p (db.messages ++ m ∷ []) n hit'
            ∙ ap (λ l. l ++ n ∷ []) (select_behind p db.messages m hit))
        ∙ one_or_none_several (select p db.messages) m n)

module _ (x : External) (settings : Settings) (raw_body : Text) (event : Props)
    (read : x.loads raw_body ≡ loaded (obj event)) where
  android_gateway_inbound-IsReceived :
      (now : ℕ) (id : Text) (uuid4 : ℕ → Text) (seen db db' : Db) {id' : Text} {n : ℕ}
      → android_gateway_inbound x settings now id uuid4 raw_body seen db
        ≡ (ok (accepted id' n), db')
      → (is_reception (event_type event) ≡ true) × IsReceived x settings event seen db db' id'
  unfolding android_gateway_inbound handle_event
  android_gateway_inbound-IsReceived now id uuid4 seen db db' {id'} {n} h =
      let h1 : handle_event x settings now id uuid4 event seen db ≡ (ok (accepted id' n), db') =
        rw (read, android_gateway_inbound) at h in
      let reception = handle_event-is_reception x settings now id uuid4 event seen db h1 in
      (
        reception,
        receive-IsReceived x settings now id uuid4 event seen db
            (rw (reception, handle_event) at h1),
      )

  inbound_read_twice :
      (seen db2 : Db) (from_number : Option Text)
      → inbound_read x settings event seen ≡ ok (from_number, none)
      → already_received (provider_id_of x event) db2 ≡ raise multiple_results_found
      → inbound_read x settings event db2 ≡ raise multiple_results_found
  unfolding inbound_read
  inbound_read_twice seen db2 from_number found several =
      let (_, worded, h1) = >>=-eq-ok (raise_if (not (truthy (body_of event))) _) _ found in
      let (_, sender, h2) = >>=-eq-ok (from_number_of x settings (sender_of event)) _ h1 in
      ground (arith, worded, sender, several)

  -- Of two deliveries of an event that has a provider's id, both accepted since both read before either
  -- committed, with no other commit between theirs, both are stored; every later delivery of the event
  -- that reads what they left raises MultipleResultsFound and stores nothing.
  pub inbound_race :
      (now now' later : ℕ) (id id2 id3 : Text) (uuid4 uuid4' uuid4'' : ℕ → Text)
      (seen db db1 db2 later_db : Db) {id' id'' : Text} {n n' : ℕ}
      → is_empty (provider_id_of x event) ≡ false
      → android_gateway_inbound x settings now id uuid4 raw_body seen db
        ≡ (ok (accepted id' n), db1)
      → android_gateway_inbound x settings now' id2 uuid4' raw_body seen db1
        ≡ (ok (accepted id'' n'), db2)
      → (length db2.messages ≡ length db.messages + 2)
        × (android_gateway_inbound x settings later id3 uuid4'' raw_body db2 later_db
            ≡ (raise multiple_results_found, later_db))
  unfolding android_gateway_inbound handle_event receive
  inbound_race now now' later id id2 id3 uuid4 uuid4' uuid4'' seen db db1 db2 later_db named h h' =
      let (reception, r) = android_gateway_inbound-IsReceived now id uuid4 seen db db1 h in
      let (_, r') = android_gateway_inbound-IsReceived now' id2 uuid4' seen db1 db2 h' in
      let pid = provider_id_of x event in
      let several =
        already_received_twice pid db db1 db2 r.message r'.message named
          (ground (arith, r.from_gateway, has_own_id pid r.message named r.provider_id))
          (ground (arith, r'.from_gateway, has_own_id pid r'.message named r'.provider_id)) r.stored
          r'.stored in
      (
        rw
            (
              r'.stored,
              r.stored,
              length-append (db.messages ++ r.message ∷ []) (r'.message ∷ []),
              length-append db.messages (r.message ∷ []),
            )
            (omega arith),
        rw
            (
              read,
              reception,
              inbound_read_twice seen db2 r.from_number r.found several,
              android_gateway_inbound,
              handle_event,
              receive,
            )
            refl,
      )
