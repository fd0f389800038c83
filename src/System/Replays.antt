-- ===== src/System/Replays.antt =====
-- A request that is repeated after other requests and the loops have run
-- (app/sms_relay/routes/messages.py, app/sms_relay/worker.py).
use sms_relay.Common.{
  ℕ, ◌≡◌, refl, sym, ap, true, false, Option, none, some, List, [], ◌∷◌, arith, &&-eq-true, Text,
  str_eq_refl, str_eq_iff, is_empty,
}
use mathlib.Core.Option.{some-injective}
use sms_relay.Common.Result.{Result, ok, ok_injective}
use sms_relay.Config.{Settings}
use sms_relay.External.{External}
use sms_relay.Messages.{
  one_or_none, has_key, existing_by_idempotency_key, key_of, checked_recipients, replayed,
  send_message,
}
use sms_relay.Messages.Idempotency.{send_message-Names}
use sms_relay.Models.{Message}
use sms_relay.Models.Db.{Db, opt_eq, message_clash}
use sms_relay.Models.Db.Constraints.{IsSound}
use sms_relay.Models.Db.Growth.{Grows-alone}
use sms_relay.Schemas.{SendRequest, MessageOut, message_out}
use sms_relay.Models.Lifecycle.{IsSameMessage}
use sms_relay.System.{Step, outside, writes, sends, Writes}
use sms_relay.System.Invariant.{Step-IsSound, Writes-Sound}

module _ (service key : Text) where
  has_key_fixed :
      (m n : Message) → IsSameMessage m n → has_key service key m ≡ has_key service key n
  has_key_fixed m n s = rw (s.service, s.idempotency_key) refl

  held_key : (k : Option Text) → opt_eq k (some key) ≡ true → k ≡ some key
  held_key none h = absurd (cc h)
  held_key (some a) h = ap some ((str_eq_iff a key).0 h)

  has_key_holds :
      (m : Message)
      → has_key service key m ≡ true
      → (m.service ≡ service) × (m.idempotency_key ≡ some key)
  has_key_holds m h =
      let (mine, named) = &&-eq-true _ _ h in
      ((str_eq_iff m.service service).0 mine, held_key m.idempotency_key named)

  has_key_once :
      (m n : Message)
      → has_key service key m ≡ true
      → has_key service key n ≡ true
      → message_clash m n ≡ true
  has_key_once m n h k =
      let (s, i) = has_key_holds m h in
      let (t, j) = has_key_holds n k in
      ground (arith, s, t, i, j, str_eq_refl service, str_eq_refl key)

one_or_none_single {ℓ} :
    {A : Type ℓ} (l : List A) {a : A} → one_or_none l ≡ ok (some a) → l ≡ a ∷ []
unfolding one_or_none
one_or_none_single [] h = cc
one_or_none_single (a ∷ []) h = ap (λ b. b ∷ []) (some-injective _ _ (ok_injective _ _ h))
one_or_none_single (a ∷ b ∷ l) h = cc

module _ (x : External) (settings : Settings) where
  -- The row that a key names is the row that it names after any number of commits that delete nothing.
  Writes-existing :
      (service key : Text) (db db' : Db) (n : Message)
      → IsSound db
      → Writes x settings db db'
      → existing_by_idempotency_key db service key ≡ ok (some n)
      → (n' : Message) × IsSameMessage n n'
        × (existing_by_idempotency_key db' service key ≡ ok (some n'))
  unfolding existing_by_idempotency_key one_or_none
  Writes-existing service key db db' n s w known =
      let (sound, grown) = Writes-Sound x settings w s in
      let (n', same, there) =
        Grows-alone (has_key service key) (has_key_fixed service key) (has_key_once service key) db
          db' n grown sound.valid.messages_distinct (one_or_none_single _ known) in
      (n', same, rw there refl)

  -- In a database that is sound, a request with a key that is answered with no other commit between its
  -- read and its own, and repeated, with the same key and any one valid recipient and body, after any
  -- commits of the requests and loops that delete nothing, returns the message of the first answer
  -- again, as it is by then, and stores nothing.
  pub later_replay :
      (r again : SendRequest) (service : Text) (now later : ℕ) (uuid4 uuid4' : ℕ → Text)
      (db db' db'' later_db : Db) {outs : List MessageOut} {normalized : List Text}
      → IsSound db
      → is_empty (key_of r) ≡ false
      → send_message x settings r service now uuid4 db db ≡ (ok outs, db')
      → Writes x settings db' db''
      → key_of again ≡ key_of r
      → checked_recipients x settings again ≡ ok normalized
      → (n n' : Message) × (outs ≡ message_out n ∷ [])
        × (n'.id ≡ n.id)
        × (send_message x settings again service later uuid4' db'' later_db
            ≡ (ok (message_out n' ∷ []), later_db))
  unfolding send_message replayed
  later_replay r again service now later uuid4 uuid4' db db' db'' later_db {outs} s keyed h w same
        checked =
      let (n, known, only) = send_message-Names x settings r service now uuid4 db db' keyed h in
      let first : Step x settings db db' = writes (
        outside (
          sends r service now uuid4 db
            (sym (ap (λ (p : Result (List MessageOut) × Db). p.1) h)))) in
      let (n', row, known') =
        Writes-existing service (key_of r) db' db'' n (Step-IsSound x settings first s) w known in
      let known'' : existing_by_idempotency_key db'' service (key_of again) ≡ ok (some n') =
        rw same known' in
      let keyed' : is_empty (key_of again) ≡ false = rw same keyed in
      (n, n', only, sym row.id, ground (arith, checked, known'', keyed'))
