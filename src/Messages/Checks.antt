-- ===== src/Messages/Checks.antt =====
-- What the checks before the database leave of a request (app/sms_relay/routes/messages.py).
use sms_relay.Common.{
  ℕ, ◌≤◌, ◌<◌, ◌≡◌, subst, Bool, false, ◌&&◌, not, some, List, [], ◌∷◌, arith, ltb, length, is_nil,
  Text, is_empty,
}
use sms_relay.Common.Result.{
  Fault, invalid_phone_number, raise_if, traverse, length-traverse, Result, ok, raise, >>=-eq-ok,
  ok_injective,
}
use sms_relay.Config.{Settings}
use sms_relay.External.{External}
use sms_relay.Phone.{normalize}
use sms_relay.Schemas.{SendRequest}
use sms_relay.Messages.{key_of, recipients_of, as_unprocessable, checked_recipients}

as_unprocessable_ok {ℓ} : {A : Type ℓ} (r : Result A) {a : A} → as_unprocessable r ≡ ok a → r ≡ ok a
unfolding as_unprocessable
as_unprocessable_ok (raise (invalid_phone_number e)) h = cc
as_unprocessable_ok r h = h

is_nil_refused :
    (l : List Text) (e : Fault) {u : Unit {0}} → raise_if (is_nil l) e ≡ ok u → 0 < length l
is_nil_refused [] e h = cc
is_nil_refused (a ∷ l) e h = omega arith

keyed_one :
    (unkeyed : Bool) (n : ℕ) (e : Fault) {u : Unit {0}}
    → unkeyed ≡ false
    → raise_if (not unkeyed && ltb 1 n) e ≡ ok u
    → n ≤ 1
keyed_one unkeyed n e keyed h = ground arith

pub key_of_keyed :
    (r : SendRequest) → is_empty (key_of r) ≡ false → r.idempotency_key ≡ some (key_of r)
key_of_keyed r h = ground arith

module _ (x : External) (settings : Settings) where
  checked_recipients_lengths :
      (r : SendRequest) {normalized : List Text}
      → checked_recipients x settings r ≡ ok normalized
      → (0 < length normalized) × (is_empty (key_of r) ≡ false → length normalized ≤ 1)
  unfolding checked_recipients
  checked_recipients_lengths r {normalized} h =
      let (_, some_recipient, h1) = >>=-eq-ok (raise_if (is_nil (recipients_of r)) _) _ h in
      let (found, all_normal, h2) =
        >>=-eq-ok (as_unprocessable (traverse (normalize x settings) (recipients_of r))) _ h1 in
      let (_, one, h3) =
        >>=-eq-ok (raise_if (not (is_empty (key_of r)) && ltb 1 (length found)) _) _ h2 in
      let same : found ≡ normalized = ok_injective _ _ h3 in
      let lengths =
        length-traverse (normalize x settings) (recipients_of r)
          (as_unprocessable_ok _ all_normal) in
      subst (λ l. (0 < length l) × (is_empty (key_of r) ≡ false → length l ≤ 1)) same
        (
          omega (arith, lengths, is_nil_refused (recipients_of r) _ some_recipient),
          λ keyed. keyed_one (is_empty (key_of r)) (length found) _ keyed one,
        )

  -- A request that passes the checks has a recipient.
  pub checked_recipients_some :
      (r : SendRequest) {normalized : List Text}
      → checked_recipients x settings r ≡ ok normalized
      → 0 < length normalized
  checked_recipients_some r h = (checked_recipients_lengths r h).0

  -- A keyed request has one recipient.
  pub checked_recipients_keyed :
      (r : SendRequest) {normalized : List Text}
      → is_empty (key_of r) ≡ false
      → checked_recipients x settings r ≡ ok normalized
      → length normalized ≡ 1
  checked_recipients_keyed r keyed h =
      let (some_one, at_most_one) = checked_recipients_lengths r h in
      omega (arith, at_most_one keyed)
