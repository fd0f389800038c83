-- ===== src/Worker/Outcomes.antt =====
-- What becomes of each row in a round of the send loop, and on what answer of the outside
-- (app/sms_relay/worker.py, send_loop).
use sms_relay.Common.{
  ◌+◌, ◌≡◌, refl, sym, ap, ◌∙◌, subst, ◌⊎◌, inl, inr, Bool, true, false, ◌||◌, Option, some, List,
  [], ◌∷◌, update, All, Pointwise, Pointwise-update, Text, str_eq,
}
use sms_relay.Common.Int.{at_least}
use sms_relay.Common.Json.{Json}
use sms_relay.Common.Result.{ok}
use sms_relay.Config.{Settings}
use sms_relay.External.{External}
use sms_relay.Models.{Message, MessageStatus, queued, sending, sent, published, is_ntfy}
use sms_relay.Models.Held.{Holds}
use sms_relay.Providers.{accepted, provider_error, column_text}
use sms_relay.Worker.{send_backoff, Answers}
pub mod Rounds

-- The message waits or is being sent.
abbrev pub IsOpen : Message → Type 0
IsOpen m = (m.status ≡ queued) ⊎ (m.status ≡ sending)

-- What the steps before the last commit of a round do to a row: a row that is not open keeps its
-- status, an open one stays open, and no attempt is counted.
pub record Prepares (m n : Message) : Type 0 where
  pub status : (n.status ≡ m.status) ⊎ (IsOpen m × IsOpen n)
  pub attempts : n.attempts ≡ m.attempts
  pub transport : is_ntfy n.transport ≡ true → is_ntfy m.transport ≡ true

pub Prepares-refl : (m : Message) → Prepares m m
Prepares-refl m = record { status = inl refl; attempts = refl; transport = λ e. e }

-- An update of the row that is held relates each row to what becomes of it, if it does so for the
-- row held.
pub Pointwise-held :
    (R : Message → Message → Type 0)
    → ((m : Message) → R m m)
    → (id : Text) (m : Message) (f : Message → Message) (rows : List Message) → R m (f m)
    → Holds id m rows
    → Pointwise R rows (update (λ n. str_eq n.id id) f rows)
Pointwise-held R keep id m f rows lawful h =
    Pointwise-update R keep (λ n. str_eq n.id id) f rows (each rows h)
  where
    each :
        (ns : List Message)
        → Holds id m ns
        → All (λ (n : Message). str_eq n.id id ≡ true → R n (f n)) ns
    each [] k = tt
    each (n ∷ ns) k = (λ e. subst (λ r. R r (f r)) (sym (k.0 e)) lawful, each ns k.1)

module _ (x : External) (settings : Settings) (a : Answers) where
  -- A row before and after the round: nothing happened to it; it was open and still is, no attempt
  -- having come to an end; ntfy took it; the provider took it, and its id is stored; an attempt
  -- failed, which was not the last; or one failed for good or was the last.
  pub data Becomes (m n : Message) : Type 0 where
    stays : n.status ≡ m.status → n.attempts ≡ m.attempts → Becomes m n
    waits : IsOpen m → IsOpen n → n.attempts ≡ m.attempts → Becomes m n
    got_published :
        (receipt : Text)
        → IsOpen m
        → is_ntfy m.transport ≡ true
        → a.publication ≡ ok receipt
        → n.status ≡ published
        → n.attempts ≡ m.attempts
        → Becomes m n
    got_sent :
        (id : Json) (provider_id : Option Text)
        → IsOpen m
        → a.sending_outcome ≡ accepted id
        → column_text x id ≡ ok provider_id
        → n.status ≡ sent
        → n.attempts ≡ m.attempts + 1
        → n.provider_message_id ≡ provider_id
        → Becomes m n
    retried :
        (message : Text)
        → IsOpen m
        → a.sending_outcome ≡ provider_error message false
        → at_least (m.attempts + 1) settings.max_attempts ≡ false
        → n.status ≡ queued
        → n.attempts ≡ m.attempts + 1
        → n.next_attempt_at ≡ some (send_backoff a.send_time (m.attempts + 1))
        → Becomes m n
    gave_up :
        (message : Text) (permanent : Bool)
        → IsOpen m
        → a.sending_outcome ≡ provider_error message permanent
        → permanent || at_least (m.attempts + 1) settings.max_attempts ≡ true
        → n.status ≡ MessageStatus.failed
        → n.attempts ≡ m.attempts + 1
        → Becomes m n

  pub Becomes-refl : (m : Message) → Becomes m m
  Becomes-refl m = stays refl refl

  opened : (m k : Message) → Prepares m k → IsOpen k → IsOpen m
  opened m k p o = elim p.status [
    | inl same ↦ elim o [ inl q ↦ inl (sym same ∙ q) | inr s ↦ inr (sym same ∙ s) ]
    | inr both ↦ both.0
  ]

  Becomes-prepared : (m k n : Message) → Prepares m k → Becomes k n → Becomes m n
  Becomes-prepared m k n p (stays s t) = elim p.status [
    | inl same ↦ stays (s ∙ same) (t ∙ p.attempts)
    | inr (o, inl q) ↦ waits o (inl (s ∙ q)) (t ∙ p.attempts)
    | inr (o, inr r) ↦ waits o (inr (s ∙ r)) (t ∙ p.attempts)
  ]
  Becomes-prepared m k n p (waits o o' t) = waits (opened m k p o) o' (t ∙ p.attempts)
  Becomes-prepared m k n p (got_published receipt o by e s t) =
      got_published receipt (opened m k p o) (p.transport by) e s (t ∙ p.attempts)
  Becomes-prepared m k n p (got_sent id pid o e b s t i) =
      got_sent id pid (opened m k p o) e b s (t ∙ ap (λ c. c + 1) p.attempts) i
  Becomes-prepared m k n p (retried message o e left s t w) =
      retried message (opened m k p o) e (rw p.attempts at left) s (t ∙ ap (λ c. c + 1) p.attempts)
        (rw p.attempts at w)
  Becomes-prepared m k n p (gave_up message permanent o e over s t) =
      gave_up message permanent (opened m k p o) e (rw p.attempts at over) s
        (t ∙ ap (λ c. c + 1) p.attempts)

  pub Pointwise-prepared :
      (rows mid later : List Message)
      → Pointwise Prepares rows mid
      → Pointwise Becomes mid later
      → Pointwise Becomes rows later
  Pointwise-prepared [] [] [] p h = tt
  Pointwise-prepared [] [] (n ∷ later) p h = elim h [ ]
  Pointwise-prepared [] (k ∷ mid) later p h = elim p [ ]
  Pointwise-prepared (m ∷ rows) [] later p h = elim p [ ]
  Pointwise-prepared (m ∷ rows) (k ∷ mid) [] p h = elim h [ ]
  Pointwise-prepared (m ∷ rows) (k ∷ mid) (n ∷ later) p h =
      (Becomes-prepared m k n p.0 h.0, Pointwise-prepared rows mid later p.1 h.1)
