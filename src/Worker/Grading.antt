-- ===== src/Worker/Grading.antt =====
-- A send by the gateway, from the answer to its POST (app/sms_relay/providers/android_gateway.py) to the
-- row of the message (app/sms_relay/worker.py).
use sms_relay.Common.{
  ℕ, ◌+◌, ◌≤◌, ◌<◌, ◌≡◌, refl, sym, ap, ◌∙◌, ◌⊎◌, inl, inr, Bool, true, false, ◌&&◌, not, Option,
  List, [], ◌∷◌, ◌++◌, arith, ltb, leb, ◌==◌, Bool-cases, take, All, Text, text, str_eq, decimal,
}
use sms_relay.Common.Int.{at_least}
use sms_relay.Common.Result.{Fault, Result-cases, ok, raise}
use sms_relay.Config.{Settings}
use sms_relay.External.{External}
use sms_relay.Models.{Message, MessageStatus, queued, sending, sent}
use sms_relay.Models.Db.{Db, update_message}
use sms_relay.Providers.{
  HttpOutcome, http_error, broken, response, SendOutcome, accepted, provider_error, crashed,
  accepted_body, android_send, column_text,
}
use sms_relay.Providers.Gateway.{IsRefusal, accepted_body_raises, android_send_permanent_iff}
use sms_relay.Common.Json.{Json}
use sms_relay.Worker.{failed_as, sent_as, settle}

-- The gateway cannot be reached, is busy (429) or broken (5xx).
abbrev pub IsPassing : HttpOutcome → Type 0
IsPassing (http_error _) = Unit
IsPassing broken = ⊥
IsPassing (response status_code _) = (status_code ≡ 429) ⊎ (500 ≤ status_code)

-- What the answer makes of the status of a message that is being sent.
pub record IsGraded (x : External) (settings : Settings) (m : Message) (outcome : HttpOutcome)
    (s : MessageStatus) : Type 0 where
  pub refused : IsRefusal outcome → s ≡ MessageStatus.failed
  pub given_up :
      IsPassing outcome
      → at_least (m.attempts + 1) settings.max_attempts ≡ true
      → s ≡ MessageStatus.failed
  pub retried :
      IsPassing outcome → at_least (m.attempts + 1) settings.max_attempts ≡ false → s ≡ queued
  pub taken :
      (status_code : ℕ) (body : Text) (id : Json) (provider_id : Option Text)
      → outcome ≡ response status_code body
      → status_code < 400
      → accepted_body x body ≡ accepted id
      → column_text x id ≡ ok provider_id
      → s ≡ sent
  pub unstorable :
      (status_code : ℕ) (body : Text) (id : Json) (f : Fault)
      → outcome ≡ response status_code body
      → status_code < 400
      → accepted_body x body ≡ accepted id
      → column_text x id ≡ raise f
      → s ≡ sending
  pub stranded :
      (status_code : ℕ) (body : Text)
      → outcome ≡ response status_code body
      → status_code < 400
      → accepted_body x body ≡ crashed
      → s ≡ sending

module _ (x : External) (settings : Settings) (now : ℕ) (m : Message) where
  abbrev pub AreGraded : HttpOutcome → Db → Type 0
  AreGraded outcome db =
      All (λ (k : Message). str_eq k.id m.id ≡ true → IsGraded x settings m outcome k.status)
        db.messages

  AreGraded-update :
      (outcome : HttpOutcome) (f : Message → Message) (db : Db)
      → ((k : Message) → IsGraded x settings m outcome (f k).status)
      → AreGraded outcome (update_message m.id f db)
  AreGraded-update outcome f db graded = each db.messages
    where
      each :
          (rows : List Message)
          → AreGraded outcome (update_message m.id f (record db { messages = rows }))
      each [] = tt
      each (k ∷ rows) = elim (Bool-cases (str_eq k.id m.id)) [
        | inl hit ↦ rw hit ((λ _. graded k), each rows)
        | inr miss ↦ rw miss ((λ h. absurd (cc (sym miss ∙ h))), each rows)
      ]

  AreGraded-kept :
      (outcome : HttpOutcome) (rows : List Message)
      → IsGraded x settings m outcome sending
      → All (λ (k : Message). str_eq k.id m.id ≡ true → k.status ≡ sending) rows
      → All (λ (k : Message). str_eq k.id m.id ≡ true → IsGraded x settings m outcome k.status) rows
  AreGraded-kept outcome [] graded h = tt
  AreGraded-kept outcome (k ∷ rows) graded h =
      ((λ hit. rw (h.0 hit) graded), AreGraded-kept outcome rows graded h.1)

  low_answer :
      (outcome : HttpOutcome) (status_code : ℕ) (body : Text)
      → outcome ≡ response status_code body
      → status_code < 400
      → android_send x outcome ≡ accepted_body x body
  unfolding android_send
  low_answer outcome status_code body e low = rw e (ground (arith, low))

  passing_false : (outcome : HttpOutcome) → IsPassing outcome → IsRefusal outcome → ⊥
  passing_false (http_error exc) p r = r
  passing_false broken p r = r
  passing_false (response status_code body) p (low, high, other) = elim p [
    | inl busy ↦ other busy
    | inr down ↦ omega (arith, down, high)
  ]

  failed-IsGraded :
      (outcome : HttpOutcome) (message : Text) (permanent : Bool) (k : Message)
      → android_send x outcome ≡ provider_error message permanent
      → IsGraded x settings m outcome
          (failed_as settings now (m.attempts + 1) message permanent k).status
  unfolding failed_as
  failed-IsGraded outcome message permanent k e =
      let (final, refusal) = android_send_permanent_iff x outcome e in
      record {
        refused = λ r. let p = refusal r in ground (arith, p);
        given_up = λ _ used. ground (arith, used);
        retried = λ p left. elim (Bool-cases permanent) [
          | inl last ↦ absurd (passing_false outcome p (final last))
          | inr again ↦ ground (arith, again, left)
        ];
        taken = λ c body id pid o low is_id _. absurd (
            accepted_body_raises x body message permanent
              (sym (low_answer outcome c body o low) ∙ e));
        unstorable = λ c body id fault o low is_id _. absurd (
            accepted_body_raises x body message permanent
              (sym (low_answer outcome c body o low) ∙ e));
        stranded = λ c body o low is_crash. absurd (
            accepted_body_raises x body message permanent
              (sym (low_answer outcome c body o low) ∙ e));
      }

  low-IsGraded :
      (c : ℕ) (body : Text) (s : MessageStatus)
      → c < 400
      → ((id : Json) (provider_id : Option Text)
          → accepted_body x body ≡ accepted id
          → column_text x id ≡ ok provider_id
          → s ≡ sent)
      → ((id : Json) (f : Fault)
          → accepted_body x body ≡ accepted id
          → column_text x id ≡ raise f
          → s ≡ sending)
      → (accepted_body x body ≡ crashed → s ≡ sending)
      → IsGraded x settings m (response c body) s
  low-IsGraded c body s low on_id on_fault on_crash = record {
    refused = λ r. absurd (omega (arith, low, r.0));
    given_up = λ p _.
        absurd
          (elim p [ inl busy ↦ omega (arith, low, busy) | inr down ↦ omega (arith, low, down) ]);
    retried = λ p _.
        absurd
          (elim p [ inl busy ↦ omega (arith, low, busy) | inr down ↦ omega (arith, low, down) ]);
    taken = λ c' body' id pid o low' is_id is_pid.
        on_id id pid (ap (λ b. accepted_body x b) (body_same c' body' o) ∙ is_id) is_pid;
    unstorable = λ c' body' id f o low' is_id refused.
        on_fault id f (ap (λ b. accepted_body x b) (body_same c' body' o) ∙ is_id) refused;
    stranded = λ c' body' o low' is_crash.
        on_crash (ap (λ b. accepted_body x b) (body_same c' body' o) ∙ is_crash);
  }
    where
      body_same : (c' : ℕ) (body' : Text) → response c body ≡ response c' body' → body ≡ body'
      body_same c' body' o = cc o

  silent-IsGraded : IsGraded x settings m broken sending
  silent-IsGraded = record {
    refused = λ r. absurd r;
    given_up = λ p _. absurd p;
    retried = λ p _. absurd p;
    taken = λ c body id pid o _ _ _. absurd (cc o);
    unstorable = λ c body id f o _ _ _. absurd (cc o);
    stranded = λ c body o _ _. refl;
  }

  answered-AreGraded :
      (c : ℕ) (body : Text) (db : Db) (o : SendOutcome)
      → c < 400
      → accepted_body x body ≡ o
      → All (λ (k : Message). str_eq k.id m.id ≡ true → k.status ≡ sending) db.messages
      → AreGraded (response c body) (settle x settings now m o db)
  unfolding settle
  answered-AreGraded c body db (provider_error message permanent) low e h =
      absurd (accepted_body_raises x body message permanent e)
  answered-AreGraded c body db crashed low e h =
      AreGraded-kept (response c body) db.messages
        (low-IsGraded c body sending low (λ id pid is_id _. absurd (cc (sym e ∙ is_id)))
          (λ id f is_id _. absurd (cc (sym e ∙ is_id))) (λ _. refl))
        h
  answered-AreGraded c body db (accepted told) low e h = elim (Result-cases (column_text x told)) [
    | inl (provider_id, bound) ↦
        rw (bound, settle)
          (AreGraded-update (response c body) (sent_as now (m.attempts + 1) provider_id) db (λ k.
            low-IsGraded c body sent low (λ id pid _ _. refl)
              (λ id f is_id refusal.
                absurd (other_id id told provider_id f (sym is_id ∙ e) refusal bound))
              (λ is_crash. absurd (cc (sym e ∙ is_crash)))))
    | inr (f, refused) ↦
        rw (refused, settle)
          (AreGraded-kept (response c body) db.messages
            (low-IsGraded c body sending low
              (λ id pid is_id is_pid.
                absurd (other_id told id pid f (sym e ∙ is_id) refused is_pid))
              (λ id g _ _. refl) (λ _. refl))
            h)
  ]
    where
      other_id :
          (a b : Json) (pid : Option Text) (f : Fault)
          → accepted a ≡ accepted b
          → column_text x a ≡ raise f
          → column_text x b ≡ ok pid
          → ⊥
      other_id a b pid f same refusal bound = cc (same, refusal, bound)

  -- What the gateway answers to the POST of a message that is being sent settles the status of its row: a
  -- 4xx other than 429 is final; where the gateway cannot be reached, is busy or broken, the message
  -- fails if this attempt was the last, and else waits again; below 400 it is sent, if what the body
  -- gives for an id can be stored, and still sending, if that cannot be stored or the body is JSON on
  -- which `.get` fails.
  pub settle-AreGraded :
      (outcome : HttpOutcome) (db : Db)
      → All (λ (k : Message). str_eq k.id m.id ≡ true → k.status ≡ sending) db.messages
      → AreGraded outcome (settle x settings now m (android_send x outcome) db)
  unfolding settle android_send
  settle-AreGraded (http_error exc) db h =
      AreGraded-update (http_error exc) _ db
        (λ k. failed-IsGraded (http_error exc) (text "gateway unreachable: " ++ exc) false k refl)
  settle-AreGraded broken db h = AreGraded-kept broken db.messages silent-IsGraded h
  settle-AreGraded (response c body) db h = elim (Bool-cases (leb 400 c)) [
    | inl high ↦
        let message : Text =
          text "gateway returned " ++ (decimal c ++ (text ": " ++ take 200 body)) in
        let final : Bool = ltb c 500 && not (c == 429) in
        let told : android_send x (response c body) ≡ provider_error message final = rw high refl in
        rw high (
          AreGraded-update (response c body) (failed_as settings now (m.attempts + 1) message final)
            db (λ k. failed-IsGraded (response c body) message final k told))
    | inr low ↦
        rw low (answered-AreGraded c body db (accepted_body x body) (ground (arith, low)) refl h)
  ]
