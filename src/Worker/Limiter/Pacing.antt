-- ===== src/Worker/Limiter/Pacing.antt =====
-- The rate limit over many calls, and how long a call waits (app/sms_relay/worker.py).
use sms_relay.Common.{
  ℕ, zero, suc, ◌+◌, ◌-◌, ◌≤◌, ◌<◌, ◌≡◌, refl, sym, ap, ◌∙◌, subst, inl, inr, true, false, Option,
  none, some, List, [], ◌∷◌, ◌++◌, reverse, arith, ltb, leb, if◌then◌else◌, Bool-cases, length, All,
  All-append, length-append, length-reverse,
}
use mathlib.Core.List.{reverse-append, reverse-cons, append_assoc}
use sms_relay.Common.Int.{ℤ, pos, negsuc, max_one}
use sms_relay.Worker.Limiter.{
  window, RateLimiter, new_limiter, evict, turn, sleep_time, acquire, passed,
}

-- The element at a place, if there is one.
abbrev pub get_elem? {ℓ} : {A : Type ℓ} → List A → ℕ → Option A
get_elem? [] i = none
get_elem? (x ∷ xs) zero = some x
get_elem? (x ∷ xs) (suc i) = get_elem? xs i

-- An earlier time, if there is one, lies a window or more before.
abbrev pub IsBefore : Option ℕ → ℕ → Type 0
IsBefore none now = Unit
IsBefore (some t) now = t + window ≤ now

-- Of times listed from the latest on, each lies a window or more after the n-th before it: no window
-- holds more than n of them.
abbrev pub IsPaced : ℕ → List ℕ → Type 0
IsPaced n [] = Unit
IsPaced n (t ∷ ts) = IsBefore (get_elem? ts (n - 1)) t × IsPaced n ts

IsBefore-get :
    (now : ℕ) (xs ys : List ℕ) (i : ℕ)
    → length xs ≤ i
    → All (λ t. t + window ≤ now) ys
    → IsBefore (get_elem? (xs ++ ys) i) now
IsBefore-get now [] [] i h a = tt
IsBefore-get now [] (y ∷ ys) zero h a = a.0
IsBefore-get now [] (y ∷ ys) (suc i) h a = IsBefore-get now [] ys i (omega arith) a.1
IsBefore-get now (x ∷ xs) ys zero h a = absurd (omega arith)
IsBefore-get now (x ∷ xs) ys (suc i) h a = IsBefore-get now xs ys i (omega arith) a

-- The times that `evict` drops, and those that it keeps.
pub dropped : ℕ → List ℕ → List ℕ
dropped now [] = []
dropped now (t ∷ ts) = let rest = dropped now ts in if leb (t + window) now then t ∷ rest else []

dropped-evict : (now : ℕ) (ts : List ℕ) → dropped now ts ++ evict now ts ≡ ts
unfolding dropped evict
dropped-evict now [] = refl
dropped-evict now (t ∷ ts) = ground (arith, dropped-evict now ts)

dropped_old : (now : ℕ) (ts : List ℕ) → All (λ t. t + window ≤ now) (dropped now ts)
unfolding dropped
dropped_old now [] = tt
dropped_old now (t ∷ ts) = ground (arith, dropped_old now ts)

length-evict : (now : ℕ) (ts : List ℕ) → length (evict now ts) ≤ length ts
unfolding evict
length-evict now [] = omega arith
length-evict now (t ∷ ts) = ground (arith, length-evict now ts)

-- How a limiter stands to the times that it has let pass: its deque holds the latest of them, and
-- those that it has dropped are a window old.
pub record IsTracking (l : RateLimiter) (history old : List ℕ) (last : ℕ) : Type 0 where
  pub whole : history ≡ reverse l.sent ++ old
  pub old_enough : All (λ t. t + window ≤ last) old
  pub paced : IsPaced l.per_minute history
  pub bounded : length l.sent ≤ l.per_minute
  pub positive : 0 < l.per_minute

All-later :
    (last now : ℕ) (ts : List ℕ)
    → last ≤ now
    → All (λ t. t + window ≤ last) ts
    → All (λ t. t + window ≤ now) ts
All-later last now [] h a = tt
All-later last now (t ∷ ts) h a = (omega arith, All-later last now ts h a.1)

pub All-reverse : (P : ℕ → Type 0) (xs : List ℕ) → All P xs → All P (reverse xs)
All-reverse P [] h = tt
All-reverse P (x ∷ xs) h =
    subst (All P) (sym (reverse-cons x xs))
      (All-append P (reverse xs) (x ∷ []) (All-reverse P xs h.1) (h.0, tt))

module _ (l : RateLimiter) (history old : List ℕ) (last now : ℕ) (h : IsTracking l history old last)
    (later : last ≤ now) where
  -- What is old after the eviction.
  abbrev pub aged : List ℕ
  aged = reverse (dropped now l.sent) ++ old

  pub aged_old : All (λ t. t + window ≤ now) aged
  aged_old =
      All-append _ (reverse (dropped now l.sent)) old
        (All-reverse _ (dropped now l.sent) (dropped_old now l.sent))
        (All-later last now old later h.old_enough)

  pub history-aged : history ≡ reverse (evict now l.sent) ++ aged
  history-aged =
      h.whole
      ∙ ap (λ s. reverse s ++ old) (sym (dropped-evict now l.sent))
      ∙ ap (λ s. s ++ old) (reverse-append (dropped now l.sent) (evict now l.sent))
      ∙ append_assoc (reverse (evict now l.sent)) (reverse (dropped now l.sent)) old

  room :
      ltb (length (evict now l.sent)) l.per_minute ≡ true → length (evict now l.sent) < l.per_minute
  room free = ground arith

  history-IsBefore :
      ltb (length (evict now l.sent)) l.per_minute ≡ true
      → IsBefore (get_elem? history (l.per_minute - 1)) now
  history-IsBefore free =
      subst (λ ts. IsBefore (get_elem? ts (l.per_minute - 1)) now) (sym history-aged)
        (IsBefore-get now (reverse (evict now l.sent)) aged (l.per_minute - 1)
          (omega (arith, length-reverse (evict now l.sent), room free)) aged_old)

  pub turn-IsTracking :
      IsTracking (turn l now).0 (if (turn l now).1 then now ∷ history else history) aged now
  unfolding turn
  turn-IsTracking = elim (Bool-cases (ltb (length (evict now l.sent)) l.per_minute)) [
    | inl free ↦ rw free (record {
      whole =
          ap (λ ts. now ∷ ts) history-aged
          ∙ ap (λ ts. ts ++ aged) (sym (reverse-append (evict now l.sent) (now ∷ [])));
      old_enough = aged_old;
      paced = (history-IsBefore free, h.paced);
      bounded = omega (arith, length-append (evict now l.sent) (now ∷ []), room free);
      positive = h.positive;
    })
    | inr full ↦ rw full (record {
      whole = history-aged;
      old_enough = aged_old;
      paced = h.paced;
      bounded = omega (arith, length-evict now l.sent, h.bounded);
      positive = h.positive;
    })
  ]

pub turn-per_minute : (l : RateLimiter) (now : ℕ) → (turn l now).0.per_minute ≡ l.per_minute
unfolding turn
turn-per_minute l now = ground arith

-- The readings of a clock never go back, and start no earlier than `last`.
abbrev pub IsMonotone : ℕ → List ℕ → Type 0
IsMonotone last [] = Unit
IsMonotone last (now ∷ readings) = (last ≤ now) × IsMonotone now readings

passed-IsPaced :
    (l : RateLimiter) (history old : List ℕ) (last : ℕ) (readings : List ℕ)
    → IsTracking l history old last
    → IsMonotone last readings
    → IsPaced l.per_minute (passed l history readings)
unfolding passed
passed-IsPaced l history old last [] h m = h.paced
passed-IsPaced l history old last (now ∷ readings) h (later, m) =
    subst
      (λ n.
        IsPaced n
          (passed (turn l now).0 (if (turn l now).1 then now ∷ history else history) readings))
      (turn-per_minute l now)
      (passed-IsPaced (turn l now).0 (if (turn l now).1 then now ∷ history else history)
        (aged l history old last now h later) now readings
        (turn-IsTracking l history old last now h later) m)

pub max_one_pos : (z : ℤ) → 0 < max_one z
max_one_pos (pos n) = omega arith
max_one_pos (negsuc n) = omega arith

-- With any setting and any clock that never goes back, a window of 60 seconds never holds more
-- passed messages than the rate allows, which is one where the setting is below one.
pub rate_limited :
    (per_minute : ℤ) (start : ℕ) (readings : List ℕ)
    → IsMonotone start readings
    → IsPaced (max_one per_minute) (passed (new_limiter per_minute) [] readings)
unfolding new_limiter
rate_limited per_minute start readings m =
    passed-IsPaced (new_limiter per_minute) [] [] start readings
      (record {
        whole = refl;
        old_enough = tt;
        paced = tt;
        bounded = omega arith;
        positive = max_one_pos per_minute;
      })
      m

-- The oldest time that a full deque keeps is gone after the sleep that it asks for.
evict_after_sleep :
    (l : RateLimiter) (later : ℕ) (t : ℕ) (ts : List ℕ)
    → l.sent ≡ t ∷ ts
    → t + window ≤ later
    → length (evict later l.sent) < length l.sent
unfolding evict
evict_after_sleep l later t ts e h = rw e (ground (arith, length-evict later ts))

sleep_ends :
    (l : RateLimiter) (now later t : ℕ) (ts : List ℕ)
    → l.sent ≡ t ∷ ts
    → now + sleep_time l now ≤ later
    → t + window ≤ later
unfolding sleep_time
sleep_ends l now later t ts e h = ground (arith, e, h)

head_of_full :
    (n : ℕ) (ts : List ℕ) → 0 < n → n ≤ length ts → (t : ℕ) × (rest : List ℕ) × (ts ≡ t ∷ rest)
head_of_full n [] p h = absurd (omega arith)
head_of_full n (t ∷ rest) p h = (t, rest, refl)

turn_full :
    (l : RateLimiter) (now : ℕ)
    → length l.sent ≤ l.per_minute
    → (turn l now).1 ≡ false
    → (length (turn l now).0.sent ≡ l.per_minute) × ((turn l now).0.per_minute ≡ l.per_minute)
unfolding turn
turn_full l now b waits = ground (arith, length-evict now l.sent)

second_turn :
    (l : RateLimiter) (now later : ℕ)
    → 0 < l.per_minute
    → length l.sent ≡ l.per_minute
    → now + sleep_time l now ≤ later
    → (turn l later).1 ≡ true
unfolding turn
second_turn l now later p full h =
    let (t, rest, e) = head_of_full l.per_minute l.sent p (omega arith) in
    let shorter = evict_after_sleep l later t rest e (sleep_ends l now later t rest e h) in
    ground (arith, shorter, full)

-- A call of a limiter that holds no more times than its rate, which is not zero, returns at its first
-- turn, or at the second one if it wakes no earlier than it meant to.
pub acquire_returns :
    (l : RateLimiter) (now later : ℕ) (readings : List ℕ)
    → 0 < l.per_minute
    → length l.sent ≤ l.per_minute
    → now + sleep_time (turn l now).0 now ≤ later
    → (l' : RateLimiter) × (acquire l (now ∷ later ∷ readings) ≡ some l')
unfolding acquire
acquire_returns l now later readings p b h = elim (Bool-cases (turn l now).1) [
  | inl first ↦ ((turn l now).0, rw first)
  | inr waits ↦
      let (full, same) = turn_full l now b waits in
      let second = second_turn (turn l now).0 now later (rw same p) (full ∙ sym same) h in
      ((turn (turn l now).0 later).0, rw waits (rw second))
]
