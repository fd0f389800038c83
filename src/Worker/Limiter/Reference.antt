-- ===== src/Worker/Limiter/Reference.antt =====
-- The limiter (app/sms_relay/worker.py) against a count over the whole past.
use sms_relay.Common.{
  ℕ, ◌+◌, ◌≤◌, ◌≡◌, refl, ap, ◌∙◌, inl, inr, Bool, true, false, List, [], ◌∷◌, ◌++◌, reverse, arith,
  ltb, leb, if◌then◌else◌, Bool-cases, length, select, All, All-append, length-append,
  select-append, length-reverse,
}
use sms_relay.Common.Int.{ℤ, max_one}
use sms_relay.Worker.Limiter.{RateLimiter, window, new_limiter, evict, turn, passed}
use sms_relay.Worker.Limiter.Pacing.{
  IsTracking, aged, aged_old, history-aged, turn-IsTracking, turn-per_minute, IsMonotone,
  max_one_pos, All-reverse,
}

-- A message passes where, of all that have passed, fewer than the rate passed in the last window.
abbrev pub is_within : ℕ → ℕ → Bool
is_within now t = ltb now (t + window)

abbrev pub admits : ℕ → ℕ → List ℕ → Bool
admits rate now history = ltb (length (select (is_within now) history)) rate

-- The times that pass, the latest first, where each reading is tested against all of them.
unfoldable pub allowed : ℕ → List ℕ → List ℕ → List ℕ
allowed rate history [] = history
allowed rate history (now ∷ readings) =
    allowed rate (if admits rate now history then now ∷ history else history) readings

-- The deque stands in the order of time, none of it later than a time.
abbrev IsOrdered : ℕ → List ℕ → Type 0
IsOrdered last [] = Unit
IsOrdered last (t ∷ ts) = All (λ u. t ≤ u) ts × (t ≤ last) × IsOrdered last ts

IsOrdered-concat :
    (last now : ℕ) (ts : List ℕ) → last ≤ now → IsOrdered last ts → IsOrdered now (ts ++ now ∷ [])
IsOrdered-concat last now [] later h = (tt, omega arith, tt)
IsOrdered-concat last now (t ∷ ts) later h = (
  All-append (λ u. t ≤ u) ts (now ∷ []) h.0 (omega (arith, h.1), tt),
  omega (arith, h.1),
  IsOrdered-concat last now ts later h.2,
)

IsOrdered-later : (last now : ℕ) (ts : List ℕ) → last ≤ now → IsOrdered last ts → IsOrdered now ts
IsOrdered-later last now [] later h = tt
IsOrdered-later last now (t ∷ ts) later h =
    (h.0, omega (arith, h.1), IsOrdered-later last now ts later h.2)

evict-IsOrdered : (last now : ℕ) (ts : List ℕ) → IsOrdered last ts → IsOrdered last (evict now ts)
unfolding evict
evict-IsOrdered last now [] h = tt
evict-IsOrdered last now (t ∷ ts) h = elim (Bool-cases (leb (t + window) now)) [
  | inl old ↦ rw old (evict-IsOrdered last now ts h.2)
  | inr recent ↦ rw recent h
]

later_recent :
    (now t : ℕ) (ts : List ℕ)
    → leb (t + window) now ≡ false
    → All (λ u. t ≤ u) ts
    → All (λ u. is_within now u ≡ true) ts
later_recent now t [] recent h = tt
later_recent now t (u ∷ ts) recent h =
    (ground (arith, recent, h.0), later_recent now t ts recent h.1)

evict_recent :
    (last now : ℕ) (ts : List ℕ)
    → IsOrdered last ts
    → All (λ t. is_within now t ≡ true) (evict now ts)
unfolding evict
evict_recent last now [] h = tt
evict_recent last now (t ∷ ts) h = elim (Bool-cases (leb (t + window) now)) [
  | inl old ↦ rw old (evict_recent last now ts h.2)
  | inr recent ↦ rw recent (ground (arith, recent), later_recent now t ts recent h.0)
]

whole_select : (p : ℕ → Bool) (xs : List ℕ) → All (λ x. p x ≡ true) xs → select p xs ≡ xs
whole_select p [] h = refl
whole_select p (x ∷ xs) h = ground (arith, h.0, whole_select p xs h.1)

select_old :
    (now : ℕ) (xs : List ℕ) → All (λ t. t + window ≤ now) xs → select (is_within now) xs ≡ []
select_old now [] h = refl
select_old now (x ∷ xs) h = ground (arith, h.0, select_old now xs h.1)

module _ (l : RateLimiter) (history old : List ℕ) (last now : ℕ) (h : IsTracking l history old last)
    (ordered : IsOrdered last l.sent) (later : last ≤ now) where
  -- The deque after its eviction holds what has passed in the last window.
  recent-evict : length (select (is_within now) history) ≡ length (evict now l.sent)
  recent-evict =
      let kept = reverse (evict now l.sent) in
      let before = aged l history old last now h later in
      let all_recent =
        All-reverse (λ t. is_within now t ≡ true) (evict now l.sent)
          (evict_recent last now l.sent ordered) in
      omega (
        arith,
        ap (λ ts. length (select (is_within now) ts)) (history-aged l history old last now h later),
        ap length (select-append (is_within now) kept before),
        length-append (select (is_within now) kept) (select (is_within now) before),
        ap length (whole_select (is_within now) kept all_recent),
        ap length (select_old now before (aged_old l history old last now h later)),
        length-reverse (evict now l.sent),
      )

  turn-admits : (turn l now).1 ≡ admits l.per_minute now history
  unfolding turn
  turn-admits = ground (arith, recent-evict)

  turn-IsOrdered : IsOrdered now (turn l now).0.sent
  unfolding turn
  turn-IsOrdered = elim (Bool-cases (ltb (length (evict now l.sent)) l.per_minute)) [
    | inl free ↦ rw free (
        IsOrdered-concat last now (evict now l.sent) later
          (evict-IsOrdered last now l.sent ordered))
    | inr full ↦ rw full (
        IsOrdered-later last now (evict now l.sent) later (evict-IsOrdered last now l.sent ordered))
  ]

passed_tracked :
    (l : RateLimiter) (history old : List ℕ) (last : ℕ) (readings : List ℕ)
    → IsTracking l history old last
    → IsOrdered last l.sent
    → IsMonotone last readings
    → passed l history readings ≡ allowed l.per_minute history readings
unfolding passed allowed
passed_tracked l history old last [] h ordered m = refl
passed_tracked l history old last (now ∷ readings) h ordered (later, m) =
    let next = if (turn l now).1 then now ∷ history else history in
    let rest =
      passed_tracked (turn l now).0 next (aged l history old last now h later) now readings
        (turn-IsTracking l history old last now h later)
        (turn-IsOrdered l history old last now h ordered later) m in
    rest
    ∙ ap (λ rate. allowed rate next readings) (turn-per_minute l now)
    ∙ ap (λ (b : Bool). allowed l.per_minute (if b then now ∷ history else history) readings)
        (turn-admits l history old last now h ordered later)

-- With any setting and any clock that never goes back, the limiter, which keeps only the times of the
-- last minute and stops its eviction at the first that is younger, lets pass exactly what a count over all
-- that it ever let pass would: each reading before which fewer than the rate passed in the last minute.
pub passed-allowed :
    (per_minute : ℤ) (start : ℕ) (readings : List ℕ)
    → IsMonotone start readings
    → passed (new_limiter per_minute) [] readings ≡ allowed (max_one per_minute) [] readings
unfolding new_limiter
passed-allowed per_minute start readings m =
    passed_tracked (new_limiter per_minute) [] [] start readings
      (record {
        whole = refl;
        old_enough = tt;
        paced = tt;
        bounded = omega arith;
        positive = max_one_pos per_minute;
      })
      tt m
