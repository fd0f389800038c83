-- ===== src/Grafana/Size.antt =====
-- The size of the text of a group of alerts (app/sms_relay/routes/grafana.py).
use sms_relay.Common.{
  ℕ, zero, suc, ◌+◌, ◌-◌, ◌/◌, ◌%◌, ◌≤◌, ◌≡◌, refl, ◌⊎◌, inl, inr, false, List, [], ◌∷◌, arith, ltb,
  Bool-cases, length, length-append, Text, text, decimal, join,
}
use sms_relay.Common.Strings.{decimal_from}
use sms_relay.Grafana.{kept_lines, joined, left_out, group_text}

-- What is kept is nothing, or it fits behind what is used.
joined-kept_lines :
    (used : ℕ) (texts : List Text)
    → (kept_lines used texts ≡ []) ⊎ (used + length (joined (kept_lines used texts)) ≤ 3800)
unfolding kept_lines join
joined-kept_lines used [] = inl refl
joined-kept_lines used (line ∷ texts) = elim (Bool-cases (ltb 3800 (used + length line))) [
  | inl over ↦ inl (rw (over, kept_lines))
  | inr fits ↦ inr (
      rw (fits, kept_lines)
        (with_rest fits (kept_lines (used + length line + 2) texts)
          (joined-kept_lines (used + length line + 2) texts)))
]
  where
    with_rest :
        ltb 3800 (used + length line) ≡ false
        → (rest : List Text) → (rest ≡ []) ⊎ (used + length line + 2 + length (joined rest) ≤ 3800)
        → used + length (joined (line ∷ rest)) ≤ 3800
    with_rest fits [] h = ground (arith, fits)
    with_rest fits (next ∷ rest) (inl h) = absurd (cc h)
    with_rest fits (next ∷ rest) (inr h) =
        omega (arith, h, length-append line (10 ∷ 10 ∷ joined (next ∷ rest)))

one_digit : (fuel n : ℕ) (acc : Text) → n ≤ 9 → length (decimal_from fuel n acc) ≤ length acc + 1
unfolding decimal_from
one_digit zero n acc h = omega arith
one_digit (suc fuel) n acc h = ground (arith, h)

two_digits : (fuel n : ℕ) (acc : Text) → n ≤ 99 → length (decimal_from fuel n acc) ≤ length acc + 2
unfolding decimal_from
two_digits zero n acc h = omega arith
two_digits (suc fuel) n acc h =
    ground (arith, h, one_digit fuel (n / 10) ((n % 10 + 48) ∷ acc) (omega arith))

three_digits :
    (fuel n : ℕ) (acc : Text) → n ≤ 999 → length (decimal_from fuel n acc) ≤ length acc + 3
unfolding decimal_from
three_digits zero n acc h = omega arith
three_digits (suc fuel) n acc h =
    ground (arith, h, two_digits fuel (n / 10) ((n % 10 + 48) ∷ acc) (omega arith))

length-left_out : (n : ℕ) → n ≤ 100 → length (left_out n) ≤ 37
unfolding left_out text decimal
length-left_out n h = omega (
  arith,
  three_digits (suc n) n [] (omega arith),
  length-append (decimal n) (text " additional alerts; see Grafana."),
)

length-joined : (texts : List Text) → length (joined (kept_lines 0 texts)) ≤ 3800
unfolding join
length-joined texts = elim (joined-kept_lines 0 texts) [
  | inl nothing ↦ rw nothing (omega arith)
  | inr fits ↦ omega (arith, fits)
]

-- The text of a group of at most 100 alerts has at most 3837 characters, and so fits into a request,
-- which takes 4000, whatever the alerts say.
pub length-group_text : (texts : List Text) → length texts ≤ 100 → length (group_text texts) ≤ 3837
unfolding group_text
length-group_text texts h =
    let lines = kept_lines 0 texts in
    elim (Bool-cases (ltb (length lines) (length texts))) [
      | inr whole ↦ rw (whole, group_text) (omega (arith, length-joined texts))
      | inl short ↦
          rw (short, group_text)
            (omega (
              arith,
              length-joined texts,
              length-left_out (length texts - length lines) (omega (arith, h)),
              length-append (joined lines) (left_out (length texts - length lines)),
            ))
    ]
