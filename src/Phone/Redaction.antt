-- ===== src/Phone/Redaction.antt =====
-- What a log line can tell of a number (app/sms_relay/phone.py).
use sms_relay.Common.{
  ℕ, ◌-◌, ◌<◌, ◌≡◌, inl, inr, Bool, some, ◌∷◌, reverse, arith, leb, leb_false→lt, Bool-cases,
  length, take, replicate, select, length-append, length-take, length-replicate, length-reverse,
  Text, last_n,
}
use sms_relay.Phone.{star, mask, redact}

length-last_four : (d : Text) → 4 < length d → length (last_n 4 d) ≡ 4
length-last_four d h =
    omega (arith, length-reverse (take 4 (reverse d)), length-take 4 (reverse d), length-reverse d)

length-mask : (d : Text) → length (mask d) ≡ length d
unfolding mask
length-mask d = elim (Bool-cases (leb (length d) 4)) [
  | inl short ↦ rw short (length-replicate (length d) star)
  | inr long ↦ rw long (
      omega (
        arith,
        length-append (replicate (length d - 4) star) (last_n 4 d),
        length-replicate (length d - 4) star,
        length-last_four d (ground arith),
        leb_false→lt (length d) 4 long,
      ))
]

mask_of_last_four :
    (d e : Text) → length d ≡ length e → (4 < length d → last_n 4 d ≡ last_n 4 e) → mask d ≡ mask e
unfolding mask
mask_of_last_four d e same last = elim (Bool-cases (leb (length d) 4)) [
  | inl short ↦ rw (← same, short)
  | inr long ↦ rw (← same, long, last (leb_false→lt (length d) 4 long))
]

-- The digits of a number that has some character.
abbrev pub digits_of : (ℕ → Bool) → ℕ → Text → Text
digits_of isdigit c s = select isdigit (c ∷ s)

-- A redacted number has as many characters as the number has digits. Two numbers with equally many
-- digits, and with the same last four where there are more than four, are redacted to the same
-- text: a log line tells nothing else of the number.
pub redact_only_last_four :
    (isdigit : ℕ → Bool) (c d : ℕ) (s t : Text)
    → length (digits_of isdigit c s) ≡ length (digits_of isdigit d t)
    → (4 < length (digits_of isdigit c s)
        → last_n 4 (digits_of isdigit c s) ≡ last_n 4 (digits_of isdigit d t))
    → (length (redact isdigit (some (c ∷ s))) ≡ length (digits_of isdigit c s))
      × (redact isdigit (some (c ∷ s)) ≡ redact isdigit (some (d ∷ t)))
redact_only_last_four isdigit c d s t e same = (
  unfold redact in length-mask (digits_of isdigit c s),
  unfold redact in mask_of_last_four (digits_of isdigit c s) (digits_of isdigit d t) e same,
)
