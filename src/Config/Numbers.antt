-- ===== src/Config/Numbers.antt =====
-- The numbers of the settings (app/sms_relay/config.py), read back from their digits.
use sms_relay.Common.{
  ℕ, zero, suc, ◌+◌, ◌-◌, ◌*◌, ◌/◌, ◌%◌, ◌<◌, ◌≡◌, refl, inl, inr, Bool, true, false, ◌&&◌, none,
  some, [], ◌∷◌, arith, leb, if◌then◌else◌, Bool-cases, length, all, select, Text, is_empty,
  decimal,
}
use sms_relay.Common.Strings.{decimal_from}
use sms_relay.Common.Dict.{lookup}
use sms_relay.Common.Int.{ℤ, pos}
use sms_relay.Config.{
  Environ, env, int_digits, int_max_str_digits, is_digit, int_value, py_int, env_int,
}
use sms_relay.Payload.Signing.{is_hex, strip_hexes}

-- The digits of a number, read before the rest.
read_digits :
    (fuel n : ℕ) (prev : Bool) (rest : Text)
    → n < fuel
    → int_digits prev 0 (decimal_from fuel n rest) ≡ int_digits true n rest
unfolding decimal_from int_digits
read_digits zero n prev rest h = absurd (omega (arith, h))
read_digits (suc fuel) n prev rest h = elim (Bool-cases (leb n 9)) [
  | inl short ↦
      let digit : leb b'0' (n + 48) && leb (n + 48) b'9' ≡ true = ground (arith, short) in
      let value : 0 * 10 + (n + 48 - b'0') ≡ n = omega arith in rw (short, digit, value) refl
  | inr long ↦
      let digit : leb b'0' (n % 10 + 48) && leb (n % 10 + 48) b'9' ≡ true = ground arith in
      let value : n / 10 * 10 + (n % 10 + 48 - b'0') ≡ n = omega arith in
      let first = read_digits fuel (n / 10) prev ((n % 10 + 48) ∷ rest) (ground (arith, h, long)) in
      rw (long, first, digit, value) refl
]

-- The characters that the digits consist of.
decimal_from-hex :
    (fuel n : ℕ) (rest : Text)
    → all is_hex rest ≡ true
    → all is_hex (decimal_from fuel n rest) ≡ true
unfolding decimal_from
decimal_from-hex zero n rest h = h
decimal_from-hex (suc fuel) n rest h = elim (Bool-cases (leb n 9)) [
  | inl short ↦ rw short (ground (arith, short, h))
  | inr long ↦ rw long (decimal_from-hex fuel (n / 10) ((n % 10 + 48) ∷ rest) (ground (arith, h)))
]

-- Nothing but digits.
decimal_from-is_digit :
    (fuel n : ℕ) (rest : Text)
    → select is_digit rest ≡ rest
    → select is_digit (decimal_from fuel n rest) ≡ decimal_from fuel n rest
unfolding decimal_from
decimal_from-is_digit zero n rest h = h
decimal_from-is_digit (suc fuel) n rest h = elim (Bool-cases (leb n 9)) [
  | inl short ↦
      let digit : is_digit (n + 48) ≡ true = ground (arith, short) in rw (short, digit, h) refl
  | inr long ↦
      let digit : is_digit (n % 10 + 48) ≡ true = ground arith in
      rw long (decimal_from-is_digit fuel (n / 10) ((n % 10 + 48) ∷ rest) (rw (digit, h) refl))
]

no_digits : (fuel n : ℕ) (rest : Text) → is_empty (decimal_from (suc fuel) n rest) ≡ false
unfolding decimal_from
no_digits zero n rest = ground arith
no_digits (suc fuel) n rest = elim (Bool-cases (leb n 9)) [
  | inl short ↦ rw short refl
  | inr long ↦ rw long (no_digits fuel (n / 10) ((n % 10 + 48) ∷ rest))
]

-- `int` of digits, which begin with no sign.
py_int_digits :
    (s : Text)
    → all is_hex s ≡ true
    → is_empty s ≡ false
    → py_int s ≡ (elim (int_value s) [ none ↦ none | some n ↦ some (pos n) ])
unfolding py_int
py_int_digits [] h k = absurd (cc k)
py_int_digits (c ∷ s) h k = ground (arith, h)

-- A setting that an environment gives as the digits of a number is that number, whatever the default,
-- up to the 4300 digits that `int` converts, and the default for a number of more digits.
pub env_int_reads :
    (environ : Environ) (key : Text) (default : ℤ) (n : ℕ)
    → lookup key environ ≡ some (decimal n)
    → env_int environ key default
      ≡ (if leb (length (decimal n)) int_max_str_digits then pos n else default)
unfolding env_int env decimal int_value
env_int_reads environ key default n given =
    let hex = decimal_from-hex (suc n) n [] refl in
    let some_digit = no_digits n n [] in
    let stripped = strip_hexes (decimal n) hex in
    let read = read_digits (suc n) n false [] (omega arith) in
    let number = py_int_digits (decimal n) hex some_digit in
    let digits = decimal_from-is_digit (suc n) n [] refl in
    elim (Bool-cases (leb (length (decimal n)) int_max_str_digits)) [
      | inl few ↦
          let value : int_value (decimal n) ≡ some n = rw (digits, few, read) refl in
          rw (given, stripped, some_digit, few, number, value) refl
      | inr many ↦
          let value : int_value (decimal n) ≡ none = rw (digits, many) refl in
          rw (given, stripped, some_digit, many, number, value) refl
    ]
