-- ===== src/Common/Strings.antt =====
-- A Python `str` as its list of code points, with the methods of `str` that the program calls.
use Prim.Native.Char.{code}
use Prim.Native.Nat.{ℕ, zero, suc, ◌+◌, ◌/◌, ◌%◌}
use Prim.Native.String.{String}
use mathlib.Core.Path.{◌≡◌, refl}
use mathlib.Core.Logic.{◌↔◌}
use mathlib.Core.Bool.{Bool, true, false, ◌&&◌, ◌||◌, not}
use mathlib.Core.List.{List, [], ◌∷◌, ◌++◌, map, reverse}
use native.Mathlib.Omega.{arith}
use sms_relay.Common.Tests.{leb, ◌==◌, if◌then◌else◌}
use sms_relay.Common.Lists.{take, drop, length}

abbrev pub Text : Type 0
Text = List ℕ

-- The code points of a literal.
unfoldable pub text : String → Text
text String.[] = []
text (String.◌∷◌ c s) = code c ∷ text s

unfoldable pub str_eq : Text → Text → Bool
str_eq [] [] = true
str_eq [] (_ ∷ _) = false
str_eq (_ ∷ _) [] = false
str_eq (a ∷ s) (b ∷ t) = a == b && str_eq s t

str_eq_sound : (s t : Text) → str_eq s t ≡ true → s ≡ t
unfolding str_eq
str_eq_sound [] [] h = refl
str_eq_sound [] (b ∷ t) h = cc
str_eq_sound (a ∷ s) [] h = cc
str_eq_sound (a ∷ s) (b ∷ t) h = ground (arith, str_eq_sound s t)

pub str_eq_refl : (s : Text) → str_eq s s ≡ true
unfolding str_eq
str_eq_refl [] = refl
str_eq_refl (a ∷ s) = ground (arith, str_eq_refl s)

pub str_eq_iff : (s t : Text) → (str_eq s t ≡ true) ↔ (s ≡ t)
str_eq_iff s t = (str_eq_sound s t, λ e. rw e (str_eq_refl t))

pub str_eq_comm : (s t : Text) → str_eq s t ≡ str_eq t s
str_eq_comm s t = ground (arith, str_eq_iff s t, str_eq_iff t s)

-- `not s`
abbrev pub is_empty : Text → Bool
is_empty [] = true
is_empty (_ ∷ _) = false

-- `str.isspace` on one character: the white space of Unicode.
unfoldable pub is_space : ℕ → Bool
is_space c =
    (leb 9 c && leb c 13)
    || (leb 28 c && leb c 32)
    || c == 133
    || c == 160
    || c == 5760
    || (leb 8192 c && leb c 8202)
    || c == 8232
    || c == 8233
    || c == 8239
    || c == 8287
    || c == 12288

unfoldable pub lstrip : Text → Text
unfolding is_space
lstrip [] = []
lstrip (c ∷ s) = let rest = lstrip s in if is_space c then rest else c ∷ s

-- `str.strip()`
unfoldable pub strip : Text → Text
unfolding lstrip
strip s = reverse (lstrip (reverse (lstrip s)))

unfoldable pub starts_with : Text → Text → Bool
starts_with s [] = true
starts_with [] (_ ∷ _) = false
starts_with (a ∷ s) (b ∷ t) = a == b && starts_with s t

-- `s.removeprefix(p)`
unfoldable pub remove_prefix : Text → Text → Text
unfolding starts_with
remove_prefix p s = if starts_with s p then drop (length p) s else s

-- `str.lower` on a Latin-1 character, which is all that an HTTP header holds.
unfoldable pub lower_char : ℕ → ℕ
lower_char c =
    if (leb 65 c && leb c 90) || (leb 192 c && leb c 222 && not (c == 215)) then c + 32 else c

unfoldable pub lower : Text → Text
unfolding lower_char
lower s = map lower_char s

-- `str.isascii`
abbrev pub is_ascii : Text → Bool
is_ascii [] = true
is_ascii (c ∷ s) = leb c 127 && is_ascii s

-- `s[-n:]` for a positive n.
abbrev pub last_n : ℕ → Text → Text
last_n n s = reverse (take n (reverse s))

-- `str(n)` of a count, with fuel for its digits; n itself is enough fuel.
unfoldable pub decimal_from : ℕ → ℕ → Text → Text
decimal_from zero n acc = acc
decimal_from (suc fuel) n acc =
    let more = decimal_from fuel (n / 10) ((n % 10 + 48) ∷ acc) in
    if leb n 9 then (n + 48) ∷ acc else more

unfoldable pub decimal : ℕ → Text
unfolding decimal_from
decimal n = decimal_from (suc n) n []

-- `sep.join(lines)`
unfoldable pub join : Text → List Text → Text
join sep [] = []
join sep (line ∷ []) = line
join sep (line ∷ next ∷ lines) = line ++ (sep ++ join sep (next ∷ lines))
