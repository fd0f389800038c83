-- ===== src/Common/Result.antt =====
-- Exceptions as values: what a call raises, and the chaining of calls that may raise.
use Prim.Native.Nat.{ℕ, suc}
use mathlib.Core.Path.{◌≡◌, refl, sym, ap, ◌∙◌}
use mathlib.Core.Bool.{Bool, true, false}
use mathlib.Core.Option.{Option, none, some}
use mathlib.Core.List.{List, [], ◌∷◌}
use mathlib.Core.Logic.{◌⊎◌, inl, inr}
use native.Mathlib.Omega.{arith}
use sms_relay.Common.Lists.{length}
use sms_relay.Common.Strings.{Text}

-- `http` is an HTTPException with its status, `transport_error` an httpx.HTTPError or a TimeoutError; any other fault that leaves a handler is a 500.
pub data Fault : Type 0 where
  http : ℕ → Text → Fault
  invalid_phone_number : Text → Fault
  value_error key_error type_error attribute_error re_error : Fault
  transport_error integrity_error multiple_results_found statement_error other_error : Fault

pub data Result {ℓ} (A : Type ℓ) : Type ℓ where
  ok : A → Result A
  raise : Fault → Result A

-- A statement `if c: raise fault`.
abbrev pub raise_if : (c : Bool) → (fault : Fault) → Result (Unit {0})
raise_if c fault = elim c [ false ↦ ok tt | true ↦ raise fault ]

-- What comes after a call, which an exception of the call skips.
abbrev pub ◌>>=◌ {ℓ κ} : {X : Type ℓ} {Y : Type κ} → Result X → (X → Result Y) → Result Y
(raise fault) >>= _ = raise fault
(ok value) >>= next = next value

abbrev pub ◌>>◌ {ℓ} : {Y : Type ℓ} → Result (Unit {0}) → Result Y → Result Y
check >> rest = check >>= λ done. rest

infixl 5 ◌>>=◌ ◌>>◌
-- A subscript that must be there.
abbrev pub require {ℓ} : {A : Type ℓ} → Option A → Fault → Result A
require none e = raise e
require (some a) e = ok a

-- `[f(x) for x in xs]`, which stops at the first exception.
unfoldable pub traverse {ℓ κ} :
    {A : Type ℓ} {B : Type κ} → (A → Result B) → List A → Result (List B)
traverse f [] = ok []
traverse f (x ∷ xs) = do ok ((← f x) ∷ (← traverse f xs))

-- A chain that returns has a first call that returned, and a rest that returned on its value.
pub >>=-eq-ok {ℓ κ} :
    {X : Type ℓ} {Y : Type κ} (call : Result X) (rest : X → Result Y) {y : Y}
    → (call >>= rest) ≡ ok y
    → (x : X) × (call ≡ ok x) × (rest x ≡ ok y)
>>=-eq-ok (raise fault) rest returned = cc
>>=-eq-ok (ok value) rest returned = (value, refl, returned)

pub ok_injective {ℓ} : {A : Type ℓ} (a b : A) → ok a ≡ ok b → a ≡ b
ok_injective a b h = cc

pub length-traverse {ℓ κ} :
    {A : Type ℓ} {B : Type κ} (f : A → Result B) (xs : List A) {ys : List B}
    → traverse f xs ≡ ok ys
    → length ys ≡ length xs
unfolding traverse
length-traverse f [] h = ground arith
length-traverse f (x ∷ xs) h =
    let (y, _, h1) = >>=-eq-ok (f x) _ h in
    let (rest, here, h2) = >>=-eq-ok (traverse f xs) _ h1 in
    ap length (sym (ok_injective _ _ h2)) ∙ ap suc (length-traverse f xs here)

pub Result-cases {ℓ} :
    {A : Type ℓ} (r : Result A) → ((a : A) × (r ≡ ok a)) ⊎ ((e : Fault) × (r ≡ raise e))
Result-cases (ok a) = inl (a, refl)
Result-cases (raise e) = inr (e, refl)
