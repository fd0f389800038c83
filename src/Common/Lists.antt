-- ===== src/Common/Lists.antt =====
-- Lists measured by native numbers, and the list queries that stand for SELECT and UPDATE.
use Prim.Native.Nat.{ℕ, zero, suc, ◌+◌, ◌-◌, ◌≤◌, min}
use mathlib.Core.Path.{◌≡◌, refl, ap, subst}
use mathlib.Core.Logic.{◌⊎◌, inl, inr}
use mathlib.Core.Bool.{Bool, true, false, ◌&&◌, ◌||◌}
use mathlib.Core.Option.{Option, none, some}
use mathlib.Core.List.{List, [], ◌∷◌, ◌++◌, map, reverse, reverse_aux}
use native.Mathlib.Omega.{arith}
use sms_relay.Common.Tests.{if◌then◌else◌, Bool-cases}

module _ {ℓ} {A : Type ℓ} where
  abbrev pub length : List A → ℕ
  length [] = 0
  length (x ∷ xs) = suc (length xs)

  abbrev pub take : ℕ → List A → List A
  take zero xs = []
  take (suc n) [] = []
  take (suc n) (x ∷ xs) = x ∷ take n xs

  abbrev pub drop : ℕ → List A → List A
  drop zero xs = xs
  drop (suc n) [] = []
  drop (suc n) (x ∷ xs) = drop n xs

  abbrev pub replicate : ℕ → A → List A
  replicate zero a = []
  replicate (suc n) a = a ∷ replicate n a

  abbrev pub all : (A → Bool) → List A → Bool
  all p [] = true
  all p (x ∷ xs) = p x && all p xs

  abbrev pub any : (A → Bool) → List A → Bool
  any p [] = false
  any p (x ∷ xs) = p x || any p xs

  -- The rows that pass a WHERE clause, in table order.
  abbrev pub select : (A → Bool) → List A → List A
  select p [] = []
  select p (x ∷ xs) = let rest = select p xs in if p x then x ∷ rest else rest

  -- UPDATE: the rows that pass the WHERE clause are changed, the others stay.
  abbrev pub update : (A → Bool) → (A → A) → List A → List A
  update p f [] = []
  update p f (x ∷ xs) = (if p x then f x else x) ∷ update p f xs

  abbrev pub is_nil : List A → Bool
  is_nil [] = true
  is_nil (_ ∷ _) = false

  abbrev pub head? : List A → Option A
  head? [] = none
  head? (x ∷ xs) = some x

module _ {ℓ κ} {A : Type ℓ} (P : A → Type κ) where
  abbrev pub All : List A → Type κ
  All [] = Unit
  All (x ∷ xs) = P x × All xs

  -- Every image under `f` has the property.
  abbrev pub All-image {ν} : {B : Type ν} → (B → A) → List B → Type κ
  All-image f [] = Unit
  All-image f (x ∷ xs) = P (f x) × All-image f xs

  pub All-append : (xs ys : List A) → All xs → All ys → All (xs ++ ys)
  All-append [] ys h k = k
  All-append (x ∷ xs) ys (p, h) k = (p, All-append xs ys h k)

  pub All-update :
      (t : A → Bool) (f : A → A)
      → ((x : A) → t x ≡ true → P x → P (f x))
      → (xs : List A) → All xs
      → All (update t f xs)
  All-update t f keep [] h = tt
  All-update t f keep (x ∷ xs) (p, h) = (ground (arith, keep x), All-update t f keep xs h)

  pub All-take : (n : ℕ) (xs : List A) → All xs → All (take n xs)
  All-take zero xs h = tt
  All-take (suc n) [] h = tt
  All-take (suc n) (x ∷ xs) (p, h) = (p, All-take n xs h)

  pub All-drop : (n : ℕ) (xs : List A) → All xs → All (drop n xs)
  All-drop zero xs h = h
  All-drop (suc n) [] h = tt
  All-drop (suc n) (x ∷ xs) (p, h) = All-drop n xs h

  pub All-map {ν} : {B : Type ν} (f : B → A) (xs : List B) → All-image f xs → All (map f xs)
  All-map f [] h = tt
  All-map f (x ∷ xs) (p, h) = (p, All-map f xs h)

  pub All-select : (t : A → Bool) (xs : List A) → All xs → All (select t xs)
  All-select t [] h = tt
  All-select t (x ∷ xs) (p, h) = ground (arith, All-select t xs h)

module _ {ℓ} {A : Type ℓ} where
  pub length-append : (xs ys : List A) → length (xs ++ ys) ≡ length xs + length ys
  length-append [] ys = omega arith
  length-append (x ∷ xs) ys = omega (arith, length-append xs ys)

  pub length-take : (n : ℕ) (xs : List A) → length (take n xs) ≡ min n (length xs)
  length-take zero xs = omega arith
  length-take (suc n) [] = omega arith
  length-take (suc n) (x ∷ xs) = omega (arith, length-take n xs)

  pub length-drop : (n : ℕ) (xs : List A) → length (drop n xs) ≡ length xs - n
  length-drop zero xs = omega arith
  length-drop (suc n) [] = omega arith
  length-drop (suc n) (x ∷ xs) = omega (arith, length-drop n xs)

  pub length-replicate : (n : ℕ) (a : A) → length (replicate n a) ≡ n
  length-replicate zero a = refl
  length-replicate (suc n) a = ap suc (length-replicate n a)

  pub select-append :
      (p : A → Bool) (xs ys : List A) → select p (xs ++ ys) ≡ select p xs ++ select p ys
  select-append p [] ys = refl
  select-append p (x ∷ xs) ys = ground (arith, select-append p xs ys)

  pub length-select : (p : A → Bool) (xs : List A) → length (select p xs) ≤ length xs
  length-select p [] = omega arith
  length-select p (x ∷ xs) = ground (arith, length-select p xs)

  pub length-update : (p : A → Bool) (f : A → A) (xs : List A) → length (update p f xs) ≡ length xs
  length-update p f [] = refl
  length-update p f (x ∷ xs) = ap suc (length-update p f xs)

  pub length-map {κ} : {B : Type κ} (f : A → B) (xs : List A) → length (map f xs) ≡ length xs
  length-map f [] = refl
  length-map f (x ∷ xs) = ap suc (length-map f xs)

-- No value, at every level.
pub data Empty {ℓ} : Type ℓ where

-- Some element has the property.
abbrev pub Any {ℓ κ} : {A : Type ℓ} → (A → Type κ) → List A → Type κ
Any P [] = Empty
Any P (x ∷ xs) = P x ⊎ Any P xs

module _ {ℓ} {A : Type ℓ} where
  length-reverse_aux : (xs ys : List A) → length (reverse_aux xs ys) ≡ length xs + length ys
  length-reverse_aux [] ys = omega arith
  length-reverse_aux (x ∷ xs) ys = omega (arith, length-reverse_aux xs (x ∷ ys))

  pub length-reverse : (xs : List A) → length (reverse xs) ≡ length xs
  length-reverse xs = omega (arith, length-reverse_aux xs [])

-- Two lists of one length whose elements are related place by place.
abbrev pub Pointwise {ℓ κ} : {A : Type ℓ} → (A → A → Type κ) → List A → List A → Type κ
Pointwise R [] [] = Unit
Pointwise R [] (_ ∷ _) = Empty
Pointwise R (_ ∷ _) [] = Empty
Pointwise R (x ∷ xs) (y ∷ ys) = R x y × Pointwise R xs ys

module _ {ℓ κ} {A : Type ℓ} (R : A → A → Type κ) where
  pub Pointwise-refl : ((x : A) → R x x) → (xs : List A) → Pointwise R xs xs
  Pointwise-refl refl' [] = tt
  Pointwise-refl refl' (x ∷ xs) = (refl' x, Pointwise-refl refl' xs)

  pub Pointwise-trans :
      ((x y z : A) → R x y → R y z → R x z)
      → (xs ys zs : List A) → Pointwise R xs ys
      → Pointwise R ys zs
      → Pointwise R xs zs
  Pointwise-trans trans [] [] [] h k = tt
  Pointwise-trans trans [] [] (z ∷ zs) h k = elim k [ ]
  Pointwise-trans trans [] (y ∷ ys) zs h k = elim h [ ]
  Pointwise-trans trans (x ∷ xs) [] zs h k = elim h [ ]
  Pointwise-trans trans (x ∷ xs) (y ∷ ys) [] h k = elim k [ ]
  Pointwise-trans trans (x ∷ xs) (y ∷ ys) (z ∷ zs) h k =
      (trans x y z h.0 k.0, Pointwise-trans trans xs ys zs h.1 k.1)

  -- An update relates each row to what becomes of it.
  pub Pointwise-update :
      ((x : A) → R x x)
      → (p : A → Bool) (f : A → A) (xs : List A) → All (λ x. p x ≡ true → R x (f x)) xs
      → Pointwise R xs (update p f xs)
  Pointwise-update refl' p f [] h = tt
  Pointwise-update refl' p f (x ∷ xs) h =
      (ground (arith, refl' x, h.0), Pointwise-update refl' p f xs h.1)

module _ {ℓ κ} {A : Type ℓ} (P : A → Type κ) where
  pub All-unselect :
      (t : A → Bool) (xs : List A) → All P (select t xs) → All (λ x. t x ≡ true → P x) xs
  All-unselect t [] h = tt
  All-unselect t (x ∷ xs) h = ground (arith, All-unselect t xs)

  Any-cons :
      (t : A → Bool) (x : A) (xs : List A)
      → t x ≡ true
      → P x ⊎ Any P (select t xs)
      → (Any P (select t xs) → Any (λ y. P y × (t y ≡ true)) xs)
      → Any (λ y. P y × (t y ≡ true)) (x ∷ xs)
  Any-cons t x xs hit (inl p) rest = inl (p, hit)
  Any-cons t x xs hit (inr h) rest = inr (rest h)

  pub Any-unselect :
      (t : A → Bool) (xs : List A) → Any P (select t xs) → Any (λ x. P x × (t x ≡ true)) xs
  Any-unselect t [] h = elim h [ ]
  Any-unselect t (x ∷ xs) h = elim (Bool-cases (t x)) [
    | inl hit ↦ Any-cons t x xs hit (rw hit at h) (Any-unselect t xs)
    | inr miss ↦ inr (Any-unselect t xs (rw miss at h))
  ]

  pub Any-map : {Q : A → Type κ} → ((x : A) → P x → Q x) → (xs : List A) → Any P xs → Any Q xs
  Any-map f [] h = elim h [ ]
  Any-map f (x ∷ xs) (inl p) = inl (f x p)
  Any-map f (x ∷ xs) (inr h) = inr (Any-map f xs h)

module _ {ℓ κ} {A : Type ℓ} where
  -- What holds of each element that stands in the list.
  pub All-of_Any : (P : A → Type κ) (xs : List A) → ((x : A) → Any (λ y. y ≡ x) xs → P x) → All P xs
  All-of_Any P [] h = tt
  All-of_Any P (x ∷ xs) h = (h x (inl refl), All-of_Any P xs (λ y a. h y (inr a)))

  pub All-both : (P Q : A → Type κ) (xs : List A) → All P xs → All Q xs → All (λ x. P x × Q x) xs
  All-both P Q [] h k = tt
  All-both P Q (x ∷ xs) h k = ((h.0, k.0), All-both P Q xs h.1 k.1)

  -- What holds of each element that a WHERE clause passes.
  pub All-selected :
      (P : A → Type κ) (p : A → Bool) (xs : List A)
      → All (λ x. p x ≡ true → P x) xs
      → All P (select p xs)
  All-selected P p [] h = tt
  All-selected P p (x ∷ xs) h = ground (arith, All-selected P p xs h.1, h.0)

  pub All-found : (P : A → Type κ) (x : A) (xs : List A) → All P xs → Any (λ y. y ≡ x) xs → P x
  All-found P x [] h a = elim a [ ]
  All-found P x (y ∷ xs) h (inl e) = subst P e h.0
  All-found P x (y ∷ xs) h (inr a) = All-found P x xs h.1 a

module _ {ℓ} {A : Type ℓ} where
  pub none_selected : (p : A → Bool) (xs : List A) → select p xs ≡ [] → All (λ x. p x ≡ false) xs
  none_selected p [] h = tt
  none_selected p (x ∷ xs) h = ground (arith, none_selected p xs)
